-- ===== src/Listarray/Foreach.antt =====
-- The loops over listarray.h: what they run through, and that they end.
use mathlib.Core.Path.{fun_ext}
use task_clock.Common.{
  ◌∈◌, ℕ, zero, suc, ◌+◌, ◌≤◌, ◌<◌, ◌≡◌, refl, false, List, [], ◌∷◌, arith, ◌==◌, length, Result,
  ok, ◌>>=◌, ap,
}
use task_clock.Listarray.{
  null, Listarray, foreach_from, foreach, foreach_all_from, foreach_allelements,
}
use task_clock.Listarray.Represents.{Linked, Represents}

-- A loop body over a list of indices, stopped by the first fault.
module _ {S : Type 0} (body : ℕ → S → Result S) where
  unfoldable pub run_over : List ℕ → S → Result S
  run_over [] s = ok s
  run_over (x ∷ xs) s = do s' ← body x s; run_over xs s'

-- The `n` indices from `i` on.
abbrev pub range_from : ℕ → ℕ → List ℕ
range_from zero i = []
range_from (suc n) i = i ∷ range_from n (i + 1)

pub has-range_from : (n i j : ℕ) → i ≤ j → j < i + n → j ∈ range_from n i
has-range_from zero i j h k = absurd (omega arith)
has-range_from (suc n) i j h k = ground (arith, has-range_from n (i + 1) j)

pub range_from_bounds : (n i j : ℕ) → j ∈ range_from n i → (i ≤ j) × (j < i + n)
range_from_bounds zero i j h = ground arith
range_from_bounds (suc n) i j h = ground (arith, range_from_bounds n (i + 1) j)

module _ {S : Type 0} (la : Listarray) (body : ℕ → S → Result S) where
  foreach_from-run_over :
      (fuel before p : ℕ) (xs : List ℕ) (s : S)
      → Linked la.entries before p xs
      → length xs < fuel
      → foreach_from la body fuel p s ≡ run_over body xs s
  unfolding foreach_from run_over
  foreach_from-run_over zero before p xs s l h = absurd (omega arith)
  foreach_from-run_over (suc fuel) before p [] s l h = ground arith
  foreach_from-run_over (suc fuel) before p (x ∷ xs) s l h =
      let live : (p == null) ≡ false = ground arith in
      rw live (
        rw (l.0) (
          ap (λ (k : S → Result S). body x s >>= k)
            (fun_ext λ s'. ground (arith, foreach_from-run_over fuel x (la.entries x).next xs s'))))

  -- The loop runs its body over the members in order, and its rounds suffice.
  pub foreach-run_over :
      (xs : List ℕ) (s : S) → Represents la xs → foreach la body s ≡ run_over body xs s
  unfolding foreach
  foreach-run_over xs s r =
      foreach_from-run_over (la.count + 1) null la.head xs s r.chain (ground (arith, r.counted))

  foreach_all_from-run_over :
      (n i : ℕ) (s : S) → foreach_all_from la body n i s ≡ run_over body (range_from n i) s
  unfolding foreach_all_from run_over
  foreach_all_from-run_over zero i s = refl
  foreach_all_from-run_over (suc n) i s =
      ap (λ (k : S → Result S). body i s >>= k)
        (fun_ext (λ s'. foreach_all_from-run_over n (i + 1) s'))

  -- The loop over all elements runs its body over 0 to `max_index`.
  pub foreach_allelements-run_over :
      (s : S) → foreach_allelements la body s ≡ run_over body (range_from (la.max_index + 1) 0) s
  unfolding foreach_allelements
  foreach_allelements-run_over s = foreach_all_from-run_over (la.max_index + 1) 0 s
