-- ===== src/Search/Fold.antt =====
-- What the rounds of a search find: the lowest of the threads that pass a test, whatever the order
-- in which they are visited.
use task_clock.Common.{
  ℕ, ◌≡◌, ◌≢◌, refl, Bool, true, false, ◌&&◌, Option, none, some, List, [], ◌∷◌, arith, ◌∈◌, ok,
  sym, ◌∙◌, Bool-cases, inl, inr,
}
use task_clock.Listarray.Foreach.{run_over}
use task_clock.Group.{Group, get_clock_ticks, clock_is_lower}
use task_clock.Search.{keep_lower}
use task_clock.Search.Order.{clock_is_lower_asymm, clock_is_lower_trans, clock_is_lower_total}

-- `r` is the lowest thread of `xs` that passes the test, or there is none.
abbrev pub IsLowestOf : Group → (ℕ → Bool) → List ℕ → Option ℕ → Type 0
IsLowestOf g test xs none = (j : ℕ) → j ∈ xs → test j ≡ false
IsLowestOf g test xs (some t) =
    (t ∈ xs)
    × (test t ≡ true)
    × ((j : ℕ) → j ∈ xs → test j ≡ true → j ≢ t → clock_is_lower g t j ≡ true)

module _ (g : Group) (test : ℕ → Bool) where
  pub fold_lower : List ℕ → Option ℕ → Option ℕ
  fold_lower [] r = r
  fold_lower (x ∷ xs) r = fold_lower xs (keep_lower g test x r)

  pub run_over-fold_lower :
      (xs : List ℕ) (r : Option ℕ)
      → run_over (λ i low. ok (keep_lower g test i low)) xs r ≡ ok (fold_lower xs r)
  unfolding run_over fold_lower
  run_over-fold_lower [] r = refl
  run_over-fold_lower (x ∷ xs) r = run_over-fold_lower xs (keep_lower g test x r)

  -- With a thread kept from earlier rounds, the result is it or a lower one.
  fold_lower-some :
      (xs : List ℕ) (k : ℕ)
      → test k ≡ true
      → (t : ℕ) × (fold_lower xs (some k) ≡ some t) × IsLowestOf g test (k ∷ xs) (some t)
  unfolding fold_lower
  fold_lower-some [] k h = (k, refl, (ground arith, h, λ j m p ne. ground arith))
  fold_lower-some (x ∷ xs) k h = elim (Bool-cases (test x && clock_is_lower g x k)) [
    | inl lower ↦
        let (t, e, is) = fold_lower-some xs x (ground arith) in
        (
          t,
          rw lower e,
          (
            ground arith,
            is.1,
            λ j m q ne. ground (arith, is.2 j, is.2 x, clock_is_lower_trans g t x k),
          ),
        )
    | inr kept ↦
        let (t, e, is) = fold_lower-some xs k h in
        (
          t,
          rw kept e,
          (
            ground arith,
            is.1,
            λ j m q ne.
                ground
                  (arith, is.2 j, is.2 k, clock_is_lower_trans g t k x, clock_is_lower_total g x k),
          ),
        )
  ]

  IsLowestOf-cons :
      (x : ℕ) (xs : List ℕ) (r : Option ℕ)
      → test x ≡ false
      → IsLowestOf g test xs r
      → IsLowestOf g test (x ∷ xs) r
  IsLowestOf-cons x xs none fail h = λ j m. ground (arith, h j)
  IsLowestOf-cons x xs (some t) fail h = (ground arith, h.1, λ j m p ne. ground (arith, h.2 j))

  -- From no thread, the result is the lowest of all.
  pub fold_lower-IsLowestOf : (xs : List ℕ) → IsLowestOf g test xs (fold_lower xs none)
  unfolding fold_lower
  fold_lower-IsLowestOf [] = λ j m. ground arith
  fold_lower-IsLowestOf (x ∷ xs) = elim (Bool-cases (test x)) [
    | inl pass ↦ let (t, e, low) = fold_lower-some xs x pass in rw pass (rw e low)
    | inr fail ↦ rw fail (IsLowestOf-cons x xs (fold_lower xs none) fail (fold_lower-IsLowestOf xs))
  ]

  -- There is at most one such result.
  pub IsLowestOf_unique :
      (xs : List ℕ) (r s : Option ℕ) → IsLowestOf g test xs r → IsLowestOf g test xs s → r ≡ s
  IsLowestOf_unique xs none none h k = refl
  IsLowestOf_unique xs none (some t) h k = ground (arith, h t)
  IsLowestOf_unique xs (some t) none h k = ground (arith, k t)
  IsLowestOf_unique xs (some s) (some t) h k =
      ground (arith, h.2 t, k.2 s, clock_is_lower_asymm g s t)

-- The lowest thread depends on the clocks and the test alone.
pub IsLowestOf-congr :
    (g g' : Group) (test test' : ℕ → Bool) (xs : List ℕ) (r : Option ℕ)
    → ((j : ℕ) → test' j ≡ test j)
    → ((j : ℕ) → get_clock_ticks g' j ≡ get_clock_ticks g j)
    → IsLowestOf g test xs r
    → IsLowestOf g' test' xs r
IsLowestOf-congr g g' test test' xs none same clocks h = λ j m. same j ∙ h j m
IsLowestOf-congr g g' test test' xs (some t) same clocks h =
    (h.0, same t ∙ h.1, λ j m p ne. rw (clocks t, clocks j) (h.2 j m (sym (same j) ∙ p) ne))
