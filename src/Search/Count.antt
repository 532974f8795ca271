-- ===== src/Search/Count.antt =====
-- `__active_thread_count` against the list of active threads.
use task_clock.Common.{
  ℕ, suc, ◌+◌, ◌≡◌, ◌∙◌, refl, true, false, List, [], ◌∷◌, arith, if◌then◌else◌, ◌∈◌, ok, ◌==◌, inl,
  inr, Bool-cases,
}
use task_clock.Listarray.Represents.{Represents}
use task_clock.Listarray.Foreach.{run_over, foreach-run_over}
use task_clock.Group.{Group}
use task_clock.Search.{scan, is_awake, active_thread_count}

module _ (g : Group) where
  -- How many threads of a list are awake.
  pub awake_count : List ℕ → ℕ
  awake_count [] = 0
  awake_count (x ∷ xs) = if is_awake (g.clocks x) then suc (awake_count xs) else awake_count xs

  run_over-awake_count :
      (xs : List ℕ) (n : ℕ)
      → run_over (λ i count. ok (if is_awake (g.clocks i) then count + 1 else count)) xs n
        ≡ ok (n + awake_count xs)
  unfolding run_over awake_count
  run_over-awake_count [] n = ground arith
  run_over-awake_count (x ∷ xs) n = elim (Bool-cases (is_awake (g.clocks x))) [
    | inl up ↦ rw up (run_over-awake_count xs (n + 1) ∙ ground arith)
    | inr down ↦ rw down (run_over-awake_count xs n)
  ]

  -- The count of active threads is that of the listed threads that are awake.
  pub active_thread_count-awake_count :
      (xs : List ℕ)
      → Represents g.active_threads xs
      → active_thread_count false g ≡ ok (awake_count xs)
  unfolding active_thread_count scan
  active_thread_count-awake_count xs r =
      foreach-run_over g.active_threads
        (λ i count. ok (if is_awake (g.clocks i) then count + 1 else count)) xs 0 r
      ∙ run_over-awake_count xs 0
      ∙ ground arith

  pub awake_count-none :
      (xs : List ℕ) → ((i : ℕ) → i ∈ xs → is_awake (g.clocks i) ≡ false) → awake_count xs ≡ 0
  unfolding awake_count
  awake_count-none [] h = refl
  awake_count-none (x ∷ xs) h =
      rw (h x (ground arith)) (awake_count-none xs (λ i m. h i (ground arith)))

  pub awake_count-some :
      (xs : List ℕ) (j : ℕ) → j ∈ xs → is_awake (g.clocks j) ≡ true → (awake_count xs == 0) ≡ false
  unfolding awake_count
  awake_count-some [] j m up = ground arith
  awake_count-some (x ∷ xs) j m up = elim (Bool-cases (is_awake (g.clocks x))) [
    | inl h ↦ rw h (ground arith)
    | inr h ↦ rw h (awake_count-some xs j (ground arith) up)
  ]
