-- ===== src/Search/Waiting.antt =====
-- `__search_for_lowest_waiting`, whose local array is not initialised.

use task_clock.Common.{
  ℕ, ◌≤◌, ◌<◌, ◌≡◌, refl, ◌∙◌, true, false, Option, none, some, List, [], ◌∷◌, arith, ◌==◌, ◌&&◌,
  ltb, if◌then◌else◌, update, has, ◌∈◌, ok, out_of_bounds,
}
use task_clock.Listarray.Represents.{Represents}
use task_clock.Listarray.Foreach.{run_over, foreach-run_over}
use task_clock.Group.{Group}
use task_clock.Search.{thread_arr_size, is_active, mark_waiting, search_for_lowest_waiting}
use task_clock.Search.Fold.{IsLowestOf}
use task_clock.Search.Lowest.{lowest, lowest-IsLowestOf, search_for_lowest-lowest}

-- What the loop leaves in the array.
abbrev marked : Group → List ℕ → (ℕ → ℕ) → ℕ → ℕ
marked g [] arr = arr
marked g (x ∷ xs) arr = marked g xs (if (g.clocks x).waiting then update arr x 1 else arr)

module _ (g : Group) where
  run_over-marked :
      (xs : List ℕ) (arr : ℕ → ℕ)
      → ((i : ℕ) → i ∈ xs → i < thread_arr_size)
      → run_over (mark_waiting g) xs arr ≡ ok (marked g xs arr)
  unfolding run_over mark_waiting
  run_over-marked [] arr small = refl
  run_over-marked (x ∷ xs) arr small = ground (
    arith,
    small x,
    run_over-marked xs (update arr x 1) (λ i m. small i (ground arith)),
    run_over-marked xs arr (λ i m. small i (ground arith)),
  )

  marked_lem :
      (xs : List ℕ) (arr : ℕ → ℕ) (i : ℕ)
      → marked g xs arr i ≡ (if has i xs && (g.clocks i).waiting then 1 else arr i)
  marked_lem [] arr i = refl
  marked_lem (x ∷ xs) arr i =
      marked_lem xs (if (g.clocks x).waiting then update arr x 1 else arr) i ∙ ground arith

  run_over_beyond :
      (xs : List ℕ) (arr : ℕ → ℕ) (i : ℕ)
      → i ∈ xs
      → (g.clocks i).waiting ≡ true
      → thread_arr_size ≤ i
      → run_over (mark_waiting g) xs arr ≡ out_of_bounds
  unfolding run_over mark_waiting
  run_over_beyond [] arr i m w big = ground arith
  run_over_beyond (x ∷ xs) arr i m w big =
      ground (arith, run_over_beyond xs (update arr x 1) i, run_over_beyond xs arr i)

-- The result of the search, given the lowest active thread: that thread if it waits; otherwise it
-- depends on what the array held.
abbrev pub waiting_result : Group → (ℕ → ℕ) → Option ℕ → Option ℕ
waiting_result g stack none = none
waiting_result g stack (some l) =
    if (g.clocks l).waiting then some l else if stack l == 1 then some l else none

module _ (g : Group) (xs : List ℕ) (r : Represents g.active_threads xs) (stack : ℕ → ℕ) where
  module _ (small : (i : ℕ) → i ∈ xs → i < thread_arr_size) where
    read_lowest :
        (low : Option ℕ)
        → IsLowestOf g (λ j. is_active (g.clocks j)) xs low
        → (elim low [
          | none ↦ ok none
          | some l ↦
              if ltb l thread_arr_size
              then ok (if marked g xs stack l == 1 then some l else none)
              else out_of_bounds
        ])
          ≡ ok (waiting_result g stack low)
    read_lowest none h = refl
    read_lowest (some l) h = ground (arith, h.0, small l h.0, marked_lem g xs stack l)

    -- With all members below 128 the search returns the lowest active thread if it waits. If that
    -- thread does not wait, it is returned nevertheless where the uninitialised array holds 1 for it.
    pub search_for_lowest_waiting_lem :
        search_for_lowest_waiting false stack g ≡ ok (waiting_result g stack (lowest g xs))
    unfolding search_for_lowest_waiting
    search_for_lowest_waiting_lem =
        rw
          (
            foreach-run_over g.active_threads (mark_waiting g) xs stack r,
            run_over-marked g xs stack small,
            search_for_lowest-lowest g xs r,
          )
          (read_lowest (lowest g xs) (lowest-IsLowestOf g xs))

  -- A waiting member from 128 on makes the search write outside its array.
  pub search_for_lowest_waiting_beyond :
      (i : ℕ)
      → i ∈ xs
      → (g.clocks i).waiting ≡ true
      → thread_arr_size ≤ i
      → search_for_lowest_waiting false stack g ≡ out_of_bounds
  unfolding search_for_lowest_waiting
  search_for_lowest_waiting_beyond i m w big =
      rw
        (
          foreach-run_over g.active_threads (mark_waiting g) xs stack r,
          run_over_beyond g xs stack i m w big,
        )
        refl
