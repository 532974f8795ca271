-- ===== src/Search/Lowest.antt =====
-- `__search_for_lowest`, `__search_for_lowest_waiting_exclude_current` and `__active_thread_count`
-- against the list of active threads.

use task_clock.Common.{
  ℕ, ◌+◌, ◌≤◌, ◌≡◌, sym, ◌∙◌, ap, Bool, true, false, Option, none, some, List, arith, ◌∈◌, ok,
}
use task_clock.Listarray.Represents.{Represents}
use task_clock.Listarray.Foreach.{
  range_from, has-range_from, range_from_bounds, foreach-run_over, foreach_allelements-run_over,
}
use task_clock.Group.{Group}
use task_clock.Search.{
  scan, is_active, waits_beside, keep_lower, search_for_lowest,
  search_for_lowest_waiting_exclude_current,
}
use task_clock.Search.Fold.{
  IsLowestOf, fold_lower, run_over-fold_lower, fold_lower-IsLowestOf, IsLowestOf_unique,
}

-- Each thread that a search in NMI context may take is in the list of active threads.
abbrev pub IsListed : Group → List ℕ → (ℕ → Bool) → Type 0
IsListed g xs test = (i : ℕ) → i ≤ g.active_threads.max_index → test i ≡ true → i ∈ xs

-- The lowest of the initialised, not inactive threads of a list.
pub lowest : Group → List ℕ → Option ℕ
lowest g xs = fold_lower g (λ j. is_active (g.clocks j)) xs none

pub lowest-IsLowestOf :
    (g : Group) (xs : List ℕ) → IsLowestOf g (λ j. is_active (g.clocks j)) xs (lowest g xs)
unfolding lowest
lowest-IsLowestOf g xs = fold_lower-IsLowestOf g (λ j. is_active (g.clocks j)) xs

module _ (g : Group) (xs : List ℕ) (r : Represents g.active_threads xs) where
  module _ (test : ℕ → Bool) where
    scan-list :
        scan false g (λ i low. ok (keep_lower g test i low)) none ≡ ok (fold_lower g test xs none)
    unfolding scan
    scan-list =
        foreach-run_over g.active_threads (λ i low. ok (keep_lower g test i low)) xs none r
        ∙ run_over-fold_lower g test xs none

    scan-all :
        scan true g (λ i low. ok (keep_lower g test i low)) none
        ≡ ok (fold_lower g test (range_from (g.active_threads.max_index + 1) 0) none)
    unfolding scan
    scan-all =
        foreach_allelements-run_over g.active_threads (λ i low. ok (keep_lower g test i low)) none
        ∙ run_over-fold_lower g test (range_from (g.active_threads.max_index + 1) 0) none

    -- The lowest among all indices is the lowest of the list.
    IsLowestOf-range_from :
        (low : Option ℕ)
        → IsListed g xs test
        → IsLowestOf g test (range_from (g.active_threads.max_index + 1) 0) low
        → IsLowestOf g test xs low
    IsLowestOf-range_from none listed h = λ j m. h j (
        has-range_from (g.active_threads.max_index + 1) 0 j (omega arith)
          (omega (arith, r.bounded j m)))
    IsLowestOf-range_from (some t) listed h = (
      listed t (omega (arith, range_from_bounds (g.active_threads.max_index + 1) 0 t h.0)) h.1,
      h.1,
      λ j m p ne.
          h.2 j
            (has-range_from (g.active_threads.max_index + 1) 0 j (omega arith)
              (omega (arith, r.bounded j m)))
            p ne,
    )

    scan_nmi-eq-scan :
        IsListed g xs test
        → scan true g (λ i low. ok (keep_lower g test i low)) none
          ≡ scan false g (λ i low. ok (keep_lower g test i low)) none
    scan_nmi-eq-scan listed =
        scan-all
        ∙ ap ok (
            IsLowestOf_unique g test xs _ _
              (IsLowestOf-range_from _ listed (fold_lower-IsLowestOf g test _))
              (fold_lower-IsLowestOf g test xs))
        ∙ sym scan-list

  pub search_for_lowest-lowest : search_for_lowest false g ≡ ok (lowest g xs)
  unfolding search_for_lowest lowest
  search_for_lowest-lowest = scan-list (λ j. is_active (g.clocks j))

  -- Outside NMI context the search ends, faults at nothing, and finds the initialised, not inactive
  -- thread of the list with the lowest clock, the lower id winning a tie, or none if there is none.
  pub search_for_lowest_lem :
      (low : Option ℕ) × (search_for_lowest false g ≡ ok low)
      × IsLowestOf g (λ j. is_active (g.clocks j)) xs low
  search_for_lowest_lem = (lowest g xs, search_for_lowest-lowest, lowest-IsLowestOf g xs)

  -- In NMI context the search goes over all indices instead of the list, and has the same result,
  -- if each initialised, not inactive thread up to the largest index is listed.
  pub search_for_lowest_nmi :
      IsListed g xs (λ j. is_active (g.clocks j))
      → search_for_lowest true g ≡ search_for_lowest false g
  unfolding search_for_lowest
  search_for_lowest_nmi = scan_nmi-eq-scan (λ j. is_active (g.clocks j))

  -- The search for the lowest waiting thread but `tid` finds it, and has the same result in NMI
  -- context, if each initialised, not inactive thread up to the largest index is listed.
  pub search_exclude_current_lem :
      (tid : ℕ) (in_nmi : Bool)
      → IsListed g xs (λ j. is_active (g.clocks j))
      → (low : Option ℕ) × (search_for_lowest_waiting_exclude_current in_nmi g tid ≡ ok low)
        × IsLowestOf g (waits_beside g tid) xs low
  unfolding search_for_lowest_waiting_exclude_current
  search_exclude_current_lem tid false listed =
      (_, scan-list (waits_beside g tid), fold_lower-IsLowestOf g (waits_beside g tid) xs)
  search_exclude_current_lem tid true listed = (
    _,
    scan_nmi-eq-scan (waits_beside g tid) (λ i le p. listed i le (ground arith))
        ∙ scan-list (waits_beside g tid),
    fold_lower-IsLowestOf g (waits_beside g tid) xs,
  )
