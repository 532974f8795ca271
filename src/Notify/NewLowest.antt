-- ===== src/Notify/NewLowest.antt =====
-- `__new_lowest`: whether another thread has become the lowest.
use task_clock.Common.{
  ℕ, ◌≡◌, false, Option, none, some, List, arith, ◌==◌, is_tid, if◌then◌else◌, ok,
}
use task_clock.Listarray.Represents.{Represents}
use task_clock.Group.{Group, clock_is_lower}
use task_clock.Search.{is_active}
use task_clock.Search.Fold.{IsLowestOf}
use task_clock.Search.Lowest.{lowest, lowest-IsLowestOf, search_for_lowest-lowest}
use task_clock.Notify.{new_lowest}

-- The answer, given the lowest active thread.
abbrev pub new_low : Group → ℕ → Option ℕ → Option ℕ
new_low g tid low = elim (g.lowest_tid) [
  | none ↦ low
  | some old ↦
      if tid == old
      then (if is_tid low tid then none else low)
      else if clock_is_lower g tid old
      then some tid
      else none
]

-- Outside NMI context the function ends and faults at nothing. With no lowest thread recorded the answer is the lowest active one; if the caller is recorded, it
-- is the lowest active one unless that is still the caller; otherwise it is the caller, exactly if
-- its clock is below that of the recorded thread.
pub new_lowest_lem :
    (g : Group) (xs : List ℕ) (tid : ℕ)
    → Represents g.active_threads xs
    → (low : Option ℕ) × (new_lowest false g tid ≡ ok (new_low g tid low))
      × IsLowestOf g (λ j. is_active (g.clocks j)) xs low
unfolding new_lowest
new_lowest_lem g xs tid r =
    (lowest g xs, ground (arith, search_for_lowest-lowest g xs r), lowest-IsLowestOf g xs)
