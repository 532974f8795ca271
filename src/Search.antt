-- ===== src/Search.antt =====
-- The searches for the thread with the lowest clock (src/module/search_entries.h). -1 is `none`.
pub mod Debug
pub mod Printing
pub mod Order
pub mod Fold
pub mod Lowest
pub mod Waiting
pub mod Count
use task_clock.Common.{
  ℕ, zero, suc, ◌+◌, Bool, true, false, not, ◌&&◌, ◌||◌, Option, none, some, ltb, ◌==◌,
  if◌then◌else◌, update, Result, ok, out_of_bounds, ◌>>=◌,
}
use task_clock.Listarray.{Listarray, foreach, foreach_allelements}
use task_clock.Group.{Entry, Group, Context, get_clock_ticks, clock_is_lower}

-- TASK_CLOCK's local array `int thread_arr[128]`
abbrev pub thread_arr_size : ℕ
thread_arr_size = 128

-- __is_lowest, for a group with a lowest thread
unfoldable pub is_lowest : Group → (lowest_tid : ℕ) → ℕ → Bool
is_lowest g lowest_tid tid =
    (tid == lowest_tid) || ltb (get_clock_ticks g tid) (get_clock_ticks g lowest_tid)

-- Both loops of a search, over the list or, in NMI context, over all indices up to the largest.
unfoldable pub scan : {S : Type 0} → Bool → Group → (ℕ → S → Result S) → S → Result S
scan in_nmi g body s =
    if in_nmi then foreach_allelements g.active_threads body s else foreach g.active_threads body s

abbrev pub is_active : Entry → Bool
is_active e = e.initialized && not e.inactive

abbrev pub is_awake : Entry → Bool
is_awake e = e.initialized && (not e.inactive && not e.sleeping)

unfoldable pub active_thread_count : Bool → Group → Result ℕ
unfolding scan
active_thread_count in_nmi g =
    scan in_nmi g (λ i count. ok (if is_awake (g.clocks i) then count + 1 else count)) 0

-- One round of a search among the threads that pass `test`.
abbrev pub keep_lower : Group → (ℕ → Bool) → ℕ → Option ℕ → Option ℕ
keep_lower g test i none = if test i then some i else none
keep_lower g test i (some low) = if test i && clock_is_lower g i low then some i else some low

abbrev pub waits_beside : Group → ℕ → ℕ → Bool
waits_beside g tid i =
    (g.clocks i).initialized
    && (not (g.clocks i).inactive && ((g.clocks i).waiting && not (i == tid)))

unfoldable pub search_for_lowest_waiting_exclude_current : Bool → Group → ℕ → Result (Option ℕ)
unfolding scan
search_for_lowest_waiting_exclude_current in_nmi g tid =
    scan in_nmi g (λ i low. ok (keep_lower g (waits_beside g tid) i low)) none

unfoldable pub search_for_lowest : Bool → Group → Result (Option ℕ)
unfolding scan
search_for_lowest in_nmi g =
    scan in_nmi g (λ i low. ok (keep_lower g (λ j. is_active (g.clocks j)) i low)) none

-- The loop of `__search_for_lowest_waiting`, which writes 1 for each waiting thread.
unfoldable pub mark_waiting : Group → ℕ → (ℕ → ℕ) → Result (ℕ → ℕ)
mark_waiting g i thread_arr =
    if (g.clocks i).waiting
    then (if ltb i thread_arr_size then ok (update thread_arr i 1) else out_of_bounds)
    else ok thread_arr

-- `stack` is what the uninitialised array holds at the start.
unfoldable pub search_for_lowest_waiting : Bool → (stack : ℕ → ℕ) → Group → Result (Option ℕ)
unfolding mark_waiting search_for_lowest
search_for_lowest_waiting in_nmi stack g = do
  thread_arr ← foreach g.active_threads (mark_waiting g) stack
  low ← search_for_lowest in_nmi g
  elim low [
    | none ↦ ok none
    | some l ↦
        if ltb l thread_arr_size
        then ok (if thread_arr l == 1 then some l else none)
        else out_of_bounds
  ]
