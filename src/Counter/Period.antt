-- ===== src/Counter/Period.antt =====
-- The adaptive overflow period: how far the current thread runs before the next overflow.
use task_clock.Common.{
  ℕ, ◌+◌, ◌≤◌, ◌<◌, ◌≡◌, true, false, Option, none, some, List, arith, ltb, ==-refl, if◌then◌else◌,
  ok,
}
use task_clock.Listarray.Represents.{Represents}
use task_clock.Group.{Machine, Context, entry, add64, word, get_clock_ticks}
use task_clock.Search.{is_active, waits_beside}
use task_clock.Search.Fold.{IsLowestOf}
use task_clock.Search.Lowest.{IsListed, search_exclude_current_lem}
use task_clock.Fence.{bound_overflow_period}
use task_clock.Counter.{
  max_clock_sample_period, min_clock_sample_period, put_sample_period, new_sample_period,
  logical_clock_update_overflow_period,
}

-- What the new period `p` of thread `id` has to do with the lowest other waiting thread: if its
-- clock is ahead, the overflow comes at most 1024 ticks after that clock is reached.
abbrev pub StopsAt : Machine → ℕ → ℕ → Option ℕ → Type 0
StopsAt m id p none = p ≡ (
    if ltb (add64 (entry m id).event.sample_period 10_000) 200_000
    then add64 (entry m id).event.sample_period 10_000
    else 200_000)
StopsAt m id p (some low) =
    get_clock_ticks m.group id < get_clock_ticks m.group low
    → get_clock_ticks m.group id + p ≤ get_clock_ticks m.group low + min_clock_sample_period

module _ (ctx : Context) (id : ℕ) (m : Machine) (adaptive : ctx.build.adaptive_period ≡ true)
    (counting : ctx.build.instruction_counting ≡ true)
    (no_fence : ctx.build.bounded_fence ≡ false) where
  abbrev chosen : Option ℕ → ℕ
  chosen low =
      if ltb (bound_overflow_period ctx id (new_sample_period id low m) m) max_clock_sample_period
      then bound_overflow_period ctx id (new_sample_period id low m) m
      else max_clock_sample_period

  chosen_bounds :
      (low : Option ℕ)
      → (entry m id).event.sample_period + 10_000 < word
      → (min_clock_sample_period ≤ chosen low)
        × (chosen low ≤ max_clock_sample_period)
        × StopsAt m id (chosen low) low
  unfolding new_sample_period
  chosen_bounds none small = ground arith
  chosen_bounds (some low) small = ground arith

  -- Outside single stepping, in a build without the bounded fence, the update ends, faults at
  -- nothing, and sets a period from 1024 to 200000. With another thread waiting whose clock is
  -- ahead, the overflow comes at most 1024 ticks after that clock is reached; the thread is the
  -- lowest waiting one.
  pub update_overflow_period_lem :
      (xs : List ℕ)
      → Represents m.group.active_threads xs
      → IsListed m.group xs (λ j. is_active (m.group.clocks j))
      → (entry m id).event.sample_period + 10_000 < word
      → (low : Option ℕ) × (m' : Machine) × IsLowestOf m.group (waits_beside m.group id) xs low
        × (logical_clock_update_overflow_period ctx id m ≡ ok m')
        × (min_clock_sample_period ≤ (entry m' id).event.sample_period)
        × ((entry m' id).event.sample_period ≤ max_clock_sample_period)
        × StopsAt m id (entry m' id).event.sample_period low
  unfolding logical_clock_update_overflow_period
  update_overflow_period_lem xs r listed small =
      let (low, e, is) = search_exclude_current_lem m.group xs r id ctx.in_nmi listed in
      let (lo, hi, stops) = chosen_bounds low small in
      (
        low,
        put_sample_period id (chosen low) m,
        is,
        simp (adaptive, counting, no_fence, e),
        rw (==-refl id) lo,
        rw (==-refl id) hi,
        rw (==-refl id) stops,
      )
