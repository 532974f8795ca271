-- ===== src/Tests/Counters.antt =====
-- Reads of the counter (src/module/logical_clock_instruction_counting.h).
use task_clock.Common.{ℕ, ◌≤◌, ◌≡◌, refl, true, Option, none, some, [], ◌∷◌, arith, ok}
use task_clock.Group.{Machine, CounterRead, entry, add64}
use task_clock.Tests.State.{two, two_threads-Represents, two-IsListed, caller, contended}
use task_clock.Search.{waits_beside}
use task_clock.Search.Fold.{IsLowestOf}
use task_clock.Counter.{
  logical_clock_read_clock_and_update, logical_clock_update_overflow_period,
  min_clock_sample_period, max_clock_sample_period,
}
use task_clock.Counter.Delta.{Disturbed}
use task_clock.Counter.Clock.{Updated, read_clock_and_update_lem}
use task_clock.Counter.Period.{StopsAt, update_overflow_period_lem}

abbrev first_read : CounterRead
first_read = record { raw = 5; pmc = 5; nmi_store = some 3 }

abbrev second_read : CounterRead
second_read = record { raw = 7; pmc = 7; nmi_store = none }

reads-Disturbed : Disturbed 0 (first_read ∷ []) 3
reads-Disturbed = (3, refl, ground arith, refl)

read_clock_and_update_example :
    (m' : Machine) × (logical_clock_read_clock_and_update caller 0 contended ≡ ok m')
    × Updated caller true contended (add64 4 0) m'
read_clock_and_update_example =
    read_clock_and_update_lem caller contended (first_read ∷ []) second_read [] 3 4 refl refl
      reads-Disturbed refl (ground arith) (ground arith) refl

update_overflow_period_example :
    (low : Option ℕ) × (m' : Machine) × IsLowestOf contended.group
      (waits_beside contended.group 0)
      two
      low
    × (logical_clock_update_overflow_period caller 0 contended ≡ ok m')
    × (min_clock_sample_period ≤ (entry m' 0).event.sample_period)
    × ((entry m' 0).event.sample_period ≤ max_clock_sample_period)
    × StopsAt contended 0 (entry m' 0).event.sample_period low
update_overflow_period_example =
    update_overflow_period_lem caller 0 contended refl refl refl two two_threads-Represents
      (two-IsListed true (some 0) true) (ground arith)
