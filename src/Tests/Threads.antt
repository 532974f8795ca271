-- ===== src/Tests/Threads.antt =====
-- Threads that come, go and sleep (src/module/clock_main.c).
use task_clock.Common.{
  ℕ, ◌≡◌, refl, Bool, true, false, Option, some, arith, is_tid, erase, ok, out_of_bounds,
  out_of_fuel,
}
use task_clock.Group.{Machine, entry}
use task_clock.Tests.State.{
  two, two_threads-Represents, two_small, two_lowest, two-IsWellFormed, machine, context, caller,
  contended, stuck, awake,
}
use task_clock.Search.{is_active}
use task_clock.Search.Fold.{IsLowestOf}
use task_clock.Handlers.{
  task_clock_entry_halt, task_clock_entry_activate_other, task_clock_entry_sleep,
}
use task_clock.Handlers.Wait.{Waited}
use task_clock.Handlers.Threads.{
  Halted, halt-absent, halt-erase, ActivatedOther, activate_other-append,
}
use task_clock.Handlers.Sleep.{IsContended, sleep_lem}
use task_clock.Handlers.Stuck.{sleep-stuck}

halt-erase_example :
    (low : Option ℕ) × (m' : Machine) × (task_clock_entry_halt caller contended ≡ ok m')
    × IsLowestOf contended.group (λ j. is_active (contended.group.clocks j)) (erase 0 two) low
    × Halted caller contended two low m'
halt-erase_example =
    halt-erase caller contended two (two-IsWellFormed true (some 0) true) refl refl two_small refl

halt-absent_example : task_clock_entry_halt (context false 9 false) contended ≡ out_of_bounds
halt-absent_example =
    halt-absent (context false 9 false) contended two (two-IsWellFormed true (some 0) true)
      (ground arith) refl

activate_other_example :
    (m' : Machine) × (task_clock_entry_activate_other caller 5 contended ≡ ok m')
    × ActivatedOther caller contended two 5 m'
activate_other_example =
    activate_other-append caller contended two 5 (two-IsWellFormed true (some 0) true)
      (ground arith) refl

both_contended :
    (m : Bool) (low : Option ℕ) (needed : Bool) → IsContended caller (machine m low needed) two
both_contended m low needed = record {
  listed = two_threads-Represents;
  small = two_small;
  others = refl;
}

sleep_example :
    (low : Option ℕ) × (m' : Machine) × (task_clock_entry_sleep caller 1 awake ≡ ok m')
    × IsLowestOf awake.group (λ j. is_active (awake.group.clocks j)) two low
    × Waited caller awake low m'
    × (is_tid low 0 ≡ false → (entry m' 0).sleeping ≡ true)
    × (is_tid low 0 ≡ true → (entry m' 0).waiting ≡ false)
sleep_example =
    sleep_lem caller 0 awake two 1 refl (both_contended false (some 0) true) refl refl
      (ground arith) refl

sleep-stuck_example : task_clock_entry_sleep caller 1000 stuck ≡ out_of_fuel
sleep-stuck_example = sleep-stuck caller 1000 stuck two 1 refl (record {
  contended = both_contended true (some 1) false;
  lowest = two_lowest true (some 1) false;
  other = ground arith;
  waits = refl;
  was = refl;
  told = refl;
  asleep = λ i m ne. ground arith;
})
