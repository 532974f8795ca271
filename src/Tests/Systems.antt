-- ===== src/Tests/Systems.antt =====
-- Whole runs of calls by several threads (src/module/clock_main.c).
use task_clock.Common.{◌≡◌, ◌≤◌, ◌&&◌, refl, true, false, some, List, [], ◌∷◌, arith, ok}
use task_clock.Group.{
  get_clock_ticks, current_is_only_active_thread, Machine, Context, entry, mark_as_inactive,
  mark_as_active,
}
use task_clock.Listarray.{init, insert, remove, foreach}
use task_clock.Search.{search_for_lowest_waiting_exclude_current, search_for_lowest_waiting}
use task_clock.Counter.{logical_clock_update_overflow_period, logical_clock_reset_overflow_period}
use task_clock.Notify.{
  new_lowest, wake_up_waiting_thread, yield_to_lowest, settle, determine_lowest_and_notify_or_wait,
}
use task_clock.Tests.Runs.{settled, is_ok, settled_lem}
use task_clock.Tests.State.{
  two, two_lowest, two-IsWellFormed, no_event, clocks, context, caller, contended,
}
use task_clock.Handlers.{
  task_clock_entry_wait, task_clock_group_init, task_clock_add_ticks, begin_entry, clear_entry,
  map_status, task_clock_entry_init, task_clock_entry_halt, task_clock_entry_activate,
  task_clock_entry_activate_other,
}
use task_clock.Handlers.Lists.{IsWellFormed}
use task_clock.System.{
  Call, entry_init, entry_activate, entry_activate_other, entry_halt, add_ticks, run_call,
  run_calls,
}
use task_clock.System.WellFormed.{listed_after_all, system-IsWellFormed}
use task_clock.System.Truthful.{flag}
use task_clock.System.Exclusive.{AllAttend, turn-exclusive}
use task_clock.System.Turn.{
  HasTurn, IsFair, Meanwhile, then_call, none_yet, turn_kept, turn-granted,
}

abbrev fresh : Machine
fresh = record contended { group = task_clock_group_init 4 (clocks true) }

-- Thread 0 sets itself up and brings thread 2, which works and halts.
abbrev calls : List (Context × Call)
calls =
    (caller, entry_init no_event true)
    ∷ (caller, entry_activate)
    ∷ (caller, entry_activate_other 2)
    ∷ (context false 2 false, add_ticks 7)
    ∷ (caller, entry_halt)
    ∷ []

run_returns : is_ok (run_calls calls fresh) ≡ true
unfolding init insert remove foreach mark_as_inactive mark_as_active
    search_for_lowest_waiting_exclude_current search_for_lowest_waiting
    logical_clock_update_overflow_period logical_clock_reset_overflow_period new_lowest
    wake_up_waiting_thread yield_to_lowest settle determine_lowest_and_notify_or_wait
    task_clock_group_init task_clock_add_ticks begin_entry clear_entry map_status
    task_clock_entry_init task_clock_entry_halt task_clock_entry_activate
    task_clock_entry_activate_other run_calls
run_returns = refl

system_example : IsWellFormed (settled (run_calls calls fresh)) (listed_after_all calls [])
system_example =
    system-IsWellFormed 4 (clocks true) fresh (settled (run_calls calls fresh)) calls refl
      (settled_lem (run_calls calls fresh) run_returns)

-- Thread 1 has the turn and makes no call, while thread 0 brings thread 5 and works.
abbrev activated : Machine
activated = settled (run_call caller (entry_activate_other 5) contended)

abbrev worked : Machine
worked = settled (run_call caller (add_ticks 7) activated)

both_run :
    (is_ok (run_call caller (entry_activate_other 5) contended)
      && is_ok (run_call caller (add_ticks 7) activated))
    ≡ true
unfolding init insert remove foreach mark_as_inactive mark_as_active
    search_for_lowest_waiting_exclude_current search_for_lowest_waiting
    logical_clock_update_overflow_period logical_clock_reset_overflow_period new_lowest
    wake_up_waiting_thread yield_to_lowest settle determine_lowest_and_notify_or_wait
    task_clock_group_init task_clock_add_ticks begin_entry clear_entry map_status
    task_clock_entry_init task_clock_entry_halt task_clock_entry_activate
    task_clock_entry_activate_other run_calls
both_run = refl

forwards :
    (get_clock_ticks contended.group 0 ≤ get_clock_ticks activated.group 0)
    × (get_clock_ticks activated.group 0 ≤ get_clock_ticks worked.group 0)
unfolding init insert remove foreach mark_as_inactive mark_as_active
    search_for_lowest_waiting_exclude_current search_for_lowest_waiting
    logical_clock_update_overflow_period logical_clock_reset_overflow_period new_lowest
    wake_up_waiting_thread yield_to_lowest settle determine_lowest_and_notify_or_wait
    task_clock_group_init task_clock_add_ticks begin_entry clear_entry map_status
    task_clock_entry_init task_clock_entry_halt task_clock_entry_activate
    task_clock_entry_activate_other run_calls
forwards = (ground arith, ground arith)

first_IsFair : IsFair 1 caller (entry_activate_other 5) contended two activated
first_IsFair = record {
  returns =
      settled_lem (run_call caller (entry_activate_other 5) contended) (ground (arith, both_run));
  other = ground arith;
  forward = forwards.0;
  modest = (refl, refl, refl, ground arith);
}

second_IsFair : IsFair 1 caller (add_ticks 7) activated (0 ∷ 1 ∷ 5 ∷ []) worked
second_IsFair = record {
  returns = settled_lem (run_call caller (add_ticks 7) activated) (ground (arith, both_run));
  other = ground arith;
  forward = forwards.1;
  modest = tt;
}

abbrev meanwhile : Meanwhile 1 contended two worked (0 ∷ 1 ∷ 5 ∷ [])
meanwhile =
    then_call {m₁ = activated} caller (entry_activate_other 5) first_IsFair
      (then_call {m₁ = worked} caller (add_ticks 7) second_IsFair none_yet)

turn_kept_example :
    IsWellFormed worked (0 ∷ 1 ∷ 5 ∷ [])
    × HasTurn 1 worked (0 ∷ 1 ∷ 5 ∷ [])
    × (entry worked 1 ≡ entry contended 1)
turn_kept_example =
    turn_kept 1 (two-IsWellFormed true (some 0) true) (two_lowest true (some 0) true) meanwhile

ready :
    (worked.group.user_status_arr ≡ true)
    × (current_is_only_active_thread (context false 1 false) worked ≡ false)
unfolding init insert remove foreach mark_as_inactive mark_as_active
    search_for_lowest_waiting_exclude_current search_for_lowest_waiting
    logical_clock_update_overflow_period logical_clock_reset_overflow_period new_lowest
    wake_up_waiting_thread yield_to_lowest settle determine_lowest_and_notify_or_wait
    task_clock_group_init task_clock_add_ticks begin_entry clear_entry map_status
    task_clock_entry_init task_clock_entry_halt task_clock_entry_activate
    task_clock_entry_activate_other run_calls
ready = (refl, refl)

turn-granted_example :
    (m'' : Machine) × (task_clock_entry_wait (context false 1 false) worked ≡ ok m'')
    × ((m''.status 1).lowest_clock ≡ true)
turn-granted_example =
    turn-granted (context false 1 false) (two-IsWellFormed true (some 0) true)
      (two_lowest true (some 0) true) meanwhile refl ready.0 (λ i m. ground arith) ready.1

attended : AllAttend 1 meanwhile
unfolding AllAttend init insert remove foreach mark_as_inactive mark_as_active
    search_for_lowest_waiting_exclude_current search_for_lowest_waiting
    logical_clock_update_overflow_period logical_clock_reset_overflow_period new_lowest
    wake_up_waiting_thread yield_to_lowest settle determine_lowest_and_notify_or_wait
    task_clock_group_init task_clock_add_ticks begin_entry clear_entry map_status
    task_clock_entry_init task_clock_entry_halt task_clock_entry_activate
    task_clock_entry_activate_other run_calls
attended = (tt, (((refl, λ i m. ground arith), refl, refl), tt))

turn-exclusive_example : flag worked 0 ≡ false
turn-exclusive_example =
    turn-exclusive 1 (two-IsWellFormed true (some 0) true) (two_lowest true (some 0) true) meanwhile
      attended 0 (ground arith) refl
