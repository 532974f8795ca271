-- ===== src/Tests/Stops.antt =====
-- Thread 0 ends a section that began at 60 ticks (src/lib/determ_clock.c).
use task_clock.Common.{◌≡◌, refl, true, none, some, [], ◌∷◌, arith}
use task_clock.Group.{Machine, CounterRead, add64, sub64, get_clock_ticks}
use task_clock.Listarray.{foreach}
use task_clock.Search.{search_for_lowest_waiting}
use task_clock.Counter.{
  counter_delta, logical_clock_read_clock_and_update, read_performance_counter, finish_read,
  add_delta,
}
use task_clock.Fence.{inc_clock_ticks, inc_chunk_ticks}
use task_clock.Counter.Delta.{Disturbed}
use task_clock.Notify.{
  determine_lowest_and_notify_or_wait, settle, yield_to_lowest, wake_up_waiting_thread,
  set_current_thread_to_lowest,
}
use task_clock.Handlers.{task_clock_entry_stop}
use task_clock.Library.{Thread}
use task_clock.Library.Sections.{observe, determ_task_clock_stop_with_id}
use task_clock.Library.Counted.{counted, stop_with_id_lem}
use task_clock.Tests.Libraries.{info, module_kernel, module_kernel-IsDispatched}
use task_clock.Tests.Runs.{settled, is_ok, settled_lem}
use task_clock.Tests.State.{caller, contended}

abbrev section : Thread Machine
section = record { info = record (info 0) { last_clock_value = 60 }; kernel = contended }

abbrev stopped : Machine
stopped = settled (task_clock_entry_stop caller contended)

abbrev disturbed_read : CounterRead
disturbed_read = record { raw = 5; pmc = 5; nmi_store = some 3 }

abbrev last_read : CounterRead
last_read = record { raw = 7; pmc = 7; nmi_store = none }

reads-Disturbed : Disturbed 0 (disturbed_read ∷ []) 3
reads-Disturbed = (3, refl, ground arith, refl)

stop_returns : is_ok (task_clock_entry_stop caller contended) ≡ true
unfolding counter_delta task_clock_entry_stop logical_clock_read_clock_and_update
    read_performance_counter finish_read add_delta inc_clock_ticks inc_chunk_ticks
    determine_lowest_and_notify_or_wait search_for_lowest_waiting foreach settle yield_to_lowest
    wake_up_waiting_thread set_current_thread_to_lowest
stop_returns = refl

stop_with_id_example :
    (determ_task_clock_stop_with_id module_kernel 9 section
      ≡ observe module_kernel 9
          (add64 (sub64 100 60) (counted caller contended last_read 3))
          (record section { kernel = stopped }))
    × (get_clock_ticks stopped.group 0 ≡ add64 100 (counted caller contended last_read 3))
stop_with_id_example =
    stop_with_id_lem caller module_kernel module_kernel-IsDispatched section stopped 9 60
      (disturbed_read ∷ []) last_read [] 3 refl refl reads-Disturbed refl refl refl (ground arith)
      refl (settled_lem (task_clock_entry_stop caller contended) stop_returns)
