-- ===== src/System.antt =====
-- The calls of the kernel module put together: the table of functions that `init_module` fills
-- (src/module/clock_main.c), and any sequence of calls by any threads.
pub mod Quiet
pub mod Counters
pub mod Notices
pub mod Calls
pub mod Listing
pub mod WellFormed
pub mod Turn
pub mod Published
pub mod Truthful
pub mod Telling
pub mod Steady
pub mod Honest
pub mod Flags
pub mod Exclusive
pub mod Taken
pub mod Announced
pub mod Activation
use task_clock.Common.{ℕ, Bool, List, [], ◌∷◌, Result, ok, ◌>>=◌}
use task_clock.Group.{PerfEvent, Machine, Context}
use task_clock.Notify.{notify_waiting_threads}
use task_clock.Handlers.{
  task_clock_entry_overflow_update_period, task_clock_overflow_handler, task_clock_on_disable,
  task_clock_add_ticks, task_clock_on_enable, task_clock_entry_init, task_clock_entry_halt,
  task_clock_entry_activate, task_clock_entry_activate_other, task_clock_entry_wait,
  task_clock_entry_reset, task_clock_entry_sleep, task_clock_entry_woke_up, task_clock_entry_stop,
  task_clock_entry_stop_no_notify, task_clock_entry_start, task_clock_entry_start_no_notify,
  task_clock_entry_is_singlestep,
}

-- A call through the table, or the queued work. The arguments are those of the C function, the
-- registers' trap flag, and the rounds that a sleep is given.
pub data Call : Type 0 where
  overflow_handler : (regs : Bool) → Call
  entry_init : (event : PerfEvent) → (pte_found : Bool) → Call
  entry_activate : Call
  entry_halt : Call
  on_disable : Call
  on_enable : Call
  entry_activate_other : (id : ℕ) → Call
  entry_wait : Call
  entry_sleep : (fuel : ℕ) → Call
  overflow_update_period : Call
  add_ticks : (ticks : ℕ) → Call
  entry_woke_up : Call
  entry_stop : Call
  entry_start : Call
  entry_reset : Call
  entry_start_no_notify : Call
  entry_stop_no_notify : Call
  entry_is_singlestep : (regs : Bool) → Call
  notify_irq : Call

unfoldable pub run_call : Context → Call → Machine → Result Machine
run_call ctx (overflow_handler regs) m = task_clock_overflow_handler ctx regs m >>= λ (_, m'). ok m'
run_call ctx (entry_init event pte_found) m = task_clock_entry_init ctx event pte_found m
run_call ctx entry_activate m = task_clock_entry_activate ctx m
run_call ctx entry_halt m = task_clock_entry_halt ctx m
run_call ctx on_disable m = task_clock_on_disable ctx m
run_call ctx on_enable m = task_clock_on_enable ctx m
run_call ctx (entry_activate_other id) m = task_clock_entry_activate_other ctx id m
run_call ctx entry_wait m = task_clock_entry_wait ctx m
run_call ctx (entry_sleep fuel) m = task_clock_entry_sleep ctx fuel m
run_call ctx overflow_update_period m = task_clock_entry_overflow_update_period ctx m
run_call ctx (add_ticks ticks) m = task_clock_add_ticks ctx ticks m
run_call ctx entry_woke_up m = ok (task_clock_entry_woke_up ctx m)
run_call ctx entry_stop m = task_clock_entry_stop ctx m
run_call ctx entry_start m = task_clock_entry_start ctx m
run_call ctx entry_reset m = ok (task_clock_entry_reset ctx m)
run_call ctx entry_start_no_notify m = task_clock_entry_start_no_notify ctx m
run_call ctx entry_stop_no_notify m = task_clock_entry_stop_no_notify ctx m
run_call ctx (entry_is_singlestep regs) m =
    let (_, _, m') = task_clock_entry_is_singlestep ctx regs m in ok m'
run_call ctx notify_irq m = notify_waiting_threads ctx m

-- A sequence of calls, each by its own thread in its own context.
unfoldable pub run_calls : List (Context × Call) → Machine → Result Machine
unfolding run_call
run_calls [] m = ok m
run_calls ((ctx, call) ∷ rest) m = do m' ← run_call ctx call m; run_calls rest m'
