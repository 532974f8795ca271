-- ===== src/Module.antt =====
-- Loading and unloading the kernel module, and its time helpers (src/module/clock_main.c).
pub mod Printed
pub mod Snapshots
pub mod Times
pub mod Table
use task_clock.Common.{
  ℕ, ◌+◌, ◌-◌, ◌*◌, ◌%◌, Bool, true, false, not, ◌&&◌, Result, ok, bug, ltb, ◌==◌, if◌then◌else◌,
}
use task_clock.Group.{word, add64, sub64}
use task_clock.Fence.{bounded_chunk_size}
use task_clock.Counter.{max_clock_sample_period}

-- The pointers of `task_clock_func`
pub data Slot : Type 0 where
  overflow_handler group_init entry_init entry_activate entry_halt on_disable on_enable : Slot
  entry_activate_other entry_wait entry_sleep overflow_update_period add_ticks : Slot
  entry_woke_up debug_add_event entry_stop entry_start entry_reset : Slot
  entry_start_no_notify entry_stop_no_notify entry_is_singlestep : Slot

-- Whether each pointer is set, to the function of its name.
abbrev pub Table : Type 0
Table = Slot → Bool

-- `bounded_fence` is USE_BOUNDED_FENCE.
abbrev pub loaded_table : (bounded_fence : Bool) → Table
loaded_table bounded_fence entry_is_singlestep = bounded_fence
loaded_table bounded_fence _ = true

unfoldable pub init_module : (bounded_fence : Bool) → Table → Result Table
init_module bounded_fence table =
    if bounded_fence && ltb bounded_chunk_size max_clock_sample_period
    then bug
    else ok (loaded_table bounded_fence)

unfoldable pub cleanup_module : Table → Table
cleanup_module table entry_sleep = table entry_sleep
cleanup_module table overflow_update_period = table overflow_update_period
cleanup_module table entry_reset = table entry_reset
cleanup_module table entry_start_no_notify = table entry_start_no_notify
cleanup_module table entry_stop_no_notify = table entry_stop_no_notify
cleanup_module table _ = false

-- `struct timespec`, with its numbers as 64-bit words
pub record Timespec : Type 0 where
  pub tv_sec : ℕ
  pub tv_nsec : ℕ

-- __lowest_time, for times that are not negative: whether it is 1.
abbrev pub lowest_time : Timespec → Timespec → Bool
lowest_time t₁ t₂ =
    if not (t₁.tv_sec == t₂.tv_sec) then ltb t₁.tv_sec t₂.tv_sec else ltb t₁.tv_nsec t₂.tv_nsec

-- __elapsed_time_ns
unfoldable pub elapsed_time_ns : Timespec → Timespec → ℕ
elapsed_time_ns t₁ t₂ =
    let start = if lowest_time t₁ t₂ then t₁ else t₂ in
    let end = if lowest_time t₁ t₂ then t₂ else t₁ in
    add64 ((sub64 end.tv_sec start.tv_sec * 1_000_000_000) % word) (sub64 end.tv_nsec start.tv_nsec)
