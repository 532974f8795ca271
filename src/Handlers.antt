-- ===== src/Handlers.antt =====
-- The entry points of the kernel module, which the kernel calls through `task_clock_func`
-- (src/module/clock_main.c). `current` is the calling thread; the code between a spin lock's
-- acquisition and release is one step. Debug output and `start_counter` are left out.
pub mod Lists
pub mod Threads
pub mod Wait
pub mod Sleep
pub mod Stuck
pub mod GroupInit
pub mod Disable
pub mod Interrupt
use task_clock.Common.{
  ℕ, zero, suc, ◌+◌, ◌-◌, ◌^◌, Bool, true, false, not, ◌&&◌, ◌||◌, Option, none, some, [], ◌∷◌, ltb,
  ◌==◌, is_tid, if◌then◌else◌, update, Result, ok, bug, out_of_fuel, ◌>>=◌,
}
use task_clock.Listarray
use task_clock.Group.{
  PerfEvent, Entry, Group, UserStatus, Machine, Context, entry, put_entry, put_status, emit,
  queue_irq_work, add64, get_clock_ticks, clock_is_lower, tick_counter_turn_off,
  tick_counter_turn_on, tick_counter_is_running, clear_entry_state, clear_entry_state_by_id,
  inc_clock_ticks_no_chunk_add, reset_chunk_ticks, mark_as_inactive, mark_as_active,
}
use task_clock.Search.{active_thread_count}
use task_clock.Fence.{
  single_stepping_on, bounded_memory_fence_turn_on_tf, end_bounded_memory_fence_early,
  on_single_step,
}
use task_clock.Counter.{
  publish_ticks, logical_clock_update_clock_ticks, logical_clock_read_clock_and_update,
  logical_clock_reset_current_ticks, logical_clock_set_perf_counter_max,
  logical_clock_set_perf_counter, logical_clock_update_overflow_period,
  logical_clock_reset_overflow_period,
}
use task_clock.Notify.{
  new_lowest, thread_is_waiting, wake_up_if, put_group, set_waiting,
  determine_lowest_and_notify_or_wait,
}

-- The conversion of an int32_t, kept as its bit pattern, to 64 bits.
abbrev pub sign_extend32 : ℕ → ℕ
sign_extend32 x = if ltb x (2 ^ 31) then x else x + (2 ^ 64 - 2 ^ 32)

abbrev pub set_notification_needed : Bool → Machine → Machine
set_notification_needed b m = put_group (record (m.group) { notification_needed = b }) m

abbrev pub set_nmi_new_low : Bool → Machine → Machine
set_nmi_new_low b m = put_group (record (m.group) { nmi_new_low = b }) m

-- __init_task_clock_entries, with `rounds` entries left from `i` on
unfoldable pub init_task_clock_entries : (rounds i : ℕ) → (ℕ → Entry) → ℕ → Entry
init_task_clock_entries zero i clocks = clocks
init_task_clock_entries (suc rounds) i clocks = init_task_clock_entries rounds (i + 1) (
    update clocks i (record (clocks i) {
      initialized = false;
      waiting = false;
      sleeping = false;
      inactive = false;
      ticks = 0;
    }))

-- `kmalloc` does not clear the group: `memory` is what its entries hold.
unfoldable pub task_clock_group_init : (max_threads : ℕ) → (memory : ℕ → Entry) → Group
unfolding init_task_clock_entries
task_clock_group_init max_threads memory = record {
  clocks = init_task_clock_entries max_threads 0 memory;
  lowest_tid = none;
  lowest_ticks = 0;
  notification_needed = true;
  nmi_new_low = false;
  user_status_arr = false;
  active_threads = Listarray.init;
}

module _ (ctx : Context) where
  abbrev pub me : Machine → Entry
  me m = entry m ctx.current

  abbrev put_me : Entry → Machine → Machine
  put_me e m = put_entry m ctx.current e

  abbrev my_status : Machine → UserStatus
  my_status m = m.status ctx.current

  abbrev put_my_status : UserStatus → Machine → Machine
  put_my_status s m = put_status m ctx.current s

  unfoldable pub task_clock_entry_overflow_update_period : Machine → Result Machine
  task_clock_entry_overflow_update_period m =
      if tick_counter_is_running ctx m
      then logical_clock_update_overflow_period ctx ctx.current
          (logical_clock_update_clock_ticks ctx ctx.current m)
      else ok m

  -- The part of the overflow handler after the search for a new lowest thread.
  abbrev pub announce_new_low : Option ℕ → Machine → Machine
  announce_new_low none m = m
  announce_new_low (some low) m =
      if not (low == ctx.current)
        && (not m.group.nmi_new_low && thread_is_waiting m.group (some low))
      then emit (set_nmi_new_low true m) queue_irq_work
      else m

  -- The registers and the machine after an overflow interrupt.
  unfoldable pub task_clock_overflow_handler : Bool → Machine → Result (Bool × Machine)
  task_clock_overflow_handler regs m =
      if tick_counter_is_running ctx m
      then (let regs' =
            if single_stepping_on ctx ctx.current m
            then bounded_memory_fence_turn_on_tf regs
            else regs in
          new_lowest ctx.in_nmi m.group ctx.current >>= λ new_low.
          ok (regs', announce_new_low new_low m))
      else ok (regs, m)

  -- The unlocked tail of most handlers.
  abbrev pub determine_and_wake : Machine → Result Machine
  determine_and_wake m =
      determine_lowest_and_notify_or_wait ctx (ctx.stack 0) m >>= λ (tid, m'). wake_up_if tid m'

  -- The counter is settled before the thread gives up its clock.
  unfoldable pub stop_counter : Machine → Result Machine
  stop_counter m =
      if tick_counter_is_running ctx m
      then ok (tick_counter_turn_off ctx (logical_clock_update_clock_ticks ctx ctx.current m))
      else logical_clock_reset_current_ticks ctx ctx.current m

  abbrev pub end_single_stepping : Machine → Machine
  end_single_stepping m =
      if single_stepping_on ctx ctx.current m then end_bounded_memory_fence_early ctx m else m

  unfoldable pub task_clock_on_disable : Machine → Result Machine
  task_clock_on_disable m = do
    m₁ ← stop_counter (end_single_stepping m)
    determine_and_wake (set_notification_needed true m₁)

  unfoldable pub task_clock_add_ticks : (ticks : ℕ) → Machine → Result Machine
  task_clock_add_ticks ticks m =
      determine_and_wake
        (publish_ticks ctx (inc_clock_ticks_no_chunk_add m ctx.current (sign_extend32 ticks)))

  -- What `task_clock_on_enable` does before it determines the lowest thread.
  unfoldable pub enable_counter : Machine → Result Machine
  enable_counter m = do
    let m₁ = tick_counter_turn_on ctx (reset_chunk_ticks ctx.current m)
    m₂ ←
        logical_clock_update_overflow_period ctx ctx.current
          (logical_clock_reset_overflow_period ctx ctx.current m₁)
    ok (
        if (me m₂).userspace_reading
        then logical_clock_set_perf_counter ctx ctx.current
            (put_me (record (me m₂) { userspace_reading = false }) m₂)
        else m₂)

  -- A thread that is the lowest as it is enabled asks for a notification of the next.
  abbrev pub rearm_notification : Machine → Machine
  rearm_notification m =
      if is_tid m.group.lowest_tid ctx.current
      then set_nmi_new_low false (set_notification_needed true m)
      else m

  unfoldable pub task_clock_on_enable : Machine → Result Machine
  task_clock_on_enable m = enable_counter m >>= λ m₁.
      determine_lowest_and_notify_or_wait ctx (ctx.stack 0) m₁ >>= λ (tid, m₂).
      wake_up_if tid (clear_entry_state ctx (rearm_notification m₂))

  -- The first writes of `task_clock_entry_init`; `event` is the new event of the thread.
  unfoldable pub begin_entry : (event : PerfEvent) → Machine → Machine
  begin_entry event m =
      let m₁ =
        if (me m).initialized then m else put_me (record (me m) { ticks = 0; base_ticks = 0 }) m in
      put_me
        (record (me m₁) {
          initialized = true;
          userspace_reading = false;
          event = event;
          count_ticks = 0;
        })
        m₁

  unfoldable pub clear_entry : Machine → Machine
  clear_entry m =
      tick_counter_turn_off ctx (clear_entry_state ctx (reset_chunk_ticks ctx.current m))

  -- Thread 0 maps the status records, if nobody has.
  abbrev pub maps_status : Machine → Bool
  maps_status m = (ctx.current == 0) && not m.group.user_status_arr

  unfoldable pub map_status : Machine → Machine
  map_status m =
      if maps_status m then put_group (record (m.group) { user_status_arr = true }) m else m

  -- `pte_found` says whether the page of the status records has a page table entry.
  unfoldable pub task_clock_entry_init :
      (event : PerfEvent) → (pte_found : Bool) → Machine → Result Machine
  task_clock_entry_init event pte_found m =
      let m₁ = clear_entry (begin_entry event m) in
      let m₂ = map_status m₁ in
      if maps_status m₁ && not pte_found
      then bug
      else ok (put_my_status (record (my_status m₂) { hwc_idx = 2 ^ 32 - 1 }) m₂)

  unfoldable pub task_clock_entry_halt : Machine → Result Machine
  task_clock_entry_halt m = mark_as_inactive ctx.current m >>= λ m₁.
      determine_lowest_and_notify_or_wait ctx (ctx.stack 0) m₁ >>= λ (tid, m₂).
      wake_up_if tid (set_waiting ctx false m₂)

  -- A thread that is the lowest as it is activated is told so.
  abbrev pub take_lowest : Option ℕ → Machine → Machine
  take_lowest new_low m =
      if is_tid new_low ctx.current
      then put_my_status (record (my_status m) { lowest_clock = true })
          (put_group (record (m.group) { notification_needed = false; lowest_tid = new_low }) m)
      else m

  abbrev pub clear_notifying : Machine → Machine
  clear_notifying m =
      put_me (record (me m) { userspace_reading = false })
        (put_my_status
          (record (my_status m) {
            notifying_id = 0;
            notifying_clock = 666;
            notifying_sample = 666;
            hit_bounded_fence = false;
          })
          m)

  unfoldable pub task_clock_entry_activate : Machine → Result Machine
  task_clock_entry_activate m = do
    m₁ ← mark_as_active ctx.current (reset_chunk_ticks ctx.current (clear_entry_state ctx m))
    m₂ ←
        logical_clock_update_overflow_period ctx ctx.current
          (logical_clock_reset_overflow_period ctx ctx.current m₁)
    new_low ← new_lowest ctx.in_nmi (clear_notifying m₂).group ctx.current
    ok (take_lowest new_low (clear_notifying m₂))

  -- The new thread starts one tick behind its parent, unless it has been initialised before.
  abbrev pub start_clock : ℕ → Machine → Machine
  start_clock id m = put_entry m id (
      if (entry m id).initialized then entry m id else record (entry m id) {
        base_ticks = add64 (get_clock_ticks m.group ctx.current) 1;
        ticks = 0;
        initialized = true;
      })

  abbrev pub is_new_low : ℕ → Group → Bool
  is_new_low id g = elim (g.lowest_tid) [ none ↦ true | some low ↦ clock_is_lower g id low ]

  unfoldable pub task_clock_entry_activate_other : (id : ℕ) → Machine → Result Machine
  task_clock_entry_activate_other id m = do
    m₁ ← mark_as_active id (clear_entry_state_by_id ctx id (start_clock id m))
    let m₂ = reset_chunk_ticks id m₁
    ok (
        if is_new_low id m₂.group
        then put_my_status (record (my_status m₂) { activated_lowest = true }) m₂
        else m₂)

  unfoldable pub task_clock_entry_wait : Machine → Result Machine
  task_clock_entry_wait m = determine_and_wake m

  unfoldable pub task_clock_entry_reset : Machine → Machine
  task_clock_entry_reset m = put_me (record (me m) { initialized = false }) m

  -- One round of the loop of `task_clock_entry_sleep`.
  unfoldable pub sleep_round : (round : ℕ) → Machine → Result (Option ℕ × Machine)
  sleep_round round m = determine_lowest_and_notify_or_wait ctx (ctx.stack round) m >>= λ (tid, m₁).
      ok (tid, if (me m₁).waiting then put_me (record (me m₁) { sleeping = true }) m₁ else m₁)

  -- `while (true)`, cut off after `fuel` rounds.
  unfoldable pub sleep_loop : (fuel round : ℕ) → Machine → Result (Option ℕ × Machine)
  sleep_loop zero round m = out_of_fuel
  sleep_loop (suc fuel) round m = sleep_round round m >>= λ (tid, m₁). elim tid [
    | some t ↦ ok (some t, m₁)
    | none ↦ active_thread_count ctx.in_nmi m₁.group >>= λ count. elim (count == 0) [
      | true ↦ sleep_loop fuel (round + 1) m₁
      | false ↦ ok (none, m₁)
    ]
  ]

  unfoldable pub task_clock_entry_sleep : (fuel : ℕ) → Machine → Result Machine
  task_clock_entry_sleep fuel m = sleep_loop fuel 0 m >>= λ (tid, m₁). wake_up_if tid m₁

  unfoldable pub task_clock_entry_woke_up : Machine → Machine
  task_clock_entry_woke_up m = put_me (record (me m) { sleeping = false; waiting = false }) m

  unfoldable pub task_clock_entry_stop : Machine → Result Machine
  task_clock_entry_stop m = do
    m₁ ← logical_clock_read_clock_and_update ctx ctx.current (end_single_stepping m)
    determine_and_wake m₁

  unfoldable pub task_clock_entry_stop_no_notify : Machine → Result Machine
  task_clock_entry_stop_no_notify m = logical_clock_read_clock_and_update ctx ctx.current m

  unfoldable pub task_clock_entry_start : Machine → Result Machine
  task_clock_entry_start m = do
    m₁ ←
        logical_clock_reset_current_ticks ctx ctx.current
          (put_my_status (record (my_status m) { notifying_id = 0 }) m)
    task_clock_on_enable m₁

  unfoldable pub task_clock_entry_start_no_notify : Machine → Result Machine
  task_clock_entry_start_no_notify m = do
    m₁ ←
        logical_clock_reset_current_ticks ctx ctx.current
          (put_me (record (me m) { userspace_reading = true }) m)
    let m₂ = tick_counter_turn_off ctx (logical_clock_set_perf_counter_max ctx ctx.current m₁)
    ok (put_my_status (record (my_status m₂) { notifying_id = 666 }) m₂)

  unfoldable pub task_clock_entry_is_singlestep : Bool → Machine → Bool × Bool × Machine
  task_clock_entry_is_singlestep = on_single_step ctx
