-- ===== src/Notify.antt =====
-- Who has the lowest clock, and telling them (src/module/clock_main.c, up to
-- `__determine_lowest_and_notify_or_wait`).
pub mod Kept
pub mod Settle
pub mod Determine
pub mod Wake
pub mod NewLowest
pub mod Notified
use task_clock.Common.{
  ℕ, Bool, true, false, not, ◌&&◌, ◌||◌, Option, none, some, ◌==◌, is_tid, same_tid, if◌then◌else◌,
  Result, ok, out_of_bounds, ◌>>=◌,
}
use task_clock.Group.{
  Group, Machine, Context, entry, put_entry, put_status, emit, wake_up_all, get_clock_ticks,
  clock_is_lower, clear_entry_state, current_is_only_active_thread,
}
use task_clock.Search.{search_for_lowest, search_for_lowest_waiting}
use task_clock.Counter.{publish_ticks}

-- __new_lowest
unfoldable pub new_lowest : Bool → Group → ℕ → Result (Option ℕ)
new_lowest in_nmi g tid = elim (g.lowest_tid) [
  | none ↦ search_for_lowest in_nmi g
  | some low ↦
      if tid == low
      then (search_for_lowest in_nmi g >>= λ tmp. ok (if is_tid tmp tid then none else tmp))
      else ok (if clock_is_lower g tid low then some tid else none)
]

-- __thread_is_waiting and __is_sleeping
abbrev pub thread_is_waiting : Group → Option ℕ → Bool
thread_is_waiting g none = false
thread_is_waiting g (some tid) = (g.clocks tid).waiting

abbrev pub is_sleeping : Group → Option ℕ → Bool
is_sleeping g none = false
is_sleeping g (some tid) = (g.clocks tid).sleeping

-- __wake_up_waiting_thread: what is tested and told is the thread that is the lowest by now, and
-- the event is that of `tid`. An index of -1 and the NULL of `user_status_arr` are out of bounds.
unfoldable pub wake_up_waiting_thread : ℕ → Machine → Result Machine
wake_up_waiting_thread tid m =
    if is_sleeping m.group m.group.lowest_tid
    then ok (emit m (wake_up_all tid))
    else elim (m.group.lowest_tid) [
      | none ↦ out_of_bounds
      | some low ↦
          if m.group.user_status_arr
          then ok (put_status m low (record (m.status low) { lowest_clock = true }))
          else out_of_bounds
    ]

-- `if (lowest_tid >= 0) __wake_up_waiting_thread(group_info, lowest_tid)`
abbrev pub wake_up_if : Option ℕ → Machine → Result Machine
wake_up_if none m = ok m
wake_up_if (some tid) m = wake_up_waiting_thread tid m

abbrev pub put_group : Group → Machine → Machine
put_group g m = record m { group = g }

-- __set_new_low
abbrev pub set_new_low : ℕ → Machine → Machine
set_new_low tid m =
    put_group
      (record (m.group) { lowest_tid = some tid; lowest_ticks = get_clock_ticks m.group tid }) m

-- The locked part of `__task_clock_notify_waiting_threads`, given the result of the search: the
-- thread to wake, and the machine.
abbrev pub claim_notification : Option ℕ → Machine → Option ℕ × Machine
claim_notification none m = (none, m)
claim_notification (some low) m =
    if (m.group.clocks low).waiting
    then (if m.group.notification_needed || m.group.nmi_new_low
        then (
          some low,
          put_group
              (record ((set_new_low low m).group) {
                nmi_new_low = false;
                notification_needed = false;
              })
              m,
        )
        else (none, set_new_low low m))
    else (none, m)

module _ (ctx : Context) where
  -- __task_clock_notify_waiting_threads, which `__task_clock_notify_waiting_threads_irq` calls
  unfoldable pub notify_waiting_threads : Machine → Result Machine
  notify_waiting_threads m = do
    new_low ← search_for_lowest_waiting ctx.in_nmi (ctx.stack 0) m.group
    let (tid, m') = claim_notification new_low m
    wake_up_if tid m'

  -- __set_current_thread_to_lowest
  unfoldable pub set_current_thread_to_lowest : Machine → Machine
  set_current_thread_to_lowest m =
      let m₁ = put_status m ctx.current (record (m.status ctx.current) { lowest_clock = true }) in
      let m₂ = put_group (record (m₁.group) { notification_needed = false }) m₁ in
      let m₃ = clear_entry_state ctx m₂ in
      put_group (record (m₃.group) { lowest_ticks = get_clock_ticks m₃.group ctx.current }) m₃

  -- The current thread is not the lowest: the thread to wake, and the machine.
  unfoldable pub yield_to_lowest : Machine → Option ℕ × Machine
  yield_to_lowest m =
      let m₁ = put_status m ctx.current (record (m.status ctx.current) { lowest_clock = false }) in
      if thread_is_waiting m₁.group m₁.group.lowest_tid && m₁.group.notification_needed
      then (
        m₁.group.lowest_tid,
        put_group (record (m₁.group) { nmi_new_low = false; notification_needed = false }) m₁,
      )
      else (none, m₁)

  -- The group-level lowest clock is brought up to date.
  abbrev pub refresh_lowest_ticks : Machine → Machine
  refresh_lowest_ticks m = elim (m.group.lowest_tid) [
    | none ↦ m
    | some low ↦ put_group (record (m.group) { lowest_ticks = get_clock_ticks m.group low }) m
  ]

  -- The lowest thread is another one than before.
  abbrev pub move_lowest : Option ℕ → Machine → Machine
  move_lowest new_low m =
      if same_tid new_low m.group.lowest_tid
      then m
      else put_group (record (m.group) { notification_needed = true; lowest_tid = new_low }) m

  -- What follows the search in `__determine_lowest_and_notify_or_wait`. After `move_lowest` the
  -- lowest thread of the group is `new_low`, so the test for it is one on `new_low`.
  unfoldable pub settle : Option ℕ → Machine → Option ℕ × Machine
  settle new_low m =
      let m₁ = move_lowest new_low m in
      if is_tid new_low ctx.current
      then (none, refresh_lowest_ticks (set_current_thread_to_lowest m₁))
      else (let (tid, m₂) = yield_to_lowest m₁ in (tid, refresh_lowest_ticks m₂))

  abbrev pub set_waiting : Bool → Machine → Machine
  set_waiting b m = put_entry m ctx.current (record (entry m ctx.current) { waiting = b })

  -- The only active thread.
  abbrev pub run_alone : Machine → Machine
  run_alone m =
      set_current_thread_to_lowest
        (put_status m ctx.current (record (m.status ctx.current) { single_active_thread = true }))

  -- __determine_lowest_and_notify_or_wait: the thread to wake, or none, and the machine. `stack`
  -- is what the array of the search holds.
  unfoldable pub determine_lowest_and_notify_or_wait :
      (stack : ℕ → ℕ) → Machine → Result (Option ℕ × Machine)
  determine_lowest_and_notify_or_wait stack m =
      let m₁ = publish_ticks ctx m in
      if current_is_only_active_thread ctx m₁ then ok (none, run_alone m₁) else do
        new_low ← search_for_lowest_waiting ctx.in_nmi stack (set_waiting true m₁).group
        ok (settle new_low (set_waiting true m₁))
