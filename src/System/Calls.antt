-- ===== src/System/Calls.antt =====
-- Which calls leave the others alone: all but those that bring threads and take them away
-- (src/module/clock_main.c).
use task_clock.Common.{
  ℕ, zero, suc, ◌+◌, refl, Bool, true, false, Option, none, some, arith, ◌==◌, inl, inr, Bool-cases,
  Result, ok, ◌>>=◌, Ensures, Ensures-bind, Ensures-trivial, Ensures-if, Ensures-map,
}
use task_clock.Group.{
  Machine, Context, entry, put_entry, put_status, add64, clear_entry_state, reset_chunk_ticks,
  tick_counter_turn_on, tick_counter_turn_off, tick_counter_is_running,
  inc_clock_ticks_no_chunk_add,
}
use task_clock.Search.{active_thread_count}
use task_clock.Fence.{single_stepping_on}
use task_clock.Counter.{
  publish_ticks, logical_clock_update_clock_ticks, logical_clock_update_overflow_period,
  logical_clock_reset_overflow_period, logical_clock_reset_current_ticks,
  logical_clock_read_clock_and_update, logical_clock_set_perf_counter,
  logical_clock_set_perf_counter_max,
}
use task_clock.Notify.{new_lowest, determine_lowest_and_notify_or_wait}
use task_clock.Handlers.{
  sign_extend32, set_notification_needed, announce_new_low, end_single_stepping, rearm_notification,
  determine_and_wake, stop_counter, enable_counter, sleep_round, sleep_loop,
  task_clock_entry_overflow_update_period, task_clock_overflow_handler, task_clock_on_disable,
  task_clock_add_ticks, task_clock_on_enable, task_clock_entry_wait, task_clock_entry_sleep,
  task_clock_entry_woke_up, task_clock_entry_stop, task_clock_entry_stop_no_notify,
  task_clock_entry_start, task_clock_entry_start_no_notify, task_clock_entry_is_singlestep,
}
use task_clock.System.Quiet.{
  Quiet-refl, Quiet-trans, Own, Own-if, Own-then, put-Own, end-Own, on_single_step-Own,
}
use task_clock.System.Counters.{
  turn_off-Own, update_clock_ticks-Own, read_clock-Own, reset_current_ticks-Own,
  set_perf_counter_max-Own, set_perf_counter-Own, reset_overflow_period-Own,
  update_overflow_period-Own,
}
use task_clock.System.Notices.{clear-Own, determine-Own, Own-wake}

module _ (ctx : Context) where
  Own-bind :
      (m : Machine) (r : Result Machine) (f : Machine → Result Machine)
      → Ensures (Own ctx m) r
      → ((m₁ : Machine) → Ensures (Own ctx m₁) (f m₁))
      → Ensures (Own ctx m) (r >>= f)
  Own-bind m r f o step =
      Ensures-bind (Own ctx m) (Own ctx m) r f o (λ m₁ o₁. Own-then ctx m m₁ (f m₁) o₁ (step m₁))

  determine_and_wake-Own : (m : Machine) → Ensures (Own ctx m) (determine_and_wake ctx m)
  determine_and_wake-Own m =
      Ensures-bind (λ r. Own ctx m r.1) (Own ctx m)
        (determine_lowest_and_notify_or_wait ctx (ctx.stack 0) m) _
        (determine-Own ctx (ctx.stack 0) m) (λ (tid, m₁) o. Own-wake ctx m m₁ tid o)

  pub wait-Own : (m : Machine) → Ensures (Own ctx m) (task_clock_entry_wait ctx m)
  unfolding task_clock_entry_wait
  wait-Own = determine_and_wake-Own

  pub update_period-Own :
      (m : Machine) → Ensures (Own ctx m) (task_clock_entry_overflow_update_period ctx m)
  unfolding task_clock_entry_overflow_update_period
  update_period-Own m =
      Ensures-if (Own ctx m) (tick_counter_is_running ctx m) _ (ok m)
        (Own-then ctx m (logical_clock_update_clock_ticks ctx ctx.current m) _
          (update_clock_ticks-Own ctx m)
          (update_overflow_period-Own ctx (logical_clock_update_clock_ticks ctx ctx.current m)))
        (Quiet-refl ctx.current m.group)

  announce-Own : (low : Option ℕ) (m : Machine) → Own ctx m (announce_new_low ctx low m)
  announce-Own none m = Quiet-refl ctx.current m.group
  announce-Own (some l) m = ground arith

  pub overflow_handler-Own :
      (regs : Bool) (m : Machine)
      → Ensures (λ r. Own ctx m r.1) (task_clock_overflow_handler ctx regs m)
  unfolding task_clock_overflow_handler
  overflow_handler-Own regs m =
      Ensures-if (λ r. Own ctx m r.1) (tick_counter_is_running ctx m) _ (ok (regs, m))
        (Ensures-bind (λ _. Unit {0}) (λ r. Own ctx m r.1)
          (new_lowest ctx.in_nmi m.group ctx.current) _ (Ensures-trivial _)
          (λ low _. announce-Own low m))
        (Quiet-refl ctx.current m.group)

  pub end_single_stepping-Own : (m : Machine) → Own ctx m (end_single_stepping ctx m)
  end_single_stepping-Own m = elim (Bool-cases (single_stepping_on ctx ctx.current m)) [
    | inl on ↦ rw on (end-Own ctx m)
    | inr off ↦ rw off (Quiet-refl ctx.current m.group)
  ]

  pub stop_counter-Own : (m : Machine) → Ensures (Own ctx m) (stop_counter ctx m)
  unfolding stop_counter
  stop_counter-Own m =
      Ensures-if (Own ctx m) (tick_counter_is_running ctx m)
        (ok (tick_counter_turn_off ctx (logical_clock_update_clock_ticks ctx ctx.current m))) _
        (Quiet-trans (update_clock_ticks-Own ctx m)
          (turn_off-Own ctx (logical_clock_update_clock_ticks ctx ctx.current m)))
        (reset_current_ticks-Own ctx m)

  pub on_disable-Own : (m : Machine) → Ensures (Own ctx m) (task_clock_on_disable ctx m)
  unfolding task_clock_on_disable
  on_disable-Own m =
      Own-bind m (stop_counter ctx (end_single_stepping ctx m)) _
        (Own-then ctx m (end_single_stepping ctx m) _ (end_single_stepping-Own m)
          (stop_counter-Own (end_single_stepping ctx m)))
        (λ m₁.
          Own-then ctx m₁ (set_notification_needed true m₁) _
            (record { others = λ i ne. refl; list = refl; initialized = refl; inactive = λ h. h })
            (determine_and_wake-Own (set_notification_needed true m₁)))

  pub add_ticks-Own :
      (ticks : ℕ) (m : Machine) → Ensures (Own ctx m) (task_clock_add_ticks ctx ticks m)
  unfolding task_clock_add_ticks
  add_ticks-Own ticks m =
      Own-then ctx m
        (publish_ticks ctx (inc_clock_ticks_no_chunk_add m ctx.current (sign_extend32 ticks))) _
        (put-Own ctx m
          (record (entry m ctx.current) {
            ticks = add64 (entry m ctx.current).ticks (sign_extend32 ticks);
          })
          refl (λ h. h))
        (determine_and_wake-Own
          (publish_ticks ctx (inc_clock_ticks_no_chunk_add m ctx.current (sign_extend32 ticks))))

  set_userspace-Own :
      (b : Bool) (m : Machine)
      → Own ctx m (put_entry m ctx.current (record (entry m ctx.current) { userspace_reading = b }))
  set_userspace-Own b m =
      put-Own ctx m (record (entry m ctx.current) { userspace_reading = b }) refl (λ h. h)

  pub enable_counter-Own : (m : Machine) → Ensures (Own ctx m) (enable_counter ctx m)
  unfolding enable_counter
  enable_counter-Own m =
      let m₁ = tick_counter_turn_on ctx (reset_chunk_ticks ctx.current m) in
      let m₂ = logical_clock_reset_overflow_period ctx ctx.current m₁ in
      let started : Own ctx m m₁ =
        Quiet-trans (put-Own ctx m (record (entry m ctx.current) { chunk_ticks = 0 }) refl (λ h. h))
          (put-Own ctx (reset_chunk_ticks ctx.current m)
            (record (entry (reset_chunk_ticks ctx.current m) ctx.current) { count_ticks = 1 }) refl
            (λ h. h)) in
      Own-bind m (logical_clock_update_overflow_period ctx ctx.current m₂) _
        (Own-then ctx m m₂ _ (Quiet-trans started (reset_overflow_period-Own ctx ctx.current m₁))
          (update_overflow_period-Own ctx m₂))
        (λ m₃.
          let quiet =
            put_entry m₃ ctx.current
              (record (entry m₃ ctx.current) { userspace_reading = false }) in
          Own-if ctx m₃ (entry m₃ ctx.current).userspace_reading
            (logical_clock_set_perf_counter ctx ctx.current quiet) m₃
            (Quiet-trans (set_userspace-Own false m₃) (set_perf_counter-Own ctx quiet))
            (Quiet-refl ctx.current m₃.group))

  pub rearm-Own : (m : Machine) → Own ctx m (rearm_notification ctx m)
  rearm-Own m = ground arith

  pub on_enable-Own : (m : Machine) → Ensures (Own ctx m) (task_clock_on_enable ctx m)
  unfolding task_clock_on_enable
  on_enable-Own m = Own-bind m (enable_counter ctx m) _ (enable_counter-Own m) (λ m₁.
      Ensures-bind (λ r. Own ctx m₁ r.1) (Own ctx m₁)
        (determine_lowest_and_notify_or_wait ctx (ctx.stack 0) m₁) _
        (determine-Own ctx (ctx.stack 0) m₁)
        (λ (tid, m₂) o.
          Own-wake ctx m₁ (clear_entry_state ctx (rearm_notification ctx m₂)) tid (
            Quiet-trans o
              (Quiet-trans (rearm-Own m₂) (clear-Own ctx (rearm_notification ctx m₂))))))

  pub start-Own : (m : Machine) → Ensures (Own ctx m) (task_clock_entry_start ctx m)
  unfolding task_clock_entry_start
  start-Own m =
      let m₁ = put_status m ctx.current (record (m.status ctx.current) { notifying_id = 0 }) in
      Own-bind m (logical_clock_reset_current_ticks ctx ctx.current m₁) _
        (Own-then ctx m m₁ _ (Quiet-refl ctx.current m.group) (reset_current_ticks-Own ctx m₁))
        on_enable-Own

  pub stop_no_notify-Own :
      (m : Machine) → Ensures (Own ctx m) (task_clock_entry_stop_no_notify ctx m)
  unfolding task_clock_entry_stop_no_notify
  stop_no_notify-Own m = read_clock-Own ctx m

  pub stop-Own : (m : Machine) → Ensures (Own ctx m) (task_clock_entry_stop ctx m)
  unfolding task_clock_entry_stop
  stop-Own m =
      Own-bind m (logical_clock_read_clock_and_update ctx ctx.current (end_single_stepping ctx m)) _
        (Own-then ctx m (end_single_stepping ctx m) _ (end_single_stepping-Own m)
          (read_clock-Own ctx (end_single_stepping ctx m)))
        determine_and_wake-Own

  pub start_no_notify-Own :
      (m : Machine) → Ensures (Own ctx m) (task_clock_entry_start_no_notify ctx m)
  unfolding task_clock_entry_start_no_notify
  start_no_notify-Own m =
      let m₁ =
        put_entry m ctx.current (record (entry m ctx.current) { userspace_reading = true }) in
      Own-bind m (logical_clock_reset_current_ticks ctx ctx.current m₁) _
        (Own-then ctx m m₁ _ (set_userspace-Own true m) (reset_current_ticks-Own ctx m₁))
        (λ m₂.
          Quiet-trans (set_perf_counter_max-Own ctx m₂)
            (turn_off-Own ctx (logical_clock_set_perf_counter_max ctx ctx.current m₂)))

  pub woke_up-Own : (m : Machine) → Own ctx m (task_clock_entry_woke_up ctx m)
  unfolding task_clock_entry_woke_up
  woke_up-Own m =
      put-Own ctx m (record (entry m ctx.current) { sleeping = false; waiting = false }) refl
        (λ h. h)

  pub is_singlestep-Own :
      (regs : Bool) (m : Machine) → Own ctx m (task_clock_entry_is_singlestep ctx regs m).2
  unfolding task_clock_entry_is_singlestep
  is_singlestep-Own regs m = on_single_step-Own ctx regs m

  sleep_round-Own :
      (round : ℕ) (m : Machine) → Ensures (λ r. Own ctx m r.1) (sleep_round ctx round m)
  unfolding sleep_round
  sleep_round-Own round m =
      Ensures-bind (λ r. Own ctx m r.1) (λ r. Own ctx m r.1)
        (determine_lowest_and_notify_or_wait ctx (ctx.stack round) m) _
        (determine-Own ctx (ctx.stack round) m)
        (λ (tid, m₁) o. Quiet-trans o (
          Own-if ctx m₁ (entry m₁ ctx.current).waiting
            (put_entry m₁ ctx.current (record (entry m₁ ctx.current) { sleeping = true })) m₁
            (put-Own ctx m₁ (record (entry m₁ ctx.current) { sleeping = true }) refl (λ h. h))
            (Quiet-refl ctx.current m₁.group)))

  -- What follows a round, given the next ones.
  abbrev pub next_round : Result (Option ℕ × Machine) → Machine → Bool → Result (Option ℕ × Machine)
  next_round rest m₁ b = elim b [ true ↦ rest | false ↦ ok (none, m₁) ]

  abbrev pub after_round :
      (Machine → Result (Option ℕ × Machine)) → Option ℕ × Machine → Result (Option ℕ × Machine)
  after_round rest (tid, m₁) = elim tid [
    | some t ↦ ok (some t, m₁)
    | none ↦ active_thread_count ctx.in_nmi m₁.group >>= λ count. elim (count == 0) [
      | true ↦ rest m₁
      | false ↦ ok (none, m₁)
    ]
  ]

  next_round-Ensures {κ} :
      (P : Option ℕ × Machine → Type κ) (m₁ : Machine) (rest : Result (Option ℕ × Machine))
      (b : Bool)
      → P (none, m₁)
      → Ensures P rest
      → Ensures P (next_round rest m₁ b)
  next_round-Ensures P m₁ rest true p e = e
  next_round-Ensures P m₁ rest false p e = p

  -- What a round leaves and what the next ones leave holds at the end of the sleep.
  pub after_round-Ensures {κ} :
      (P : Option ℕ × Machine → Type κ) (m₁ : Machine) (tid : Option ℕ)
      (rest : Machine → Result (Option ℕ × Machine))
      → P (tid, m₁)
      → Ensures P (rest m₁)
      → Ensures P (after_round rest (tid, m₁))
  after_round-Ensures P m₁ (some t) rest p e = p
  after_round-Ensures P m₁ none rest p e =
      Ensures-bind (λ _. Unit {0}) P (active_thread_count ctx.in_nmi m₁.group) _ (Ensures-trivial _)
        (λ count _. next_round-Ensures P m₁ (rest m₁) (count == 0) p e)

  sleep_loop-Own :
      (fuel round : ℕ) (m : Machine) → Ensures (λ r. Own ctx m r.1) (sleep_loop ctx fuel round m)
  unfolding sleep_loop
  sleep_loop-Own zero round m = tt
  sleep_loop-Own (suc fuel) round m =
      Ensures-bind (λ r. Own ctx m r.1) (λ r. Own ctx m r.1) (sleep_round ctx round m) _
        (sleep_round-Own round m)
        (λ (tid, m₁) o.
          after_round-Ensures (λ r. Own ctx m r.1) m₁ tid (sleep_loop ctx fuel (round + 1)) o
            (Ensures-map (λ r. Own ctx m₁ r.1) (λ r. Own ctx m r.1)
              (sleep_loop ctx fuel (round + 1) m₁) (sleep_loop-Own fuel (round + 1) m₁)
              (λ r o'. Quiet-trans o o')))

  pub sleep-Own : (fuel : ℕ) (m : Machine) → Ensures (Own ctx m) (task_clock_entry_sleep ctx fuel m)
  unfolding task_clock_entry_sleep
  sleep-Own fuel m =
      Ensures-bind (λ r. Own ctx m r.1) (Own ctx m) (sleep_loop ctx fuel 0 m) _
        (sleep_loop-Own fuel 0 m) (λ (tid, m₁) o. Own-wake ctx m m₁ tid o)
