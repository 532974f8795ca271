-- ===== src/System/Honest.antt =====
-- The flags of the threads over the calls that look for the lowest thread once
-- (src/module/clock_main.c).
use task_clock.Common.{
  ℕ, ◌≡◌, ◌<◌, inl, inr, refl, sym, ◌∙◌, true, false, List, arith, is_tid, ◌∈◌, Bool-cases, Result,
  ok, ◌>>=◌, Ensures, Ensures-bind, Ensures-map, Ensures-if, Ensures-both,
}
use task_clock.Group.{
  Machine, Context, add64, entry, put_status, clear_entry_state, reset_chunk_ticks,
  tick_counter_turn_on, tick_counter_turn_off, tick_counter_is_running,
  inc_clock_ticks_no_chunk_add,
}
use task_clock.Search.{thread_arr_size}
use task_clock.Fence.{single_stepping_on}
use task_clock.Counter.{
  publish_ticks, logical_clock_update_clock_ticks, logical_clock_update_overflow_period,
  logical_clock_reset_overflow_period, logical_clock_reset_current_ticks,
  logical_clock_read_clock_and_update,
}
use task_clock.Notify.{determine_lowest_and_notify_or_wait}
use task_clock.Notify.Kept.{Kept, Kept-refl, Kept-trans, clear-Kept, group-Kept}
use task_clock.Handlers.{
  sign_extend32, set_notification_needed, end_single_stepping, rearm_notification,
  determine_and_wake, stop_counter, enable_counter, task_clock_on_disable, task_clock_add_ticks,
  task_clock_on_enable, task_clock_entry_wait, task_clock_entry_stop, task_clock_entry_start,
}
use task_clock.Handlers.Lists.{IsWellFormed}
use task_clock.System.Quiet.{Quiet-refl, Quiet-trans, Own, Own-then, put-Own}
use task_clock.System.Notices.{clear-Own}
use task_clock.System.Counters.{read_clock-Own, reset_current_ticks-Own}
use task_clock.System.Calls.{
  end_single_stepping-Own, stop_counter-Own, enable_counter-Own, rearm-Own,
}
use task_clock.System.Listing.{Own-IsWellFormed}
use task_clock.System.Truthful.{Steady, Truthful, Tells, determine-Tells}
use task_clock.System.Telling.{Between, wake-Truthful}
use task_clock.System.Steady.{
  Steady-if, end-Steady, update_clock_ticks-Steady, read_clock-Steady, reset_current_ticks-Steady,
  set_perf_counter-Steady, reset_overflow_period-Steady, update_overflow_period-Steady,
}

module _ (ctx : Context) (xs : List ℕ) where
  -- The thread that calls is listed and initialised, the group is well formed, and the call is
  -- outside NMI context with ids below 128.
  pub record Fit (m : Machine) : Type 0 where
    pub well_formed : IsWellFormed m xs
    pub listed : ctx.current ∈ xs
    pub initialized : (entry m ctx.current).initialized ≡ true
    pub outside : ctx.in_nmi ≡ false
    pub small : (i : ℕ) → i ∈ xs → i < thread_arr_size

  pub Fit-Own : (m m' : Machine) → Fit m → Own ctx m m' → Fit m'
  Fit-Own m m' f o = record {
    well_formed = Own-IsWellFormed ctx m m' xs f.well_formed o;
    listed = f.listed;
    initialized = o.initialized ∙ f.initialized;
    outside = f.outside;
    small = f.small;
  }

  pub determined-Tells :
      (stack : ℕ → ℕ) (m : Machine)
      → Fit m
      → Ensures (λ r. Tells ctx xs m r.0 r.1) (determine_lowest_and_notify_or_wait ctx stack m)
  determined-Tells stack m f =
      determine-Tells ctx xs m stack f.well_formed f.outside f.small (inl (f.listed, f.initialized))

  pub Between-refl : (m m₁ : Machine) (w : IsWellFormed m xs) → Between ctx xs m w m₁ m₁
  Between-refl m m₁ w = record {
    kept = Kept-refl ctx m₁;
    own = Quiet-refl ctx.current m₁.group;
    steady = λ t. refl;
    lowest = refl;
  }

  determine_and_wake-Truthful :
      (m : Machine) → Fit m → Ensures (Truthful m xs) (determine_and_wake ctx m)
  determine_and_wake-Truthful m f =
      Ensures-bind (λ r. Tells ctx xs m r.0 r.1) (Truthful m xs)
        (determine_lowest_and_notify_or_wait ctx (ctx.stack 0) m) _
        (determined-Tells (ctx.stack 0) m f)
        (λ (tid, m₁) tells.
          wake-Truthful ctx xs m f.well_formed tid m₁ m₁ tells (Between-refl m m₁ f.well_formed))

  -- A part that leaves the flags alone, and then the rest.
  pub after-Truthful :
      (m m₁ : Machine) (r : Result Machine)
      → Steady m m₁
      → Ensures (Truthful m₁ xs) r
      → Ensures (Truthful m xs) r
  after-Truthful m m₁ r s e =
      Ensures-map (Truthful m₁ xs) (Truthful m xs) r e (λ m' h t set. elim (h t set) [
        | inl before ↦ inl (sym (s t) ∙ before)
        | inr turn ↦ inr turn
      ])

  then-Truthful :
      (m : Machine) (r : Result Machine) (f : Machine → Result Machine)
      → Fit m
      → Ensures (Own ctx m) r
      → Ensures (Steady m) r
      → ((m₁ : Machine) → Fit m₁ → Ensures (Truthful m₁ xs) (f m₁))
      → Ensures (Truthful m xs) (r >>= f)
  then-Truthful m r f fit o s step =
      Ensures-bind (λ m₁. Own ctx m m₁ × Steady m m₁) (Truthful m xs) r f
        (Ensures-both (Own ctx m) (Steady m) r o s)
        (λ m₁ (o₁, s₁). after-Truthful m m₁ (f m₁) s₁ (step m₁ (Fit-Own m m₁ fit o₁)))

  pub wait-Truthful : (m : Machine) → Fit m → Ensures (Truthful m xs) (task_clock_entry_wait ctx m)
  unfolding task_clock_entry_wait
  wait-Truthful m f = determine_and_wake-Truthful m f

  end_single_stepping-Steady : (m : Machine) → Steady m (end_single_stepping ctx m)
  end_single_stepping-Steady m =
      Steady-if m (single_stepping_on ctx ctx.current m) _ m (end-Steady ctx m) (λ t. refl)

  stop_counter-Steady : (m : Machine) → Ensures (Steady m) (stop_counter ctx m)
  unfolding stop_counter
  stop_counter-Steady m =
      Ensures-if (Steady m) (tick_counter_is_running ctx m)
        (ok (tick_counter_turn_off ctx (logical_clock_update_clock_ticks ctx ctx.current m))) _
        (update_clock_ticks-Steady ctx m) (reset_current_ticks-Steady ctx m)

  Steady-then :
      (m m₁ : Machine) (r : Result Machine)
      → Steady m m₁
      → Ensures (Steady m₁) r
      → Ensures (Steady m) r
  Steady-then m m₁ r s e = Ensures-map (Steady m₁) (Steady m) r e (λ m' s' t. s' t ∙ s t)

  group-Own : (m : Machine) → Own ctx m (set_notification_needed true m)
  group-Own m = record { others = λ i ne. refl; list = refl; initialized = refl; inactive = λ h. h }

  pub on_disable-Truthful :
      (m : Machine) → Fit m → Ensures (Truthful m xs) (task_clock_on_disable ctx m)
  unfolding task_clock_on_disable
  on_disable-Truthful m f =
      let m₁ = end_single_stepping ctx m in
      then-Truthful m (stop_counter ctx m₁) _ f
        (Own-then ctx m m₁ _ (end_single_stepping-Own ctx m) (stop_counter-Own ctx m₁))
        (Steady-then m m₁ _ (end_single_stepping-Steady m) (stop_counter-Steady m₁))
        (λ m₂ f₂.
          determine_and_wake-Truthful (set_notification_needed true m₂)
            (Fit-Own m₂ (set_notification_needed true m₂) f₂ (group-Own m₂)))

  publish-Steady : (m : Machine) → Steady m (publish_ticks ctx m)
  publish-Steady m t = ground arith

  pub add_ticks-Truthful :
      (ticks : ℕ) (m : Machine) → Fit m → Ensures (Truthful m xs) (task_clock_add_ticks ctx ticks m)
  unfolding task_clock_add_ticks
  add_ticks-Truthful ticks m f =
      let m₁ = inc_clock_ticks_no_chunk_add m ctx.current (sign_extend32 ticks) in
      after-Truthful m (publish_ticks ctx m₁) _ (publish-Steady m₁) (
        determine_and_wake-Truthful (publish_ticks ctx m₁) (
          Fit-Own m (publish_ticks ctx m₁) f (
            put-Own ctx m
              (record (entry m ctx.current) {
                ticks = add64 (entry m ctx.current).ticks (sign_extend32 ticks);
              })
              refl (λ h. h))))

  pub stop-Truthful : (m : Machine) → Fit m → Ensures (Truthful m xs) (task_clock_entry_stop ctx m)
  unfolding task_clock_entry_stop
  stop-Truthful m f =
      let m₁ = end_single_stepping ctx m in
      then-Truthful m (logical_clock_read_clock_and_update ctx ctx.current m₁) _ f
        (Own-then ctx m m₁ _ (end_single_stepping-Own ctx m) (read_clock-Own ctx m₁))
        (Steady-then m m₁ _ (end_single_stepping-Steady m) (read_clock-Steady ctx m₁))
        determine_and_wake-Truthful

  enable_counter-Steady : (m : Machine) → Ensures (Steady m) (enable_counter ctx m)
  unfolding enable_counter
  enable_counter-Steady m =
      let m₁ = tick_counter_turn_on ctx (reset_chunk_ticks ctx.current m) in
      let m₂ = logical_clock_reset_overflow_period ctx ctx.current m₁ in
      Ensures-bind (Steady m) (Steady m) (logical_clock_update_overflow_period ctx ctx.current m₂) _
        (Steady-then m m₂ _ (reset_overflow_period-Steady ctx ctx.current m₁)
          (update_overflow_period-Steady ctx m₂))
        (λ m₃ s.
          Steady-if m (entry m₃ ctx.current).userspace_reading _ m₃
            (λ t. set_perf_counter-Steady ctx _ t ∙ s t) s)

  rearm-Kept : (m : Machine) → Kept ctx m (rearm_notification ctx m)
  rearm-Kept m = elim (Bool-cases (is_tid m.group.lowest_tid ctx.current)) [
    | inl mine ↦ rw mine (group-Kept ctx m m.group.lowest_tid m.group.lowest_ticks true false)
    | inr other ↦ rw other (Kept-refl ctx m)
  ]

  -- What `task_clock_on_enable` does to a machine in which the lowest thread has been determined.
  rearmed-Between :
      (m m₁ : Machine) (w : IsWellFormed m xs)
      → Between ctx xs m w m₁ (clear_entry_state ctx (rearm_notification ctx m₁))
  rearmed-Between m m₁ w = record {
    kept = Kept-trans (rearm-Kept m₁) (clear-Kept ctx (rearm_notification ctx m₁));
    own = Quiet-trans (rearm-Own ctx m₁) (clear-Own ctx (rearm_notification ctx m₁));
    steady = λ t. ground arith;
    lowest = ground arith;
  }

  pub on_enable-Truthful :
      (m : Machine) → Fit m → Ensures (Truthful m xs) (task_clock_on_enable ctx m)
  unfolding task_clock_on_enable
  on_enable-Truthful m f =
      then-Truthful m (enable_counter ctx m) _ f (enable_counter-Own ctx m)
        (enable_counter-Steady m)
        (λ m₁ f₁.
          Ensures-bind (λ r. Tells ctx xs m₁ r.0 r.1) (Truthful m₁ xs)
            (determine_lowest_and_notify_or_wait ctx (ctx.stack 0) m₁) _
            (determined-Tells (ctx.stack 0) m₁ f₁)
            (λ (tid, m₂) tells.
              wake-Truthful ctx xs m₁ f₁.well_formed tid m₂
                (clear_entry_state ctx (rearm_notification ctx m₂)) tells
                (rearmed-Between m₁ m₂ f₁.well_formed)))

  pub start-Truthful :
      (m : Machine) → Fit m → Ensures (Truthful m xs) (task_clock_entry_start ctx m)
  unfolding task_clock_entry_start
  start-Truthful m f =
      let m₁ = put_status m ctx.current (record (m.status ctx.current) { notifying_id = 0 }) in
      then-Truthful m (logical_clock_reset_current_ticks ctx ctx.current m₁) _ f
        (Own-then ctx m m₁ _ (Quiet-refl ctx.current m.group) (reset_current_ticks-Own ctx m₁))
        (Steady-then m m₁ _ (λ t. ground arith) (reset_current_ticks-Steady ctx m₁))
        on_enable-Truthful
