-- ===== src/System/Counters.antt =====
-- What the logical clock's functions leave alone
-- (src/module/logical_clock_instruction_counting.h), for the thread that runs them.
use task_clock.Common.{
  ℕ, ◌-◌, ◌^◌, refl, ◌&&◌, ◌||◌, arith, if◌then◌else◌, inl, inr, Bool-cases, ok, Ensures,
  Ensures-bind, Ensures-trivial, Ensures-if,
}
use task_clock.Group.{
  PerfEvent, Machine, Context, add64, min_of, hit_bounded_fence, tick_counter_is_running, entry,
  put_entry, tick_counter_turn_off,
}
use task_clock.Fence.{
  inc_clock_ticks, imprecise_bounded_chunk_size, bound_overflow_period, single_stepping_on,
}
use task_clock.Search.{search_for_lowest_waiting_exclude_current}
use task_clock.Counter.{
  counter_delta, put_event, put_sample_period, new_sample_period, max_clock_sample_period,
  note_debug, set_counter, add_delta, finish_read, read_performance_counter,
  logical_clock_update_clock_ticks, logical_clock_read_clock_and_update,
  logical_clock_reset_current_ticks, logical_clock_set_perf_counter_max,
  logical_clock_set_perf_counter, logical_clock_update_overflow_period,
  logical_clock_reset_overflow_period,
}
use task_clock.System.Quiet.{Quiet-refl, Quiet-trans, Own, put-Own, inc_clock_ticks-Own}

module _ (ctx : Context) where
  put_event-Own : (e : PerfEvent) (m : Machine) → Own ctx m (put_event ctx.current e m)
  put_event-Own e m = put-Own ctx m (record (entry m ctx.current) { event = e }) refl (λ h. h)

  pub turn_off-Own : (m : Machine) → Own ctx m (tick_counter_turn_off ctx m)
  turn_off-Own m = put-Own ctx m (record (entry m ctx.current) { count_ticks = 0 }) refl (λ h. h)

  counting-Own :
      (m m' : Machine) → Own ctx m m' → Own ctx m (if ctx.build.instruction_counting then m' else m)
  counting-Own m m' o = elim (Bool-cases ctx.build.instruction_counting) [
    | inl on ↦ rw on o
    | inr off ↦ rw off (Quiet-refl ctx.current m.group)
  ]

  pub update_clock_ticks-Own :
      (m : Machine) → Own ctx m (logical_clock_update_clock_ticks ctx ctx.current m)
  unfolding logical_clock_update_clock_ticks
  update_clock_ticks-Own m =
      let m₁ = put_entry m ctx.current (record (entry m ctx.current) {
        debug_last_overflow_ticks = (entry m ctx.current).event.count;
        debug_last_enable_ticks = (entry m ctx.current).chunk_ticks;
      }) in
      let m₂ = inc_clock_ticks ctx ctx.current (entry m ctx.current).event.count m₁ in
      counting-Own m
        (put_event ctx.current (record ((entry m₂ ctx.current).event) { count = 0 }) m₂)
        (Quiet-trans
          (put-Own ctx m
            (record (entry m ctx.current) {
              debug_last_overflow_ticks = (entry m ctx.current).event.count;
              debug_last_enable_ticks = (entry m ctx.current).chunk_ticks;
            })
            refl (λ h. h))
          (Quiet-trans (inc_clock_ticks-Own ctx (entry m ctx.current).event.count m₁)
            (put_event-Own (record ((entry m₂ ctx.current).event) { count = 0 }) m₂)))

  note_debug-Own : (delta : ℕ) (m : Machine) → Own ctx m (note_debug ctx ctx.current delta m)
  note_debug-Own delta m = ground arith

  add_delta-Own : (delta : ℕ) (m : Machine) → Own ctx m (add_delta ctx ctx.current delta m)
  unfolding add_delta
  add_delta-Own delta m =
      Quiet-trans (note_debug-Own delta m)
        (inc_clock_ticks-Own ctx delta (note_debug ctx ctx.current delta m))

  finish_read-Own :
      (new_raw prev_raw : ℕ) (e : PerfEvent) (m : Machine)
      → Own ctx m (finish_read ctx ctx.current new_raw prev_raw e m)
  unfolding finish_read
  finish_read-Own new_raw prev_raw e m =
      let m₁ = tick_counter_turn_off ctx (put_event ctx.current e m) in
      let delta = add64 (counter_delta new_raw prev_raw) (entry m₁ ctx.current).event.count in
      let m₂ = put_event ctx.current (record ((entry m₁ ctx.current).event) { count = 0 }) m₁ in
      let read : Own ctx m m₂ = Quiet-trans (put_event-Own e m) (
        Quiet-trans (turn_off-Own (put_event ctx.current e m))
          (put_event-Own (record ((entry m₁ ctx.current).event) { count = 0 }) m₁)) in
      elim (Bool-cases (tick_counter_is_running ctx m)) [
        | inl on ↦ rw on (Quiet-trans read (add_delta-Own delta m₂))
        | inr off ↦ rw off read
      ]

  pub read_clock-Own :
      (m : Machine) → Ensures (Own ctx m) (logical_clock_read_clock_and_update ctx ctx.current m)
  unfolding logical_clock_read_clock_and_update
  read_clock-Own m =
      Ensures-if (Own ctx m) ctx.build.instruction_counting _ (ok m)
        (Ensures-bind (λ _. Unit {0}) (Own ctx m)
          (read_performance_counter ctx.reads (entry m ctx.current).event) _ (Ensures-trivial _)
          (λ (new_raw, prev_raw, pmc, e) _. finish_read-Own new_raw prev_raw e m))
        (Quiet-refl ctx.current m.group)

  pub reset_current_ticks-Own :
      (m : Machine) → Ensures (Own ctx m) (logical_clock_reset_current_ticks ctx ctx.current m)
  unfolding logical_clock_reset_current_ticks
  reset_current_ticks-Own m =
      Ensures-if (Own ctx m) ctx.build.instruction_counting _ (ok m)
        (Ensures-bind (λ _. Unit {0}) (Own ctx m)
          (read_performance_counter ctx.reads (entry m ctx.current).event) _ (Ensures-trivial _)
          (λ (new_raw, prev_raw, pmc, e) _. put_event-Own (record e { count = 0 }) m))
        (Quiet-refl ctx.current m.group)

  pub set_perf_counter_max-Own :
      (m : Machine) → Own ctx m (logical_clock_set_perf_counter_max ctx ctx.current m)
  unfolding logical_clock_set_perf_counter_max
  set_perf_counter_max-Own m = counting-Own m _ (
      put_event-Own
        (set_counter (2 ^ 31 - 1)
          (record ((entry m ctx.current).event) { sample_period = 2 ^ 31 - 1 }))
        m)

  pub set_perf_counter-Own :
      (m : Machine) → Own ctx m (logical_clock_set_perf_counter ctx ctx.current m)
  unfolding logical_clock_set_perf_counter
  set_perf_counter-Own m = counting-Own m _ (
      put_event-Own
        (set_counter (entry m ctx.current).event.sample_period (entry m ctx.current).event) m)

  pub reset_overflow_period-Own :
      (id : ℕ) (m : Machine) → Own ctx m (logical_clock_reset_overflow_period ctx id m)
  unfolding logical_clock_reset_overflow_period
  reset_overflow_period-Own id m =
      elim (Bool-cases (ctx.build.adaptive_period && ctx.build.instruction_counting)) [
        | inl on ↦ rw on (
            put_event-Own
              (record ((entry m ctx.current).event) { sample_period = 0; period_left = 0 }) m)
        | inr off ↦ rw off (Quiet-refl ctx.current m.group)
      ]

  period-Own : (period : ℕ) (m : Machine) → Own ctx m (put_sample_period ctx.current period m)
  period-Own period m =
      put_event-Own (record ((entry m ctx.current).event) { sample_period = period }) m

  pub update_overflow_period-Own :
      (m : Machine) → Ensures (Own ctx m) (logical_clock_update_overflow_period ctx ctx.current m)
  unfolding logical_clock_update_overflow_period
  update_overflow_period-Own m =
      Ensures-if (Own ctx m) (ctx.build.adaptive_period && ctx.build.instruction_counting) _ (ok m)
        (Ensures-if (Own ctx m) (single_stepping_on ctx ctx.current m || hit_bounded_fence ctx m)
          (ok (put_sample_period ctx.current imprecise_bounded_chunk_size m)) _
          (period-Own imprecise_bounded_chunk_size m)
          (Ensures-bind (λ _. Unit {0}) (Own ctx m)
            (search_for_lowest_waiting_exclude_current ctx.in_nmi m.group ctx.current) _
            (Ensures-trivial _)
            (λ low _.
              period-Own
                (min_of
                  (bound_overflow_period ctx ctx.current (new_sample_period ctx.current low m) m)
                  max_clock_sample_period)
                m)))
        (Quiet-refl ctx.current m.group)
