-- ===== src/System/Steady.antt =====
-- The flags of the threads over the fence and the logical clock (src/module/bounded_tso.c,
-- src/module/logical_clock_instruction_counting.h).
use task_clock.Common.{
  ℕ, refl, ◌∙◌, Bool, true, false, ◌&&◌, ◌||◌, arith, if◌then◌else◌, ok, Ensures, Ensures-bind,
  Ensures-trivial, Ensures-if,
}
use task_clock.Group.{
  PerfEvent, Machine, Context, hit_bounded_fence, tick_counter_is_running, entry,
}
use task_clock.Fence.{
  begin_bounded_memory_fence, end_bounded_memory_fence_early, inc_chunk_ticks, on_single_step,
  inc_clock_ticks, imprecise_bounded_chunk_size, single_stepping_on,
}
use task_clock.Search.{search_for_lowest_waiting_exclude_current}
use task_clock.Counter.{
  put_sample_period, note_debug, publish_ticks, add_delta, finish_read, read_performance_counter,
  logical_clock_update_clock_ticks, logical_clock_read_clock_and_update,
  logical_clock_reset_current_ticks, logical_clock_set_perf_counter_max,
  logical_clock_set_perf_counter, logical_clock_update_overflow_period,
  logical_clock_reset_overflow_period,
}
use task_clock.System.Truthful.{Steady}

pub Steady-if :
    (m : Machine) (b : Bool) (x y : Machine)
    → Steady m x
    → Steady m y
    → Steady m (if b then x else y)
Steady-if m true x y o p = o
Steady-if m false x y o p = p

module _ (ctx : Context) where
  begin-Steady : (m : Machine) → Steady m (begin_bounded_memory_fence ctx m)
  unfolding begin_bounded_memory_fence
  begin-Steady m t = ground arith

  pub end-Steady : (m : Machine) → Steady m (end_bounded_memory_fence_early ctx m)
  unfolding end_bounded_memory_fence_early
  end-Steady m t = ground arith

  pub on_single_step-Steady : (regs : Bool) (m : Machine) → Steady m (on_single_step ctx regs m).2
  unfolding on_single_step
  on_single_step-Steady regs m t = ground arith

  inc_clock_ticks-Steady :
      (val : ℕ) (m : Machine) → Steady m (inc_clock_ticks ctx ctx.current val m)
  unfolding inc_clock_ticks inc_chunk_ticks
  inc_clock_ticks-Steady val m = Steady-if m _ _ _ (begin-Steady _) (λ t. refl)

  pub update_clock_ticks-Steady :
      (m : Machine) → Steady m (logical_clock_update_clock_ticks ctx ctx.current m)
  unfolding logical_clock_update_clock_ticks
  update_clock_ticks-Steady m =
      Steady-if m _ _ m (inc_clock_ticks-Steady (entry m ctx.current).event.count _) (λ t. refl)

  -- The copy of the clock is another field of the status record.
  publish-Steady : (m : Machine) → Steady m (publish_ticks ctx m)
  publish-Steady m t = ground arith

  add_delta-Steady : (delta : ℕ) (m : Machine) → Steady m (add_delta ctx ctx.current delta m)
  unfolding add_delta
  add_delta-Steady delta m t =
      publish-Steady (inc_clock_ticks ctx ctx.current delta (note_debug ctx ctx.current delta m)) t
      ∙ inc_clock_ticks-Steady delta (note_debug ctx ctx.current delta m) t

  finish_read-Steady :
      (new_raw prev_raw : ℕ) (e : PerfEvent) (m : Machine)
      → Steady m (finish_read ctx ctx.current new_raw prev_raw e m)
  unfolding finish_read
  finish_read-Steady new_raw prev_raw e m =
      Steady-if m (tick_counter_is_running ctx m) _ _ (add_delta-Steady _ _) (λ t. refl)

  pub read_clock-Steady :
      (m : Machine) → Ensures (Steady m) (logical_clock_read_clock_and_update ctx ctx.current m)
  unfolding logical_clock_read_clock_and_update
  read_clock-Steady m =
      Ensures-if (Steady m) ctx.build.instruction_counting _ (ok m)
        (Ensures-bind (λ _. Unit {0}) (Steady m)
          (read_performance_counter ctx.reads (entry m ctx.current).event) _ (Ensures-trivial _)
          (λ (new_raw, prev_raw, pmc, e) _. finish_read-Steady new_raw prev_raw e m))
        (λ t. refl)

  pub reset_current_ticks-Steady :
      (m : Machine) → Ensures (Steady m) (logical_clock_reset_current_ticks ctx ctx.current m)
  unfolding logical_clock_reset_current_ticks
  reset_current_ticks-Steady m =
      Ensures-if (Steady m) ctx.build.instruction_counting _ (ok m)
        (Ensures-bind (λ _. Unit {0}) (Steady m)
          (read_performance_counter ctx.reads (entry m ctx.current).event) _ (Ensures-trivial _)
          (λ (new_raw, prev_raw, pmc, e) _ t. refl))
        (λ t. refl)

  pub set_perf_counter_max-Steady :
      (m : Machine) → Steady m (logical_clock_set_perf_counter_max ctx ctx.current m)
  unfolding logical_clock_set_perf_counter_max
  set_perf_counter_max-Steady m =
      Steady-if m ctx.build.instruction_counting _ m (λ t. refl) (λ t. refl)

  pub set_perf_counter-Steady :
      (m : Machine) → Steady m (logical_clock_set_perf_counter ctx ctx.current m)
  unfolding logical_clock_set_perf_counter
  set_perf_counter-Steady m = Steady-if m ctx.build.instruction_counting _ m (λ t. refl) (λ t. refl)

  pub reset_overflow_period-Steady :
      (id : ℕ) (m : Machine) → Steady m (logical_clock_reset_overflow_period ctx id m)
  unfolding logical_clock_reset_overflow_period
  reset_overflow_period-Steady id m = Steady-if m _ _ m (λ t. refl) (λ t. refl)

  pub update_overflow_period-Steady :
      (m : Machine) → Ensures (Steady m) (logical_clock_update_overflow_period ctx ctx.current m)
  unfolding logical_clock_update_overflow_period
  update_overflow_period-Steady m =
      Ensures-if (Steady m) (ctx.build.adaptive_period && ctx.build.instruction_counting) _ (ok m)
        (Ensures-if (Steady m) (single_stepping_on ctx ctx.current m || hit_bounded_fence ctx m)
          (ok (put_sample_period ctx.current imprecise_bounded_chunk_size m)) _ (λ t. refl)
          (Ensures-bind (λ _. Unit {0}) (Steady m)
            (search_for_lowest_waiting_exclude_current ctx.in_nmi m.group ctx.current) _
            (Ensures-trivial _) (λ low _ t. refl)))
        (λ t. refl)
