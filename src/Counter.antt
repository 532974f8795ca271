-- ===== src/Counter.antt =====
-- The logical clock's side of the hardware counter
-- (src/module/logical_clock_instruction_counting.h; under NO_INSTRUCTION_COUNTING its functions are
-- the empty macros of src/module/logical_clock_no_ticks.h). The kernel's `delta` is an `int64_t`,
-- kept as its 64-bit pattern.
pub mod Delta
pub mod Clock
pub mod Period
use task_clock.Common.{
  ℕ, zero, suc, ◌+◌, ◌-◌, ◌*◌, ◌/◌, ◌%◌, ◌^◌, Bool, true, false, not, ◌&&◌, ◌||◌, Option, none,
  some, List, [], ◌∷◌, ltb, ◌==◌, if◌then◌else◌, Result, ok, out_of_fuel, ◌>>=◌,
}
use task_clock.Group.{
  PerfEvent, Machine, Context, CounterRead, entry, put_entry, put_status, add64, sub64, word,
  get_clock_ticks, min_of, max_of, tick_counter_is_running, tick_counter_turn_off,
  hit_bounded_fence,
}
use task_clock.Search.{search_for_lowest_waiting_exclude_current}
use task_clock.Fence.{
  imprecise_bounded_chunk_size, single_stepping_on, inc_clock_ticks, bound_overflow_period,
}

abbrev pub max_clock_sample_period : ℕ
max_clock_sample_period = 200_000

abbrev pub min_clock_sample_period : ℕ
min_clock_sample_period = 1024

-- X86_CNT_VAL_MASK takes the low 48 bits.
abbrev pub cnt_val : ℕ → ℕ
cnt_val x = x % 2 ^ 48

-- A uint64_t shifted left by 64 - X86_CNT_VAL_BITS.
abbrev pub shift_left : ℕ → ℕ
shift_left x = x * 2 ^ 16 % word

-- The pattern of an int64_t shifted right by as much: the sign is copied.
abbrev pub shift_right : ℕ → ℕ
shift_right x = if ltb x (2 ^ 63) then x / 2 ^ 16 else x / 2 ^ 16 + (word - 2 ^ 48)

-- (u64) -val
abbrev pub neg64 : ℕ → ℕ
neg64 val = sub64 0 val

-- `delta` before `count` is added
unfoldable pub counter_delta : ℕ → ℕ → ℕ
counter_delta new_raw prev_raw = shift_right (sub64 (shift_left new_raw) (shift_left prev_raw))

-- One round of `__read_performance_counter` and those after it: the raw count, the previous count
-- and the `rdpmc` value, with the event written. An NMI that stores another previous count makes
-- the compare-exchange fail, and the code reads again.
unfoldable pub read_performance_counter :
    List CounterRead → PerfEvent → Result (ℕ × ℕ × ℕ × PerfEvent)
read_performance_counter [] e = out_of_fuel
read_performance_counter (r ∷ rs) e =
    let prev_raw = e.prev_count in
    let seen : ℕ = (elim (r.nmi_store) [ none ↦ e.prev_count | some v ↦ v ]) in
    let again = read_performance_counter rs (record e { prev_count = seen }) in
    if seen == prev_raw then ok (r.raw, prev_raw, r.pmc, record e { prev_count = r.raw }) else again

-- The counter and the event set to overflow after `val` instructions.
abbrev pub set_counter : ℕ → PerfEvent → PerfEvent
set_counter val e = record e {
  counter = cnt_val (neg64 val);
  period_left = val;
  count = 0;
  prev_count = neg64 val;
  last_written = neg64 val;
}

-- The new period, given the lowest other waiting thread.
unfoldable pub new_sample_period : ℕ → Option ℕ → Machine → ℕ
new_sample_period id none m = add64 (entry m id).event.sample_period 10_000
new_sample_period id (some low) m =
    if ltb (get_clock_ticks m.group id) (get_clock_ticks m.group low)
    then max_of (add64 (get_clock_ticks m.group low - get_clock_ticks m.group id) 1000)
        min_clock_sample_period
    else add64 (entry m id).event.sample_period 10_000

abbrev pub put_event : ℕ → PerfEvent → Machine → Machine
put_event id e m = put_entry m id (record (entry m id) { event = e })

abbrev pub put_sample_period : ℕ → ℕ → Machine → Machine
put_sample_period id period m =
    put_event id (record ((entry m id).event) { sample_period = period }) m

module _ (ctx : Context) where
  abbrev pub counting : Machine → Machine → Machine
  counting m m' = if ctx.build.instruction_counting then m' else m

  unfoldable pub logical_clock_update_clock_ticks : ℕ → Machine → Machine
  logical_clock_update_clock_ticks tid m =
      let rawcount = (entry m tid).event.count in
      let m₁ = put_entry m tid (record (entry m tid) {
        debug_last_overflow_ticks = rawcount;
        debug_last_enable_ticks = (entry m tid).chunk_ticks;
      }) in
      let m₂ = inc_clock_ticks ctx tid rawcount m₁ in
      counting m (put_event tid (record ((entry m₂ tid).event) { count = 0 }) m₂)

  -- The update of the clock once the counter has been read, where the counter was on.
  abbrev pub note_debug : ℕ → ℕ → Machine → Machine
  note_debug id delta m =
      let m₁ =
        put_entry m ctx.current
          (record (entry m ctx.current) { debug_last_overflow_ticks = delta }) in
      put_entry m₁ id (record (entry m₁ id) { debug_last_enable_ticks = (entry m₁ id).chunk_ticks })

  abbrev pub publish_ticks : Machine → Machine
  publish_ticks m =
      put_status m ctx.current
        (record (m.status ctx.current) { ticks = get_clock_ticks m.group ctx.current })

  unfoldable pub add_delta : ℕ → ℕ → Machine → Machine
  add_delta id delta m = publish_ticks (inc_clock_ticks ctx id delta (note_debug id delta m))

  -- What follows the read of the counter in `logical_clock_read_clock_and_update`; `e` is the event
  -- with the previous count exchanged.
  unfoldable pub finish_read : ℕ → (new_raw prev_raw : ℕ) → PerfEvent → Machine → Machine
  finish_read id new_raw prev_raw e m =
      let counter_was_on = tick_counter_is_running ctx m in
      let m₁ = tick_counter_turn_off ctx (put_event id e m) in
      let delta = add64 (counter_delta new_raw prev_raw) (entry m₁ id).event.count in
      let m₂ = put_event id (record ((entry m₁ id).event) { count = 0 }) m₁ in
      if counter_was_on then add_delta id delta m₂ else m₂

  unfoldable pub logical_clock_read_clock_and_update : ℕ → Machine → Result Machine
  logical_clock_read_clock_and_update id m =
      if ctx.build.instruction_counting
      then (read_performance_counter ctx.reads (entry m id).event
          >>= λ (new_raw, prev_raw, new_pmc, e). ok (finish_read id new_raw prev_raw e m))
      else ok m

  unfoldable pub logical_clock_reset_current_ticks : ℕ → Machine → Result Machine
  logical_clock_reset_current_ticks id m =
      if ctx.build.instruction_counting
      then (read_performance_counter ctx.reads (entry m id).event
          >>= λ (new_raw, prev_raw, new_pmc, e). ok (put_event id (record e { count = 0 }) m))
      else ok m

  unfoldable pub logical_clock_set_perf_counter_max : ℕ → Machine → Machine
  logical_clock_set_perf_counter_max id m = counting m (
      put_event id
        (set_counter (2 ^ 31 - 1) (record ((entry m id).event) { sample_period = 2 ^ 31 - 1 })) m)

  unfoldable pub logical_clock_set_perf_counter : ℕ → Machine → Machine
  logical_clock_set_perf_counter id m =
      counting m (put_event id (set_counter (entry m id).event.sample_period (entry m id).event) m)

  unfoldable pub logical_clock_update_overflow_period : ℕ → Machine → Result Machine
  logical_clock_update_overflow_period id m =
      if ctx.build.adaptive_period && ctx.build.instruction_counting
      then (if single_stepping_on ctx id m || hit_bounded_fence ctx m
          then ok (put_sample_period id imprecise_bounded_chunk_size m)
          else do
            low ← search_for_lowest_waiting_exclude_current ctx.in_nmi m.group id
            ok (
                put_sample_period id
                  (min_of (bound_overflow_period ctx id (new_sample_period id low m) m)
                    max_clock_sample_period)
                  m))
      else ok m

  -- The argument is not used: it is the current thread's event that is reset.
  unfoldable pub logical_clock_reset_overflow_period : ℕ → Machine → Machine
  logical_clock_reset_overflow_period id m =
      if ctx.build.adaptive_period && ctx.build.instruction_counting
      then put_event ctx.current
          (record ((entry m ctx.current).event) { sample_period = 0; period_left = 0 }) m
      else m
