-- ===== src/Counter/Clock.antt =====
-- What the reads of the counter do to the clock of the current thread.
use task_clock.Common.{
  ℕ, ◌+◌, ◌%◌, ◌^◌, ◌<◌, ◌≡◌, refl, ap, ◌∙◌, Bool, true, false, none, List, ◌∷◌, ◌++◌, arith,
  ==-refl, if◌then◌else◌, ok,
}
use task_clock.Group.{
  PerfEvent, Machine, Context, CounterRead, entry, add64, word, get_clock_ticks,
  tick_counter_is_running, tick_counter_turn_off,
}
use task_clock.Fence.Inc.{inc_clock_ticks_off}
use task_clock.Counter.{
  counter_delta, logical_clock_read_clock_and_update, put_event, finish_read, add_delta, note_debug,
}
use task_clock.Counter.Delta.{Disturbed, counter_delta_forward, read_performance_counter_lem}

module _ (ctx : Context) where
  -- With the counter off, adding to the clock cannot start the fence.
  record Stopped (m : Machine) (delta : ℕ) (m' : Machine) : Type 0 where
    pub counted : (entry m' ctx.current).ticks ≡ ((entry m ctx.current).ticks + delta) % word
    pub based : (entry m' ctx.current).base_ticks ≡ (entry m ctx.current).base_ticks
    pub off : (entry m' ctx.current).count_ticks ≡ 0
    pub event_same : (entry m' ctx.current).event ≡ (entry m ctx.current).event
    pub published : (m'.status ctx.current).ticks ≡ get_clock_ticks m'.group ctx.current
    pub quiet : m'.effects ≡ m.effects

  add_delta-Stopped :
      (delta : ℕ) (m : Machine)
      → (entry m ctx.current).count_ticks ≡ 0
      → Stopped m delta (add_delta ctx ctx.current delta m)
  unfolding add_delta
  add_delta-Stopped delta m off =
      rw (inc_clock_ticks_off ctx delta (note_debug ctx ctx.current delta m) (ground arith))
        (ground arith)

  -- What a read of the counter makes of `m`, if the counter was on or off before.
  pub record Updated (was_on : Bool) (m : Machine) (delta : ℕ) (m' : Machine) : Type 0 where
    pub counted : (entry m' ctx.current).ticks ≡ (
        if was_on
        then ((entry m ctx.current).ticks + delta) % word
        else (entry m ctx.current).ticks)
    pub based : (entry m' ctx.current).base_ticks ≡ (entry m ctx.current).base_ticks
    pub off : (entry m' ctx.current).count_ticks ≡ 0
    pub pending : (entry m' ctx.current).event.count ≡ 0
    pub published :
        was_on ≡ true → (m'.status ctx.current).ticks ≡ get_clock_ticks m'.group ctx.current
    pub quiet : m'.effects ≡ m.effects

  -- The machine after the read, before the clock is updated.
  abbrev read_done : Machine → PerfEvent → Machine
  read_done m e =
      let m₁ = tick_counter_turn_off ctx (put_event ctx.current e m) in
      put_event ctx.current (record ((entry m₁ ctx.current).event) { count = 0 }) m₁

  finish-Updated :
      (was_on : Bool) (m : Machine) (e : PerfEvent) (delta : ℕ)
      → Updated was_on m delta
          (if was_on then add_delta ctx ctx.current delta (read_done m e) else read_done m e)
  finish-Updated true m e delta =
      let s = add_delta-Stopped delta (read_done m e) (ground arith) in
      record {
        counted = ground (arith, s.counted);
        based = ground (arith, s.based);
        off = s.off;
        pending = ground (arith, s.event_same);
        published = λ on. s.published;
        quiet = s.quiet;
      }
  finish-Updated false m e delta = ground arith

  finish_read_lem :
      (new_raw prev_raw : ℕ) (e : PerfEvent) (m : Machine)
      → finish_read ctx ctx.current new_raw prev_raw e m ≡ (
          if tick_counter_is_running ctx m
          then add_delta ctx ctx.current
              (add64 (counter_delta new_raw prev_raw) e.count)
              (read_done m e)
          else read_done m e)
  unfolding finish_read
  finish_read_lem new_raw prev_raw e m = rw (==-refl ctx.current) refl

  -- A read once no NMI interferes, with the difference of the counts as the code takes it.
  pub read_clock_and_update-Updated :
      (m : Machine) (rs : List CounterRead) (r : CounterRead) (rest : List CounterRead) (q : ℕ)
      → ctx.build.instruction_counting ≡ true
      → ctx.reads ≡ rs ++ (r ∷ rest)
      → Disturbed (entry m ctx.current).event.prev_count rs q
      → r.nmi_store ≡ none
      → (m' : Machine) × (logical_clock_read_clock_and_update ctx ctx.current m ≡ ok m')
        × Updated
            (tick_counter_is_running ctx m)
            m
            (add64 (counter_delta r.raw q) (entry m ctx.current).event.count)
            m'
  unfolding logical_clock_read_clock_and_update
  read_clock_and_update-Updated m rs r rest q counting reads d quiet =
      let e : PerfEvent = record ((entry m ctx.current).event) { prev_count = r.raw } in
      let got = read_performance_counter_lem rs r rest (entry m ctx.current).event q d quiet in
      (
        finish_read ctx ctx.current r.raw q e m,
        simp (counting, reads, got),
        rw (finish_read_lem r.raw q e m) (
            finish-Updated (tick_counter_is_running ctx m) m e
              (add64 (counter_delta r.raw q) (entry m ctx.current).event.count)),
      )

  -- In a build that counts instructions, reading the counter of the current thread ends once no NMI
  -- interferes, and starts no fence. The counter is off afterwards. If it was on, and reads 48 bits of
  -- a count that is `d` further than the previous count that the last NMI stored, over a turn of the
  -- counter too, the clock grows by exactly `d`, if that is below 2^47, and what the event had pending,
  -- and user space is shown the new clock; if it was off, what was read is dropped.
  pub read_clock_and_update_lem :
      (m : Machine) (rs : List CounterRead) (r : CounterRead) (rest : List CounterRead) (q d : ℕ)
      → ctx.build.instruction_counting ≡ true
      → ctx.reads ≡ rs ++ (r ∷ rest)
      → Disturbed (entry m ctx.current).event.prev_count rs q
      → r.nmi_store ≡ none
      → q < word
      → d < 2 ^ 47
      → r.raw ≡ (q + d) % 2 ^ 48
      → (m' : Machine) × (logical_clock_read_clock_and_update ctx ctx.current m ≡ ok m')
        × Updated (tick_counter_is_running ctx m) m (add64 d (entry m ctx.current).event.count) m'
  read_clock_and_update_lem m rs r rest q d counting reads disturbed quiet small few at =
      let (m', runs, u) =
        read_clock_and_update-Updated m rs r rest q counting reads disturbed quiet in
      let exact : counter_delta r.raw q ≡ d =
        ap (λ raw. counter_delta raw q) at ∙ counter_delta_forward q d small few in
      (m', runs, rw exact at u)
