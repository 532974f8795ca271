-- ===== src/Fence.antt =====
-- The bounded memory fence: a thread that nears the end of its chunk is single stepped up to the
-- end, and then signalled (src/module/bounded_tso.h and bounded_tso.c). `regs` is the trap flag of
-- the registers that a trap or interrupt handler is given.
pub mod Stepping
pub mod Chunk
pub mod Inc
use task_clock.Common.{
  ℕ, ◌+◌, ◌-◌, Bool, true, false, not, ◌&&◌, ltb, leb, ◌==◌, if◌then◌else◌, update,
}
use task_clock.Group.{
  Machine, Context, entry, put_entry, emit, add64, sub64, force_sig, tick_counter_is_running,
  tick_counter_turn_off, set_hit_bounded_fence, hit_bounded_fence, inc_clock_ticks_no_chunk_add,
}

abbrev pub imprecise_overflow_buffer : ℕ
imprecise_overflow_buffer = 200

abbrev pub bounded_chunk_size : ℕ
bounded_chunk_size = 1_024_000_000

abbrev pub imprecise_bounded_chunk_size : ℕ
imprecise_bounded_chunk_size = bounded_chunk_size - imprecise_overflow_buffer

-- `task_pt_regs(current)->flags`
abbrev pub set_trap_flag : ℕ → Bool → Machine → Machine
set_trap_flag tid b m = record m { trap_flag = update m.trap_flag tid b }

-- bounded_memory_fence_turn_on_tf
abbrev pub bounded_memory_fence_turn_on_tf : Bool → Bool
bounded_memory_fence_turn_on_tf regs = true

module _ (ctx : Context) where
  -- __single_stepping_on, _done, _dec, _enable and _reset. They reuse `count_ticks`, and are
  -- constants or empty without USE_BOUNDED_FENCE.
  abbrev pub single_stepping_on : ℕ → Machine → Bool
  single_stepping_on tid m = ctx.build.bounded_fence && ltb 1 (entry m tid).count_ticks

  abbrev pub single_stepping_done : ℕ → Machine → Bool
  single_stepping_done tid m = ctx.build.bounded_fence && leb (entry m tid).count_ticks 2

  abbrev pub set_count_ticks : ℕ → ℕ → Machine → Machine
  set_count_ticks tid n m =
      if ctx.build.bounded_fence
      then put_entry m tid (record (entry m tid) { count_ticks = n })
      else m

  -- The decrement is made at a positive count.
  abbrev pub single_stepping_dec : ℕ → Machine → Machine
  single_stepping_dec tid m = set_count_ticks tid ((entry m tid).count_ticks - 1) m

  abbrev pub single_stepping_enable : ℕ → ℕ → Machine → Machine
  single_stepping_enable tid val = set_count_ticks tid (val + 2)

  abbrev pub single_stepping_reset : ℕ → Machine → Machine
  single_stepping_reset tid = set_count_ticks tid 0

  abbrev pub remaining_ticks : Machine → ℕ
  remaining_ticks m =
      if ltb bounded_chunk_size (entry m ctx.current).chunk_ticks
      then 0
      else bounded_chunk_size - (entry m ctx.current).chunk_ticks

  unfoldable pub begin_bounded_memory_fence : Machine → Machine
  begin_bounded_memory_fence m =
      if tick_counter_is_running ctx m
      then (if remaining_ticks m == 0
          then emit (set_hit_bounded_fence ctx true (tick_counter_turn_off ctx m))
              (force_sig ctx.current)
          else single_stepping_enable ctx.current (remaining_ticks m)
              (if ctx.in_nmi then m else set_trap_flag ctx.current true m))
      else m

  unfoldable pub end_bounded_memory_fence_early : Machine → Machine
  end_bounded_memory_fence_early m =
      single_stepping_reset ctx.current
        (set_hit_bounded_fence ctx true (set_trap_flag ctx.current false m))

  -- The result, the registers and the machine after a debug trap.
  unfoldable pub on_single_step : Bool → Machine → Bool × Bool × Machine
  on_single_step regs m =
      if single_stepping_on ctx.current m
      then (let m₁ =
            inc_clock_ticks_no_chunk_add (single_stepping_dec ctx.current m) ctx.current 1 in
          if single_stepping_done ctx.current m₁
          then (
            true,
            false,
            emit
                (set_hit_bounded_fence ctx true
                  (tick_counter_turn_off ctx (single_stepping_dec ctx.current m₁)))
                (force_sig ctx.current),
          )
          else (true, regs, m₁))
      else if hit_bounded_fence ctx m
      then (true, regs, m)
      else if ltb (entry m ctx.current).chunk_ticks bounded_chunk_size
      then (true, false, m)
      else (false, regs, m)

  -- __inc_chunk_ticks: with the fence, a chunk that comes near its end starts it.
  unfoldable pub inc_chunk_ticks : ℕ → ℕ → Machine → Machine
  inc_chunk_ticks tid val m =
      let m₁ =
        put_entry m tid
          (record (entry m tid) { chunk_ticks = add64 (entry m tid).chunk_ticks val }) in
      if ctx.build.bounded_fence && ltb imprecise_bounded_chunk_size (entry m₁ tid).chunk_ticks
      then begin_bounded_memory_fence m₁
      else m₁

  -- __inc_clock_ticks (module/utility.h)
  unfoldable pub inc_clock_ticks : ℕ → ℕ → Machine → Machine
  inc_clock_ticks tid val m = inc_chunk_ticks tid val (inc_clock_ticks_no_chunk_add m tid val)

  -- __bound_overflow_period
  abbrev pub bound_overflow_period : ℕ → ℕ → Machine → ℕ
  bound_overflow_period tid period m =
      if ctx.build.bounded_fence
      then (if ltb imprecise_bounded_chunk_size (add64 period (entry m tid).chunk_ticks)
          then sub64 imprecise_bounded_chunk_size (entry m tid).chunk_ticks
          else period)
      else period
