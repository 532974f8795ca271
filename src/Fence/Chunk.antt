-- ===== src/Fence/Chunk.antt =====
-- A chunk under the bounded fence ends at exactly BOUNDED_CHUNK_SIZE instructions.
use task_clock.Common.{ℕ, suc, ◌+◌, ◌≤◌, ◌<◌, ◌≡◌, Bool, true, false, arith}
use task_clock.Group.{Machine, Context, entry, word}
use task_clock.Fence.{
  bounded_chunk_size, imprecise_bounded_chunk_size, single_stepping_on, begin_bounded_memory_fence,
  end_bounded_memory_fence_early, on_single_step,
}
use task_clock.Fence.Stepping.{single_steps, single_steps_early, IsHit, single_steps-IsHit}

module _ (ctx : Context) (fence : ctx.build.bounded_fence ≡ true) (m : Machine)
    (running : 0 < (entry m ctx.current).count_ticks)
    (near : imprecise_bounded_chunk_size < (entry m ctx.current).chunk_ticks) where
  abbrev begun : Machine
  begun = begin_bounded_memory_fence ctx m

  -- What the start of the fence changes short of the end of the chunk.
  record Begun : Type 0 where
    to_go :
        (entry begun ctx.current).count_ticks + (entry m ctx.current).chunk_ticks
        ≡ bounded_chunk_size + 2
    ticks_same : (entry begun ctx.current).ticks ≡ (entry m ctx.current).ticks
    quiet : begun.effects ≡ m.effects

  begin-Begun : (entry m ctx.current).chunk_ticks < bounded_chunk_size → Begun
  unfolding begin_bounded_memory_fence
  begin-Begun short = ground arith

  -- Single stepping starts with fewer than 200 instructions to go, so that the counter that it
  -- reuses stays a byte.
  pub begin_count_ticks : (entry begun ctx.current).count_ticks ≤ 201
  unfolding begin_bounded_memory_fence
  begin_count_ticks = ground arith

  -- At the end of the chunk or past it the fence is hit at once, without single stepping.
  pub begin-IsHit :
      bounded_chunk_size ≤ (entry m ctx.current).chunk_ticks
      → (entry m ctx.current).ticks < word
      → IsHit ctx m 0 false begun
  unfolding begin_bounded_memory_fence
  begin-IsHit past small = ground arith

  module _ (regs : Bool) (n : ℕ)
      (left : (entry m ctx.current).chunk_ticks + suc n ≡ bounded_chunk_size) where
    -- With n + 1 instructions left in the chunk, the fence is hit by the debug trap of the last of
    -- them: the trap flag is off, the counter is stopped, the flag for user space is set, the clock
    -- has counted each step, and SIGUSR1 has been sent once.
    pub fence_exact :
        IsHit ctx m
          (suc n)
          (single_steps ctx (suc n) regs begun).0
          (single_steps ctx (suc n) regs begun).1
    fence_exact =
        let b = begin-Begun (omega arith) in
        let is = single_steps-IsHit ctx fence n regs begun (omega (arith, b.to_go)) in
        record {
          trap_off = is.trap_off;
          stopped = is.stopped;
          hit = is.hit;
          counted = omega (arith, is.counted, b.ticks_same);
          signalled = ground (arith, is.signalled, b.quiet);
        }

    -- No earlier trap hits it: the thread is still stepping and has had no signal.
    pub fence_not_early :
        (k : ℕ)
        → k < suc n
        → (single_stepping_on ctx ctx.current (single_steps ctx k regs begun).1 ≡ true)
          × ((single_steps ctx k regs begun).1.effects ≡ m.effects)
    fence_not_early k lt =
        let b = begin-Begun (omega arith) in
        let (on, same, quiet) =
          single_steps_early ctx fence k (suc n) regs begun lt (omega (arith, b.to_go)) in
        (on, ground (arith, quiet, b.quiet))

-- A debug trap after the fence was ended early is swallowed, and changes nothing.
pub on_single_step-end_early :
    (ctx : Context) (regs : Bool) (m : Machine)
    → ctx.build.bounded_fence ≡ true
    → on_single_step ctx regs (end_bounded_memory_fence_early ctx m)
      ≡ (true, regs, end_bounded_memory_fence_early ctx m)
unfolding on_single_step end_bounded_memory_fence_early
on_single_step-end_early ctx regs m fence = ground arith
