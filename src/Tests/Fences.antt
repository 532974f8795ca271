-- ===== src/Tests/Fences.antt =====
-- The end of a chunk (src/module/bounded_tso.c).
use task_clock.Common.{ℕ, ◌-◌, ◌≡◌, refl, true, [], arith}
use task_clock.Group.{Machine, Context}
use task_clock.Tests.State.{clocks, context, contended}
use task_clock.Fence.{bounded_chunk_size, single_stepping_on, begin_bounded_memory_fence}
use task_clock.Fence.Stepping.{single_steps, IsHit}
use task_clock.Fence.Chunk.{fence_exact, fence_not_early}

abbrev fenced : Context
fenced = context true 0 true

-- Thread 0 with `left` instructions left in its chunk.
abbrev near : ℕ → Machine
near left = record contended {
  group = record (contended.group) {
    clocks = λ i. record (clocks true i) { chunk_ticks = bounded_chunk_size - left };
  };
}

fence_exact_example :
    IsHit fenced
      (near 10)
      10
      (single_steps fenced 10 true (begin_bounded_memory_fence fenced (near 10))).0
      (single_steps fenced 10 true (begin_bounded_memory_fence fenced (near 10))).1
fence_exact_example = fence_exact fenced refl (near 10) (ground arith) (ground arith) true 9 refl

fence_not_early_example :
    (single_stepping_on fenced 0
        (single_steps fenced 4 true (begin_bounded_memory_fence fenced (near 10))).1
      ≡ true)
    × ((single_steps fenced 4 true (begin_bounded_memory_fence fenced (near 10))).1.effects ≡ [])
fence_not_early_example =
    fence_not_early fenced refl (near 10) (ground arith) (ground arith) true 9 refl 4 (ground arith)
