-- ===== src/Fence/Inc.antt =====
-- What counting ticks does besides: nothing, with the counter off or short of the end of the chunk.
use task_clock.Common.{ℕ, ◌≡◌, false, arith}
use task_clock.Group.{Machine, Context, entry, put_entry, add64}
use task_clock.Fence.{begin_bounded_memory_fence, inc_chunk_ticks, inc_clock_ticks}

-- The two sums of `__inc_clock_ticks`.
abbrev pub counted : ℕ → ℕ → Machine → Machine
counted tid val m = put_entry m tid (record (entry m tid) {
  ticks = add64 (entry m tid).ticks val;
  chunk_ticks = add64 (entry m tid).chunk_ticks val;
})

begin_off :
    (ctx : Context) (m : Machine)
    → (entry m ctx.current).count_ticks ≡ 0
    → begin_bounded_memory_fence ctx m ≡ m
unfolding begin_bounded_memory_fence
begin_off ctx m off = ground arith

module _ (ctx : Context) (val : ℕ) (m : Machine) where
  pub inc_clock_ticks_off :
      (entry m ctx.current).count_ticks ≡ 0
      → inc_clock_ticks ctx ctx.current val m ≡ counted ctx.current val m
  unfolding inc_clock_ticks inc_chunk_ticks
  inc_clock_ticks_off off = ground (arith, begin_off ctx (counted ctx.current val m))

  pub inc_clock_ticks_unbounded :
      (tid : ℕ)
      → ctx.build.bounded_fence ≡ false
      → inc_clock_ticks ctx tid val m ≡ counted tid val m
  unfolding inc_clock_ticks inc_chunk_ticks
  inc_clock_ticks_unbounded tid no_fence = ground arith
