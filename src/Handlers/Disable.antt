-- ===== src/Handlers/Disable.antt =====
-- `task_clock_on_disable`: a thread settles its counter and gives its turn away
-- (src/module/clock_main.c).
use task_clock.Common.{ℕ, ◌≡◌, ◌≢◌, true, false}
use task_clock.Listarray.Represents.{Represents}
use task_clock.Group.{Machine, Context, entry, add64, tick_counter_turn_off}
use task_clock.Counter.{logical_clock_update_clock_ticks}

-- The counter is off, and what the event had pending is on the clock.
pub record Settled (ctx : Context) (m m₁ : Machine) : Type 0 where
  pub counted :
      (entry m₁ ctx.current).ticks
      ≡ add64 (entry m ctx.current).ticks (entry m ctx.current).event.count
  pub pending : (entry m₁ ctx.current).event.count ≡ 0
  pub off : (entry m₁ ctx.current).count_ticks ≡ 0
  pub base : (entry m₁ ctx.current).base_ticks ≡ (entry m ctx.current).base_ticks
  pub inactive : (entry m₁ ctx.current).inactive ≡ (entry m ctx.current).inactive
  pub others : (i : ℕ) → ctx.current ≢ i → entry m₁ i ≡ entry m i
  pub list : m₁.group.active_threads ≡ m.group.active_threads
  pub mapped : m₁.group.user_status_arr ≡ m.group.user_status_arr
  pub status : m₁.status ≡ m.status
  pub effects : m₁.effects ≡ m.effects

module _ (ctx : Context) (m : Machine) (no_fence : ctx.build.bounded_fence ≡ false)
    (counting : ctx.build.instruction_counting ≡ true) where
  abbrev settled : Machine
  settled = tick_counter_turn_off ctx (logical_clock_update_clock_ticks ctx ctx.current m)
