-- ===== src/Fence/Stepping.antt =====
-- From the start of the fence to the signal: the chunk ends where it must.

use task_clock.Common.{ℕ, zero, suc, ◌+◌, ◌-◌, ◌%◌, ◌<◌, ◌≡◌, Bool, true, false, ◌∷◌, arith}
use task_clock.Group.{Machine, Context, entry, word, force_sig}
use task_clock.Fence.{single_stepping_on, on_single_step}

-- `n` debug traps in a row.
unfoldable pub single_steps : Context → ℕ → Bool → Machine → Bool × Machine
single_steps ctx zero regs m = (regs, m)
single_steps ctx (suc n) regs m =
    let (_, regs', m') = on_single_step ctx regs m in single_steps ctx n regs' m'

-- The state of the fence once it is hit.
pub record IsHit (ctx : Context) (before : Machine) (steps : ℕ) (regs : Bool) (m : Machine)
    : Type 0 where
  pub trap_off : regs ≡ false
  pub stopped : (entry m ctx.current).count_ticks ≡ 0
  pub hit : (m.status ctx.current).hit_bounded_fence ≡ true
  pub counted : (entry m ctx.current).ticks ≡ ((entry before ctx.current).ticks + steps) % word
  pub signalled : m.effects ≡ force_sig ctx.current ∷ before.effects

module _ (ctx : Context) (fence : ctx.build.bounded_fence ≡ true) where
  module _ (regs : Bool) (m : Machine) where
    abbrev after : Machine
    after = (on_single_step ctx regs m).2

    -- A trap with more than one instruction to go.
    record StepMore : Type 0 where
      regs_same : (on_single_step ctx regs m).1 ≡ regs
      down : (entry after ctx.current).count_ticks + 1 ≡ (entry m ctx.current).count_ticks
      counted : (entry after ctx.current).ticks ≡ ((entry m ctx.current).ticks + 1) % word
      quiet : after.effects ≡ m.effects

    step_more : 3 < (entry m ctx.current).count_ticks → StepMore
    unfolding on_single_step
    step_more h = ground arith

    step_last :
        (entry m ctx.current).count_ticks ≡ 3 → IsHit ctx m 1 (on_single_step ctx regs m).1 after
    unfolding on_single_step
    step_last h = ground arith

  -- With `n` instructions to go, fewer traps leave it stepping, and send no signal.
  pub single_steps_early :
      (k n : ℕ) (regs : Bool) (m : Machine)
      → k < n
      → (entry m ctx.current).count_ticks ≡ n + 2
      → (single_stepping_on ctx ctx.current (single_steps ctx k regs m).1 ≡ true)
        × ((single_steps ctx k regs m).0 ≡ regs)
        × ((single_steps ctx k regs m).1.effects ≡ m.effects)
  unfolding single_steps
  single_steps_early zero n regs m lt h = ground arith
  single_steps_early (suc k) n regs m lt h =
      let s = step_more regs m (omega arith) in
      ground (
        arith,
        single_steps_early k (n - 1) (on_single_step ctx regs m).1 (after regs m) (omega arith)
            (omega (arith, s.down)),
        s.regs_same,
        s.quiet,
      )

  -- With `n + 1` instructions to go, `n + 1` traps hit the fence.
  pub single_steps-IsHit :
      (n : ℕ) (regs : Bool) (m : Machine)
      → (entry m ctx.current).count_ticks ≡ n + 3
      → IsHit ctx m (n + 1) (single_steps ctx (suc n) regs m).0 (single_steps ctx (suc n) regs m).1
  unfolding single_steps
  single_steps-IsHit zero regs m h = step_last regs m h
  single_steps-IsHit (suc n) regs m h =
      let s = step_more regs m (omega arith) in
      let rest =
        single_steps-IsHit n (on_single_step ctx regs m).1 (after regs m) (omega (arith, s.down)) in
      record {
        trap_off = rest.trap_off;
        stopped = rest.stopped;
        hit = rest.hit;
        counted = omega (arith, rest.counted, s.counted);
        signalled = ground (arith, rest.signalled, s.quiet);
      }
