-- ===== src/Estimate/Rounding.antt =====
-- Rounding to 24 significant bits (src/lib/tx_estimate.h, the arithmetic on `float`).
use task_clock.Common.{ℕ, ◌+◌, ◌*◌, ◌^◌, ◌≤◌, arith, inl, inr, rounded_upper}
use task_clock.Estimate.{float}

pub float_upper : (n : ℕ) → 2 ^ 24 * float n ≤ 2 ^ 24 * n + n
unfolding float
float_upper n = elim (rounded_upper (2 ^ 23) n) [
  | inl same ↦ omega (arith, same)
  | inr (unit, fits, near) ↦ omega (arith, fits, near)
]
