-- ===== src/Estimate/Average.antt =====
-- The average stays in the range of the observations (src/lib/tx_estimate.h).
use task_clock.Common.{
  ℕ, zero, suc, ◌+◌, ◌-◌, ◌*◌, ◌/◌, ◌^◌, ◌≤◌, ◌<◌, ◌≡◌, ap, refl, true, arith, ltb,
}
use native.Mathlib.Nat.{add-mul}
use task_clock.Group.{word, sub64}
use task_clock.Estimate.{
  Estimate, float, ewma_weight, ewma_rest, next_ewma, add_observation, abs_int, total_error,
  next_observation_guess, min_observations, total_observations,
}
use task_clock.Estimate.Rounding.{float_upper}

-- Below 2^22 the average of two numbers is no larger than both.
next_ewma_upper :
    (out_of_range : ℕ → ℕ) (ticks ewma top : ℕ)
    → ticks ≤ top
    → ewma ≤ top
    → top < 2 ^ 22
    → next_ewma out_of_range ticks ewma ≤ top
unfolding next_ewma
next_ewma_upper out_of_range ticks ewma top t e small =
    let whole =
      float (float (float ticks * ewma_weight) + float (float ewma * ewma_rest)) / 2 ^ 26 in
    let bound : whole ≤ top = omega (
      arith,
      float_upper ticks,
      float_upper ewma,
      float_upper (float ticks * ewma_weight),
      float_upper (float ewma * ewma_rest),
      float_upper (float (float ticks * ewma_weight) + float (float ewma * ewma_rest)),
    ) in
    let fits : ltb whole word ≡ true = ground (arith, bound) in rw fits bound

-- All that an entry holds is at most `top`.
pub record IsBounded (top : ℕ) (tx : Estimate) : Type 0 where
  pub average : tx.ewma ≤ top
  pub kept : (i : ℕ) → tx.observations i ≤ top

module _ (top : ℕ) (small : top < 2 ^ 22) where
  pub add_observation-IsBounded :
      (out_of_range : ℕ → ℕ) (ticks : ℕ) (tx : Estimate)
      → ticks ≤ top
      → IsBounded top tx
      → IsBounded top (add_observation out_of_range ticks tx)
  unfolding add_observation
  add_observation-IsBounded out_of_range ticks tx lt b = record {
    average = next_ewma_upper out_of_range ticks tx.ewma top lt b.average small;
    kept = λ i. ground (arith, b.kept i);
  }

  abs_int-sub64 : (a b : ℕ) → a ≤ top → b ≤ top → abs_int (sub64 a b) ≤ top
  abs_int-sub64 a b la lb = ground arith

  -- The error of `n` observations more is at most `n` times the largest.
  total_error_upper :
      (n k : ℕ) (tx : Estimate) (total : ℕ)
      → IsBounded top tx
      → total ≤ k * top
      → k + n ≡ 10
      → total_error n tx total ≤ 10 * top
  unfolding total_error
  total_error_upper zero k tx total b t sum =
      let e : k ≡ 10 = omega (arith, sum) in omega (arith, t, ap (λ j. j * top) e)
  total_error_upper (suc n) k tx total b t sum =
      total_error_upper n (suc k) tx _ b
        (omega (
          arith,
          t,
          add-mul k 1 top,
          abs_int-sub64 (tx.observations (total_observations - suc n)) tx.ewma (b.kept _) b.average,
        ))
        (omega (arith, sum))

  pub next_observation_guess_range :
      (tx : Estimate)
      → IsBounded top tx
      → min_observations < tx.counter
      → (tx.ewma ≤ next_observation_guess tx) × (next_observation_guess tx ≤ tx.ewma + top)
  unfolding next_observation_guess
  next_observation_guess_range tx b enough =
      ground (arith, total_error_upper 10 0 tx 0 b (omega arith) refl, b.average)
