-- ===== src/Estimate.antt =====
-- The transaction estimator: an average of the lengths of the transactions of each kind, and a ring
-- of the last ones (src/lib/tx_estimate.h). Single precision numbers are written as natural numbers
-- of a fixed unit; all of them are positive and normal, and rounding does not depend on the unit.
pub mod Rounding
pub mod Average
pub mod Ring
use task_clock.Common.{
  ℕ, zero, suc, ◌+◌, ◌-◌, ◌*◌, ◌/◌, ◌%◌, ◌^◌, Bool, true, false, ltb, ◌==◌, if◌then◌else◌, update,
  rounded,
}
use task_clock.Group.{word, add64, sub64}

-- TX_ESTIMATE_MIN_OBSERVATIONS, TX_ESTIMATE_TOTAL_OBSERVVATIONS and TX_ESTIMATE_TOTAL_ENTRIES
abbrev pub min_observations : ℕ
min_observations = 10

abbrev pub total_observations : ℕ
total_observations = 10

abbrev pub total_entries : ℕ
total_entries = 32

-- `struct tx_estimate`
pub record Estimate : Type 0 where
  pub ewma : ℕ
  pub observations : ℕ → ℕ
  pub counter : ℕ

abbrev pub no_estimate : Estimate
no_estimate = record { ewma = 0; observations = λ _. 0; counter = 0 }

-- The entries of `struct tx_estimator`, as tx_estimate_init leaves them.
abbrev pub tx_estimate_init : ℕ → Estimate
tx_estimate_init _ = no_estimate

-- __tx_get_entry, the index: the conjunction of the second and the third byte of the identifier.
abbrev pub bit : ℕ → ℕ → ℕ
bit n i = (n / 2 ^ i) % 2

unfoldable pub and_bits : (width : ℕ) → ℕ → ℕ → ℕ
and_bits zero a b = 0
and_bits (suc w) a b = (bit a w * bit b w) * 2 ^ w + and_bits w a b

unfoldable pub tx_get_entry : (identifier : ℕ) → ℕ
tx_get_entry identifier =
    if identifier == 0
    then 0
    else and_bits 8 ((identifier / 2 ^ 8) % 2 ^ 8) ((identifier / 2 ^ 16) % 2 ^ 8)
        % (total_entries - 1)
      + 1

-- The number nearest to `n` among those with 24 significant bits
unfoldable pub float : ℕ → ℕ
float n = rounded (2 ^ 23) n

-- 0.2F and 1.0F - 0.2F, in units of 2^-26
abbrev pub ewma_weight : ℕ
ewma_weight = 13421773

abbrev pub ewma_rest : ℕ
ewma_rest = 53687092

module _ (out_of_range : ℕ → ℕ) where
  -- ticks*TX_ESTIMATE_EWMA_WEIGHT + (1.0F-TX_ESTIMATE_EWMA_WEIGHT)*tx->ewma, converted to uint64_t.
  -- What the conversion gives from 2^64 on is not defined by C, and a parameter here.
  unfoldable pub next_ewma : (ticks ewma : ℕ) → ℕ
  next_ewma ticks ewma =
      let sum = float (float (float ticks * ewma_weight) + float (float ewma * ewma_rest)) in
      let whole = sum / 2 ^ 26 in if ltb whole word then whole else out_of_range whole

  -- tx_estimate_add_observation
  unfoldable pub add_observation : (ticks : ℕ) → Estimate → Estimate
  add_observation ticks tx = record {
    ewma = next_ewma ticks tx.ewma;
    observations = update tx.observations (tx.counter % total_observations) ticks;
    counter = add64 tx.counter 1;
  }

  unfoldable pub tx_estimate_add_observation :
      (identifier ticks : ℕ) → (ℕ → Estimate) → ℕ → Estimate
  tx_estimate_add_observation identifier ticks txe =
      update txe (tx_get_entry identifier) (add_observation ticks (txe (tx_get_entry identifier)))

-- abs((int) x) added to a uint64_t; of -2^31, where `abs` is not defined, it is the number itself.
abbrev pub abs_int : ℕ → ℕ
abs_int x =
    if ltb (x % 2 ^ 32) (2 ^ 31)
    then x % 2 ^ 32
    else if x % 2 ^ 32 == 2 ^ 31
    then word - 2 ^ 31
    else 2 ^ 32 - x % 2 ^ 32

-- The loop of tx_estimate_next_observation_guess, over the last `n` indices.
unfoldable pub total_error : (n : ℕ) → Estimate → ℕ → ℕ
total_error zero tx total = total
total_error (suc n) tx total =
    total_error n tx
      (add64 total (abs_int (sub64 (tx.observations (total_observations - suc n)) tx.ewma)))

-- -1 as the bits of an int64_t
abbrev pub no_guess : ℕ
no_guess = word - 1

unfoldable pub next_observation_guess : Estimate → ℕ
next_observation_guess tx =
    if ltb min_observations tx.counter
    then add64 tx.ewma (total_error total_observations tx 0 / total_observations)
    else no_guess

unfoldable pub tx_estimate_next_observation_guess : (ℕ → Estimate) → (identifier : ℕ) → ℕ
tx_estimate_next_observation_guess txe identifier =
    next_observation_guess (txe (tx_get_entry identifier))
