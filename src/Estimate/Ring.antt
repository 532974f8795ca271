-- ===== src/Estimate/Ring.antt =====
-- What an entry of the estimator remembers of the observations, and what it guesses from them
-- (src/lib/tx_estimate.h).
use task_clock.Common.{
  get_or, ℕ, zero, suc, ◌+◌, ◌-◌, ◌/◌, ◌%◌, ◌^◌, ◌≤◌, ◌<◌, ◌≡◌, ◌≢◌, refl, false, List, [], ◌∷◌,
  arith, ltb, ◌==◌, eq_of_==, if◌then◌else◌, ◌⊎◌, inl, inr, Bool-cases, length, ◌↔◌, update,
}
use task_clock.Group.{word}
use task_clock.Estimate.{
  Estimate, tx_estimate_init, add_observation, and_bits, tx_get_entry, tx_estimate_add_observation,
  next_observation_guess, tx_estimate_next_observation_guess, no_guess, total_entries,
  total_observations, min_observations,
}
use task_clock.Estimate.Average.{IsBounded, add_observation-IsBounded, next_observation_guess_range}

-- The entry has counted the observations `latest`, and the ring holds the last of them.
pub record IsRing (latest : List ℕ) (tx : Estimate) : Type 0 where
  pub counted : tx.counter ≡ length latest
  pub ring :
      (k : ℕ)
      → k < total_observations
      → k < length latest
      → tx.observations ((length latest - suc k) % total_observations) ≡ get_or 0 latest k

ring_next :
    (ticks : ℕ) (latest : List ℕ) (tx : Estimate)
    → IsRing latest tx
    → (k : ℕ) → k < total_observations
    → k < length (ticks ∷ latest)
    → update tx.observations
        (tx.counter % total_observations)
        ticks
        ((length (ticks ∷ latest) - suc k) % total_observations)
      ≡ get_or 0 (ticks ∷ latest) k
ring_next ticks latest tx r zero small within = ground (arith, r.counted)
ring_next ticks latest tx r (suc j) small within = ground (arith, r.counted, r.ring j)

add_observation-IsRing :
    (out_of_range : ℕ → ℕ) (ticks : ℕ) (latest : List ℕ) (tx : Estimate)
    → length latest + 1 < word
    → IsRing latest tx
    → IsRing (ticks ∷ latest) (add_observation out_of_range ticks tx)
unfolding add_observation
add_observation-IsRing out_of_range ticks latest tx room r = record {
  counted = ground (arith, r.counted);
  ring = ring_next ticks latest tx r;
}

-- The estimator after observations of identifiers, the latest first, and those of one entry.
unfoldable pub estimator_after : (ℕ → ℕ) → List (ℕ × ℕ) → ℕ → Estimate
estimator_after out_of_range [] = tx_estimate_init
estimator_after out_of_range ((identifier, ticks) ∷ earlier) =
    tx_estimate_add_observation out_of_range identifier ticks (estimator_after out_of_range earlier)

unfoldable pub observed : (entry : ℕ) → List (ℕ × ℕ) → List ℕ
observed entry [] = []
observed entry ((identifier, ticks) ∷ earlier) =
    let rest = observed entry earlier in
    if tx_get_entry identifier == entry then ticks ∷ rest else rest

-- No observation is over `top`.
abbrev pub AllUpTo : (top : ℕ) → List (ℕ × ℕ) → Type 0
AllUpTo top [] = Unit
AllUpTo top ((identifier, ticks) ∷ earlier) = (ticks ≤ top) × AllUpTo top earlier

length-observed : (entry : ℕ) (all : List (ℕ × ℕ)) → length (observed entry all) ≤ length all
unfolding observed
length-observed entry [] = omega arith
length-observed entry ((identifier, ticks) ∷ earlier) =
    ground (arith, length-observed entry earlier)

-- After any number of observations below 2^64, each entry has counted its own and holds the last ten
-- of them, whatever was observed of the other entries.
pub estimator-IsRing :
    (out_of_range : ℕ → ℕ) (all : List (ℕ × ℕ)) (entry : ℕ)
    → length all < word
    → IsRing (observed entry all) (estimator_after out_of_range all entry)
unfolding estimator_after observed tx_estimate_add_observation
estimator-IsRing out_of_range [] entry room = record {
  counted = refl;
  ring = λ k small within. ground arith;
}
estimator-IsRing out_of_range ((identifier, ticks) ∷ earlier) entry room =
    let r = estimator-IsRing out_of_range earlier entry (omega (arith, room)) in
    elim (Bool-cases (tx_get_entry identifier == entry)) [
      | inl own ↦ rw own (
          add_observation-IsRing out_of_range ticks (observed entry earlier) _
            (omega (arith, room, length-observed entry earlier)) (rw (eq_of_== _ _ own) r))
      | inr other ↦ rw other r
    ]

estimator-IsBounded :
    (out_of_range : ℕ → ℕ) (top : ℕ) (all : List (ℕ × ℕ)) (entry : ℕ)
    → top < 2 ^ 22
    → AllUpTo top all
    → IsBounded top (estimator_after out_of_range all entry)
unfolding estimator_after tx_estimate_add_observation
estimator-IsBounded out_of_range top [] entry small le = record {
  average = omega arith;
  kept = λ i. omega arith;
}
estimator-IsBounded out_of_range top ((identifier, ticks) ∷ earlier) entry small (le, rest) =
    let b : (i : ℕ) → IsBounded top (estimator_after out_of_range earlier i) =
      λ i. estimator-IsBounded out_of_range top earlier i small rest in
    elim (Bool-cases (tx_get_entry identifier == entry)) [
      | inl own ↦ rw own (add_observation-IsBounded top small out_of_range ticks _ le (b _))
      | inr other ↦ rw other (b entry)
    ]

no_guess_lem :
    (tx : Estimate) → ltb min_observations tx.counter ≡ false → next_observation_guess tx ≡ no_guess
unfolding next_observation_guess
no_guess_lem tx few = rw few refl

-- What the guess is after fewer than 2^64 observations, none of them over `top`, for a `top` below
-- 2^22: -1 while the entry of the identifier has at most ten of them, and from then on a length
-- between the average and the average and `top` more, where the average is not over `top` itself.
pub estimator-guess :
    (out_of_range : ℕ → ℕ) (top : ℕ) (all : List (ℕ × ℕ)) (identifier : ℕ)
    → length all < word
    → top < 2 ^ 22
    → AllUpTo top all
    → let txe = estimator_after out_of_range all in
      let tx = txe (tx_get_entry identifier) in
      let n = length (observed (tx_get_entry identifier) all) in
      let guess = tx_estimate_next_observation_guess txe identifier in
      ((n ≤ min_observations) × (guess ≡ no_guess))
      ⊎ ((min_observations < n) × (tx.ewma ≤ guess) × (guess ≤ tx.ewma + top) × (tx.ewma ≤ top))
unfolding tx_estimate_next_observation_guess
estimator-guess out_of_range top all identifier room small le =
    let tx = estimator_after out_of_range all (tx_get_entry identifier) in
    let r = estimator-IsRing out_of_range all (tx_get_entry identifier) room in
    let b = estimator-IsBounded out_of_range top all (tx_get_entry identifier) small le in
    elim (Bool-cases (ltb min_observations tx.counter)) [
      | inl enough ↦
          let (low, high) = next_observation_guess_range top small tx b (ground arith) in
          inr (ground (arith, r.counted), low, high, b.average)
      | inr few ↦ inl (ground (arith, r.counted), no_guess_lem tx few)
    ]

and_bits_zero : (w a : ℕ) → and_bits w a 0 ≡ 0
unfolding and_bits
and_bits_zero zero a = refl
and_bits_zero (suc w) a = ground (arith, and_bits_zero w a)

-- An identifier has an entry of the array, that of index 0 exactly if it is 0.
pub tx_get_entry_lem :
    (identifier : ℕ)
    → (tx_get_entry identifier < total_entries) × ((tx_get_entry identifier ≡ 0) ↔ (identifier ≡ 0))
unfolding tx_get_entry
tx_get_entry_lem identifier = (ground arith, (λ e. ground arith, λ e. ground arith))

-- All identifiers below 2^16 but 0 share entry 1.
pub tx_get_entry_shared :
    (identifier : ℕ) → identifier ≢ 0 → identifier < 2 ^ 16 → tx_get_entry identifier ≡ 1
unfolding tx_get_entry
tx_get_entry_shared identifier ne small =
    ground (arith, and_bits_zero 8 ((identifier / 2 ^ 8) % 2 ^ 8))
