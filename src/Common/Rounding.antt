-- ===== src/Common/Rounding.antt =====
-- Rounding of a natural number to so many significant bits, as binary floating point does it.
use Prim.Native.Nat.{ℕ, zero, suc, ◌+◌, ◌*◌, ◌/◌, ◌%◌, ◌≤◌}
use mathlib.Core.Path.{◌≡◌, refl, ap, ◌∙◌}
use mathlib.Core.Logic.{◌⊎◌, inl, inr}
use native.Mathlib.Nat.{div-add-mod', add-mul}
use native.Mathlib.Omega.{arith}
use task_clock.Common.Tests.{ltb, ◌==◌, if◌then◌else◌, Bool-cases}

-- The unit in the last place of a number that has less than `2 * half` units: `unit` doubled as
-- often as it takes, but at most `fuel` times.
unfoldable pub ulp : (half fuel unit : ℕ) → ℕ → ℕ
ulp half zero unit n = unit
ulp half (suc fuel) unit n =
    let rest = ulp half fuel (2 * unit) n in if ltb n (half * (2 * unit)) then unit else rest

-- The multiple of the unit that is nearest to `n`; a tie goes to the even one.
abbrev pub round_to : (unit : ℕ) → ℕ → ℕ
round_to unit n =
    if ltb (2 * (n % unit)) unit
    then n / unit * unit
    else if ltb unit (2 * (n % unit))
    then (n / unit + 1) * unit
    else (n / unit + (n / unit) % 2) * unit

unfoldable pub rounded : (half : ℕ) → ℕ → ℕ
rounded half n = round_to (ulp half 128 1 n) n

-- The unit is the least, or the number has `half` of it.
ulp_lem : (half fuel unit n : ℕ) → (ulp half fuel unit n ≡ unit) ⊎ (half * ulp half fuel unit n ≤ n)
unfolding ulp
ulp_lem half zero unit n = inl refl
ulp_lem half (suc fuel) unit n = elim (Bool-cases (ltb n (half * (2 * unit)))) [
  | inl small ↦ inl (ground arith)
  | inr large ↦ elim (ulp_lem half fuel (2 * unit) n) [
    | inl is ↦ inr (ground (arith, ap (λ (u : ℕ). half * u) is))
    | inr fits ↦ inr (ground (arith, fits))
  ]
]

round_to_one : (n : ℕ) → round_to 1 n ≡ n
round_to_one n = ground arith

-- Rounding adds at most half a unit.
round_to_upper : (unit n : ℕ) → 2 * round_to unit n ≤ 2 * n + unit
round_to_upper unit n = elim (Bool-cases ((n / unit) % 2 == 0)) [
  | inl even ↦
      let e : (n / unit) % 2 ≡ 0 = ground arith in
      rw e (ground (arith, div-add-mod' n unit, add-mul (n / unit) 1 unit))
  | inr odd ↦
      let e : (n / unit) % 2 ≡ 1 = ground arith in
      rw e (ground (arith, div-add-mod' n unit, add-mul (n / unit) 1 unit))
]

-- Rounding changes nothing, or adds at most half a unit, and the number has `half` units.
pub rounded_upper :
    (half n : ℕ)
    → (rounded half n ≡ n) ⊎ ((unit : ℕ) × (half * unit ≤ n) × (2 * rounded half n ≤ 2 * n + unit))
unfolding rounded
rounded_upper half n = elim (ulp_lem half 128 1 n) [
  | inl one ↦ inl (ap (λ u. round_to u n) one ∙ round_to_one n)
  | inr fits ↦ inr (ulp half 128 1 n, fits, round_to_upper (ulp half 128 1 n) n)
]
