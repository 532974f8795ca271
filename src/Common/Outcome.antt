-- ===== src/Common/Outcome.antt =====
-- What a call of kernel code comes to: a value, a `BUG_ON` that fires, an access outside an array,
-- or a loop cut off.
use mathlib.Core.Path.{◌≡◌}
use mathlib.Core.Bool.{Bool, true, false}
use task_clock.Common.Tests.{if◌then◌else◌}

pub data Result {ℓ} (A : Type ℓ) : Type ℓ where
  ok : A → Result A
  bug out_of_bounds out_of_fuel : Result A

-- One call after another: a fault ends the sequence.
infixl 5 ◌>>=◌
abbrev pub ◌>>=◌ {ℓ ℓ'} : {X : Type ℓ} {Y : Type ℓ'} → Result X → (X → Result Y) → Result Y
out_of_fuel >>= rest = out_of_fuel
out_of_bounds >>= rest = out_of_bounds
bug >>= rest = bug
ok x >>= rest = rest x

-- `P` holds of the value, if there is one.
abbrev pub Ensures {ℓ κ} : {A : Type ℓ} → (A → Type κ) → Result A → Type κ
Ensures P (ok a) = P a
Ensures P bug = Unit
Ensures P out_of_bounds = Unit
Ensures P out_of_fuel = Unit

pub Ensures-bind {ℓ ℓ' κ κ'} :
    {A : Type ℓ} {B : Type ℓ'} (P : A → Type κ) (Q : B → Type κ') (r : Result A) (f : A → Result B)
    → Ensures P r
    → ((a : A) → P a → Ensures Q (f a))
    → Ensures Q (r >>= f)
Ensures-bind P Q (ok a) f p step = step a p
Ensures-bind P Q bug f p step = tt
Ensures-bind P Q out_of_bounds f p step = tt
Ensures-bind P Q out_of_fuel f p step = tt

pub Ensures-trivial {ℓ} : {A : Type ℓ} (r : Result A) → Ensures (λ _. Unit {0}) r
Ensures-trivial (ok a) = tt
Ensures-trivial bug = tt
Ensures-trivial out_of_bounds = tt
Ensures-trivial out_of_fuel = tt

pub Ensures-eq {ℓ κ} :
    {A : Type ℓ} (P : A → Type κ) (r : Result A) (a : A) → r ≡ ok a → Ensures P r → P a
Ensures-eq P r a e p = rw e at p

pub Ensures-if {ℓ κ} :
    {A : Type ℓ} (P : A → Type κ) (b : Bool) (r s : Result A)
    → Ensures P r
    → Ensures P s
    → Ensures P (if b then r else s)
Ensures-if P true r s p q = p
Ensures-if P false r s p q = q

pub Ensures-map {ℓ κ κ'} :
    {A : Type ℓ} (P : A → Type κ) (Q : A → Type κ') (r : Result A)
    → Ensures P r
    → ((a : A) → P a → Q a)
    → Ensures Q r
Ensures-map P Q (ok a) p step = step a p
Ensures-map P Q bug p step = tt
Ensures-map P Q out_of_bounds p step = tt
Ensures-map P Q out_of_fuel p step = tt

pub Ensures-ok {ℓ κ} :
    {A : Type ℓ} (P : A → Type κ) (r : Result A) (a : A) → r ≡ ok a → P a → Ensures P r
Ensures-ok P r a e p = rw e p

pub Ensures-both {ℓ κ κ'} :
    {A : Type ℓ} (P : A → Type κ) (Q : A → Type κ') (r : Result A)
    → Ensures P r
    → Ensures Q r
    → Ensures (λ a. P a × Q a) r
Ensures-both P Q (ok a) p q = (p, q)
Ensures-both P Q bug p q = tt
Ensures-both P Q out_of_bounds p q = tt
Ensures-both P Q out_of_fuel p q = tt
