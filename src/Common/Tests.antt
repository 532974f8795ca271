-- ===== src/Common/Tests.antt =====
-- Boolean tests on the native numbers, the conditional, and case lemmas.
use Prim.Native.Nat.{ℕ, ◌<◌, compare, Ordering}
use mathlib.Core.Path.{◌≡◌, refl}
use mathlib.Core.Logic.{◌≢◌, ◌⊎◌, inl, inr}
use mathlib.Core.Bool.{Bool, true, false}
use mathlib.Core.Option.{Option, none, some}
use native.Mathlib.Omega.{arith}

abbrev pub ltb : ℕ → ℕ → Bool
ltb a b = elim (compare a b) [ Ordering.lt ↦ true | _ ↦ false ]

abbrev pub leb : ℕ → ℕ → Bool
leb a b = elim (compare a b) [ Ordering.gt ↦ false | _ ↦ true ]

infix 50 ◌==◌
abbrev pub ◌==◌ : ℕ → ℕ → Bool
a == b = elim (compare a b) [ Ordering.eq ↦ true | _ ↦ false ]

infix 1 if◌then◌else◌
abbrev pub if◌then◌else◌ {ℓ} : {A : Type ℓ} → Bool → A → A → A
if true then x else y = x
if false then x else y = y

pub ltb→lt : (a b : ℕ) → ltb a b ≡ true → a < b
ltb→lt a b h = ground arith

pub lt→ltb : (a b : ℕ) → a < b → ltb a b ≡ true
lt→ltb a b h = ground arith

pub ==-refl : (a : ℕ) → (a == a) ≡ true
==-refl a = ground arith

pub eq_of_== : (a b : ℕ) → (a == b) ≡ true → a ≡ b
eq_of_== a b h = ground arith

pub ne→== : (a b : ℕ) → a ≢ b → (a == b) ≡ false
ne→== a b h = ground arith

-- To split on a computed value and keep the equation.
pub Bool-cases : (b : Bool) → (b ≡ true) ⊎ (b ≡ false)
Bool-cases true = inl refl
Bool-cases false = inr refl

pub Option-cases {ℓ} : {A : Type ℓ} (o : Option A) → (o ≡ none) ⊎ ((a : A) × (o ≡ some a))
Option-cases none = inl refl
Option-cases (some a) = inr (a, refl)

-- A test for an optional thread id against a thread id: `lowest_tid == tid` where -1 is `none`.
abbrev pub is_tid : Option ℕ → ℕ → Bool
is_tid none t = false
is_tid (some s) t = s == t

-- The same between two optional thread ids.
abbrev pub same_tid : Option ℕ → Option ℕ → Bool
same_tid none none = true
same_tid none (some _) = false
same_tid (some _) none = false
same_tid (some s) (some t) = s == t

pub same_tid→eq : (a b : Option ℕ) → same_tid a b ≡ true → a ≡ b
same_tid→eq none none h = refl
same_tid→eq none (some _) h = ground arith
same_tid→eq (some _) none h = ground arith
same_tid→eq (some s) (some t) h = ground arith

pub is_tid→eq : (o : Option ℕ) (t : ℕ) → is_tid o t ≡ true → o ≡ some t
is_tid→eq none t h = ground arith
is_tid→eq (some s) t h = ground arith

pub none-ne-some : (t : ℕ) → ◌≢◌ {A = Option ℕ} none (some t)
none-ne-some t h = cc

pub some_injective : {s t : ℕ} → ◌≡◌ {A = Option ℕ} (some s) (some t) → s ≡ t
some_injective h = cc
