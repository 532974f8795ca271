-- ===== src/Common/Lists.antt =====
-- Lists of numbers measured and searched by native numbers, and arrays as functions.
use Prim.Native.Nat.{ℕ, zero, suc, ◌+◌}
use mathlib.Core.Path.{◌≡◌, refl}
use mathlib.Core.Bool.{Bool, true, false, ◌||◌}
use mathlib.Core.List.{List, [], ◌∷◌, ◌++◌}
use native.Mathlib.Omega.{arith}
use task_clock.Common.Tests.{◌==◌, if◌then◌else◌}

-- An array cell written: `f[i] = v`.
abbrev pub update {ℓ} : {A : Type ℓ} → (ℕ → A) → ℕ → A → ℕ → A
update f i v j = if i == j then v else f j

module _ {ℓ} {A : Type ℓ} where
  abbrev pub length : List A → ℕ
  length [] = 0
  length (x ∷ xs) = suc (length xs)

  pub length-append : (xs ys : List A) → length (xs ++ ys) ≡ length xs + length ys
  length-append [] ys = omega arith
  length-append (x ∷ xs) ys = omega (arith, length-append xs ys)

abbrev pub get_or : (default : ℕ) → List ℕ → ℕ → ℕ
get_or default [] k = default
get_or default (x ∷ xs) zero = x
get_or default (x ∷ xs) (suc k) = get_or default xs k

abbrev pub has : ℕ → List ℕ → Bool
has a [] = false
has a (x ∷ xs) = (x == a) || has a xs

infix 40 ◌∈◌ ◌∉◌
abbrev pub ◌∈◌ : ℕ → List ℕ → Type 0
a ∈ xs = has a xs ≡ true

abbrev pub ◌∉◌ : ℕ → List ℕ → Type 0
a ∉ xs = has a xs ≡ false

-- No element stands twice.
abbrev pub Distinct : List ℕ → Type 0
Distinct [] = Unit
Distinct (x ∷ xs) = (x ∉ xs) × Distinct xs

-- The first `a` taken out.
unfoldable pub erase : ℕ → List ℕ → List ℕ
erase a [] = []
erase a (x ∷ xs) = if x == a then xs else x ∷ erase a xs

-- The last element, or `d`.
abbrev pub last_or : ℕ → List ℕ → ℕ
last_or d [] = d
last_or d (x ∷ xs) = last_or x xs

pub has-append : (a : ℕ) (xs ys : List ℕ) → has a (xs ++ ys) ≡ (has a xs || has a ys)
has-append a [] ys = refl
has-append a (x ∷ xs) ys = ground (arith, has-append a xs ys)

pub has-last_or : (x : ℕ) (xs : List ℕ) → last_or x xs ∈ x ∷ xs
has-last_or x [] = ground arith
has-last_or x (y ∷ ys) = ground (arith, has-last_or y ys)

pub last_or-append : (d x : ℕ) (xs : List ℕ) → last_or d (xs ++ (x ∷ [])) ≡ x
last_or-append d x [] = refl
last_or-append d x (y ∷ ys) = last_or-append y x ys

pub Distinct-append : (a : ℕ) (xs : List ℕ) → Distinct xs → a ∉ xs → Distinct (xs ++ (a ∷ []))
Distinct-append a [] d out = (refl, tt)
Distinct-append a (x ∷ xs) d out =
    (ground (arith, has-append x xs (a ∷ [])), Distinct-append a xs d.1 (ground arith))

-- In a list of distinct elements `erase` takes out the one, and nothing else.
pub has-erase :
    (a b : ℕ) (xs : List ℕ)
    → Distinct xs
    → has b (erase a xs) ≡ (if a == b then false else has b xs)
unfolding erase
has-erase a b [] d = ground arith
has-erase a b (x ∷ xs) d = ground (arith, has-erase a b xs d.1)

pub Distinct-erase : (a : ℕ) (xs : List ℕ) → Distinct xs → Distinct (erase a xs)
unfolding erase
Distinct-erase a [] d = tt
Distinct-erase a (x ∷ xs) d = ground (arith, Distinct-erase a xs d.1, has-erase a x xs d.1)

pub length-erase : (a : ℕ) (xs : List ℕ) → a ∈ xs → length (erase a xs) + 1 ≡ length xs
unfolding erase
length-erase a [] h = ground arith
length-erase a (x ∷ xs) h = ground (arith, length-erase a xs)
