-- ===== src/Base/Tests.antt =====
-- Boolean tests on the native numbers and on lists of them, and the conditional.
use Prim.Native.Nat.{ℕ, compare, Ordering}
use mathlib.Core.Path.{◌≡◌, refl}
use mathlib.Core.Logic.{◌≢◌, ◌↔◌, ◌⊎◌, inl, inr}
use mathlib.Core.Bool.{Bool, true, false, not, ◌&&◌}
use mathlib.Core.List.{List, [], ◌∷◌}
use mathlib.Core.Option.{Option, none, some}
use native.Mathlib.Omega.{arith}

abbrev pub ltb : ℕ → ℕ → Bool
ltb a b = elim (compare a b) [ Ordering.lt ↦ true | _ ↦ false ]

abbrev pub leb : ℕ → ℕ → Bool
leb a b = elim (compare a b) [ Ordering.gt ↦ false | _ ↦ true ]

infix 50 ◌==◌
abbrev pub ◌==◌ : ℕ → ℕ → Bool
a == b = elim (compare a b) [ Ordering.eq ↦ true | _ ↦ false ]

infix 1 if◌then◌else◌
abbrev pub if◌then◌else◌ {ℓ} : {A : Type ℓ} → Bool → A → A → A
if true then x else y = x
if false then x else y = y

pub ==_iff : (a b : ℕ) → ((a == b) ≡ true) ↔ (a ≡ b)
==_iff a b = ground arith

pub eq_of_not_ne : (a b : ℕ) → not (a == b) ≡ false → a ≡ b
eq_of_not_ne a b h = ground arith

pub not-false : (b : Bool) → not b ≡ false → b ≡ true
not-false true h = refl
not-false false h = cc

-- Equality of byte strings, the `==` of slices and of fixed arrays.
unfoldable pub beq_bytes : List ℕ → List ℕ → Bool
beq_bytes [] [] = true
beq_bytes [] (y ∷ ys) = false
beq_bytes (x ∷ xs) [] = false
beq_bytes (x ∷ xs) (y ∷ ys) = (x == y) && beq_bytes xs ys

pub beq_bytes_refl : (xs : List ℕ) → beq_bytes xs xs ≡ true
unfolding beq_bytes
beq_bytes_refl [] = refl
beq_bytes_refl (x ∷ xs) = ground (arith, beq_bytes_refl xs)

pub eq-beq_bytes : (xs ys : List ℕ) → beq_bytes xs ys ≡ true → xs ≡ ys
unfolding beq_bytes
eq-beq_bytes [] [] h = refl
eq-beq_bytes [] (y ∷ ys) h = cc
eq-beq_bytes (x ∷ xs) [] h = cc
eq-beq_bytes (x ∷ xs) (y ∷ ys) h = ground (arith, eq-beq_bytes xs ys)

pub beq_bytes_iff : (xs ys : List ℕ) → (beq_bytes xs ys ≡ true) ↔ (xs ≡ ys)
beq_bytes_iff xs ys = (eq-beq_bytes xs ys, λ e. rw e (beq_bytes_refl ys))

pub beq_bytes-ne : (xs ys : List ℕ) → xs ≢ ys → beq_bytes xs ys ≡ false
beq_bytes-ne xs ys h = elim (Bool-cases (beq_bytes xs ys)) [
  | inl e ↦ absurd (h (eq-beq_bytes xs ys e))
  | inr e ↦ e
]
  where
    Bool-cases : (b : Bool) → (b ≡ true) ⊎ (b ≡ false)
    Bool-cases true = inl refl
    Bool-cases false = inr refl

-- To split on a computed value and keep the equation.
pub Bool-cases : (b : Bool) → (b ≡ true) ⊎ (b ≡ false)
Bool-cases true = inl refl
Bool-cases false = inr refl

pub Option-cases {ℓ} : {A : Type ℓ} (o : Option A) → (o ≡ none) ⊎ ((a : A) × (o ≡ some a))
Option-cases none = inl refl
Option-cases (some a) = inr (a, refl)

-- Which branch of a conditional gave its value.
pub if-cases {ℓ} :
    {A : Type ℓ} (b : Bool) (x y : A) {z : A}
    → (if b then x else y) ≡ z
    → ((b ≡ true) × (x ≡ z)) ⊎ ((b ≡ false) × (y ≡ z))
if-cases true x y h = inl (refl, h)
if-cases false x y h = inr (refl, h)
