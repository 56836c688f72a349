-- ===== src/Common/Tests.antt =====
-- Boolean tests on numbers and texts, and the conditional.
use Prim.Native.Nat.{ℕ, compare, Ordering}
use Prim.Native.String.{String}
use mathlib.Core.Path.{◌≡◌, refl}
use mathlib.Core.Logic.{◌≢◌, ◌↔◌, ◌⊎◌, inl, inr}
use mathlib.Core.Bool.{Bool, true, false}
use mathlib.Core.Option.{Option, none, some}
use native.Mathlib.Omega.{arith}
use Prim.Native.String.{compare as str_compare}
use text.Mathlib.Text.{◌==◌ as str_beq, is_lt}
use text.Mathlib.TextEquality.{eq_iff as str_iff}

abbrev pub ltb : ℕ → ℕ → Bool
ltb a b = elim (compare a b) [ Ordering.lt ↦ true | _ ↦ false ]

abbrev pub leb : ℕ → ℕ → Bool
leb a b = elim (compare a b) [ Ordering.gt ↦ false | _ ↦ true ]

abbrev pub nat_beq : ℕ → ℕ → Bool
nat_beq a b = elim (compare a b) [ Ordering.eq ↦ true | _ ↦ false ]

infix 1 if◌then◌else◌
abbrev pub if◌then◌else◌ {ℓ} : {A : Type ℓ} → Bool → A → A → A
if true then x else y = x
if false then x else y = y

pub nat_iff : (a b : ℕ) → (nat_beq a b ≡ true) ↔ (a ≡ b)
nat_iff a b = ground arith

-- Types whose values the program compares with `==`.
pub record Equality {ℓ} (X : Type ℓ) : Type ℓ where
  pub same : X → X → Bool
  pub decides : (x y : X) → (same x y ≡ true) ↔ (x ≡ y)

infix 45 ◌==◌
abbrev pub ◌==◌ {ℓ} : {X : Type ℓ} ⦃test : Equality X⦄ → X → X → Bool
◌==◌ ⦃test⦄ = test.same

instance abbrev pub string_eq : Equality String
string_eq = record { same = str_beq; decides = str_iff }

instance abbrev pub nat_eq : Equality ℕ
nat_eq = record { same = nat_beq; decides = nat_iff }

-- The order of texts by their bytes.
abbrev pub str_lt : String → String → Bool
str_lt a b = is_lt (str_compare a b)

pub str_eq_iff : (a b : String) → ((a == b) ≡ true) ↔ (a ≡ b)
str_eq_iff = str_iff

pub Bool-cases : (b : Bool) → (b ≡ true) ⊎ (b ≡ false)
Bool-cases true = inl refl
Bool-cases false = inr refl

pub Option-cases {ℓ} : {A : Type ℓ} (o : Option A) → (o ≡ none) ⊎ ((a : A) × (o ≡ some a))
Option-cases none = inl refl
Option-cases (some a) = inr (a, refl)

pub texts_differ : (a b : String) → (a == b) ≡ false → a ≢ b
texts_differ a b h = ground (arith, h, str_eq_iff a b)
