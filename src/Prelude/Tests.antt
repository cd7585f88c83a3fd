-- ===== src/Prelude/Tests.antt =====
-- The conditional, the tests on numbers, and `===` as one operator over the types that it compares.
use Prim.Native.Nat.{ℕ, ◌<◌, compare, Ordering}
use Prim.Native.String.{String}
use mathlib.Core.Path.{◌≡◌, refl, ap}
use mathlib.Core.Logic.{◌↔◌, ◌⊎◌, inl, inr}
use mathlib.Core.Bool.{Bool, true, false, not}
use mathlib.Core.Option.{Option, none, some}
use native.Mathlib.Omega.{arith}
use text.Mathlib.Text.{◌==◌ as str_eq}
use text.Mathlib.TextEquality.{eq_iff}

abbrev pub ltb : ℕ → ℕ → Bool
ltb a b = elim (compare a b) [ Ordering.lt ↦ true | _ ↦ false ]

abbrev pub leb : ℕ → ℕ → Bool
leb a b = elim (compare a b) [ Ordering.gt ↦ false | _ ↦ true ]

abbrev nat_eq : ℕ → ℕ → Bool
nat_eq a b = elim (compare a b) [ Ordering.eq ↦ true | _ ↦ false ]

infix 1 if◌then◌else◌
abbrev pub if◌then◌else◌ {ℓ} : {A : Type ℓ} → Bool → A → A → A
if true then x else y = x
if false then x else y = y

pub ltb→lt : (a b : ℕ) → ltb a b ≡ true → a < b
ltb→lt a b h = ground arith

pub nat_eq_iff : (a b : ℕ) → (nat_eq a b ≡ true) ↔ (a ≡ b)
nat_eq_iff a b = ground arith

pub Bool-cases : (b : Bool) → (b ≡ true) ⊎ (b ≡ false)
Bool-cases true = inl refl
Bool-cases false = inr refl

pub not-false : (b : Bool) → not b ≡ false → b ≡ true
not-false true h = refl
not-false false h = cc

pub not_true : {b : Bool} → ¬ (b ≡ true) → b ≡ false
not_true {b = true} n = absurd (n refl)
not_true {b = false} n = refl

pub Option-cases {ℓ} : {A : Type ℓ} (o : Option A) → (o ≡ none) ⊎ ((a : A) × (o ≡ some a))
Option-cases none = inl refl
Option-cases (some a) = inr (a, refl)

pub some_inj {ℓ} : {A : Type ℓ} {a b : A} → some a ≡ some b → a ≡ b
some_inj e = cc

-- A type whose values `===` tells apart.
pub record Comparable {ℓ} (A : Type ℓ) : Type ℓ where
  pub equals : (a b : A) → Bool
  pub equals_iff : (a b : A) → (equals a b ≡ true) ↔ (a ≡ b)

instance abbrev pub String-eq : Comparable String
String-eq = record { equals_iff = eq_iff; equals = str_eq }

instance abbrev pub ℕ-eq : Comparable ℕ
ℕ-eq = record { equals_iff = nat_eq_iff; equals = nat_eq }

module _ {ℓ} {A : Type ℓ} ⦃c : Comparable A⦄ where
  infix 50 ◌==◌ ◌!=◌
  abbrev pub ◌==◌ : (a b : A) → Bool
  a == b = c.equals a b

  abbrev pub ◌!=◌ : (a b : A) → Bool
  a != b = not (a == b)

module _ {ℓ} {A : Type ℓ} ⦃e : Comparable A⦄ where
  abbrev option_eq : Option A → Option A → Bool
  option_eq none none = true
  option_eq (some a) (some b) = a == b
  option_eq _ _ = false

  pub option_eq_iff : (a b : Option A) → (option_eq a b ≡ true) ↔ (a ≡ b)
  option_eq_iff none none = ground arith
  option_eq_iff none (some b) = ground arith
  option_eq_iff (some a) none = ground arith
  option_eq_iff (some a) (some b) =
      (λ h. ap some ((e.equals_iff a b).0 h), λ h. ground (arith, e.equals_iff a b))

  instance abbrev pub Option-eq : Comparable (Option A)
  Option-eq = record { equals = option_eq; equals_iff = option_eq_iff }

pub eq-true {ℓ} : {A : Type ℓ} ⦃e : Comparable A⦄ (a : A) → (a == a) ≡ true
eq-true ⦃e⦄ a = (e.equals_iff a a).1 refl
