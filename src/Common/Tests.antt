-- ===== src/Common/Tests.antt =====
-- Boolean tests, the conditional, and equality as an interface.
use Prim.Native.Nat.{ℕ, compare, Ordering}
use Prim.Native.String.{String}
use mathlib.Core.Path.{◌≡◌, refl}
use mathlib.Core.Logic.{◌↔◌, ◌⊎◌, inl, inr}
use mathlib.Core.Bool.{Bool, true, false, ◌&&◌, ◌||◌}
use mathlib.Core.Option.{Option, none, some}
use native.Mathlib.Omega.{arith}
use text.Mathlib.Text.{◌==◌ as str_beq}
use text.Mathlib.TextEquality.{eq_iff}

abbrev pub ltb : ℕ → ℕ → Bool
ltb a b = elim (compare a b) [ Ordering.lt ↦ true | _ ↦ false ]

abbrev pub leb : ℕ → ℕ → Bool
leb a b = elim (compare a b) [ Ordering.gt ↦ false | _ ↦ true ]

abbrev pub nat_beq : ℕ → ℕ → Bool
nat_beq a b = elim (compare a b) [ Ordering.eq ↦ true | _ ↦ false ]

pub nat_beq_iff : (a b : ℕ) → (nat_beq a b ≡ true) ↔ (a ≡ b)
nat_beq_iff a b = ground arith

infix 1 if◌then◌else◌
abbrev pub if◌then◌else◌ {ℓ} : {A : Type ℓ} → Bool → A → A → A
if true then x else y = x
if false then x else y = y

-- Go's comparable types: `==` is a test that decides equality.
pub record Comparable {ℓ} (K : Type ℓ) : Type ℓ where
  pub same : K → K → Bool
  pub same_refl : (k : K) → same k k ≡ true
  pub same-eq : (j k : K) → same j k ≡ true → j ≡ k

instance abbrev pub string_eq : Comparable String
string_eq = record {
  same = λ s t. str_beq s t;
  same_refl = λ s. (eq_iff s s).1 refl;
  same-eq = λ s t. (eq_iff s t).0;
}

instance abbrev pub nat_eq : Comparable ℕ
nat_eq = record {
  same = λ m n. nat_beq m n;
  same_refl = λ m. (nat_beq_iff m m).1 refl;
  same-eq = λ m n. (nat_beq_iff m n).0;
}

infix 50 ◌==◌
abbrev pub ◌==◌ {ℓ} : {K : Type ℓ} ⦃c : Comparable K⦄ → K → K → Bool
◌==◌ ⦃c⦄ j k = c.same j k

pub ==_refl {ℓ} : {K : Type ℓ} ⦃c : Comparable K⦄ (k : K) → (k == k) ≡ true
==_refl ⦃c⦄ k = c.same_refl k

pub ==_iff {ℓ} : {K : Type ℓ} ⦃c : Comparable K⦄ (j k : K) → ((j == k) ≡ true) ↔ (j ≡ k)
==_iff ⦃c⦄ j k = (c.same-eq j k, λ e. rw e (c.same_refl k))

-- To split on a computed value and keep the equation.
pub Bool-cases : (b : Bool) → (b ≡ true) ⊎ (b ≡ false)
Bool-cases true = inl refl
Bool-cases false = inr refl

pub Option-cases {ℓ} : {A : Type ℓ} (o : Option A) → (o ≡ none) ⊎ ((a : A) × (o ≡ some a))
Option-cases none = inl refl
Option-cases (some a) = inr (a, refl)

-- The parts of a conjunction that holds, and of a disjunction whose first part does not.
pub and-true : (a b : Bool) → (a && b) ≡ true → (a ≡ true) × (b ≡ true)
and-true true b h = (refl, h)
and-true false b h = cc

pub or-true : (a b : Bool) → (a || b) ≡ true → a ≡ false → b ≡ true
or-true true b h e = cc
or-true false b h e = h
