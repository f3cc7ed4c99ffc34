-- ===== src/Base/Same.antt =====
-- Equality tests as an interface, and its instances.
use Prim.Native.String.{String}
use text.Mathlib.Text.{◌==◌ as str_beq}
use text.Mathlib.TextEquality.{eq_iff}
use mathlib.Core.Path.{◌≡◌, refl}
use mathlib.Core.Logic.{◌↔◌}
use mathlib.Core.Bool.{Bool, true, false}
use mathlib.Core.Option.{Option, none, some}
use mathlib.Core.List.{List, [], ◌∷◌}
use native.Mathlib.Omega.{arith}
use Prim.Native.Nat.{ℕ}
use ha_int_gcast.Base.Tests.{nat_beq, nat_beq_iff, if◌then◌else◌}

-- Python's `a == b` on a type: a test that answers for the path.
pub record Equality {ℓ} (A : Type ℓ) : Type ℓ where
  pub test : A → A → Bool
  pub to_path : (a b : A) → test a b ≡ true → a ≡ b
  pub of_same : (a : A) → test a a ≡ true

instance abbrev pub nat_eq : Equality ℕ
nat_eq = record {
  test = nat_beq;
  to_path = λ a b. (nat_beq_iff a b).0;
  of_same = λ a. (nat_beq_iff a a).1 refl;
}

instance abbrev pub string_eq : Equality String
string_eq = record {
  test = str_beq;
  to_path = λ a b. (eq_iff a b).0;
  of_same = λ a. (eq_iff a a).1 refl;
}

module _ {ℓ} {A : Type ℓ} ⦃e : Equality A⦄ where
  infix 50 ◌==◌
  abbrev pub ◌==◌ : A → A → Bool
  a == b = e.test a b

  pub ==-refl : (a : A) → (a == a) ≡ true
  ==-refl = e.of_same

  pub same_iff : (a b : A) → ((a == b) ≡ true) ↔ (a ≡ b)
  same_iff a b = (e.to_path a b, λ p. rw (← p) (e.of_same a))

  abbrev pub option_beq : Option A → Option A → Bool
  option_beq none none = true
  option_beq (some a) (some b) = a == b
  option_beq none (some b) = false
  option_beq (some a) none = false

  pub option_beq_iff : (a b : Option A) → (option_beq a b ≡ true) ↔ (a ≡ b)
  option_beq_iff none none = ground arith
  option_beq_iff (some a) (some b) = ground (arith, same_iff a b)
  option_beq_iff none (some b) = ground arith
  option_beq_iff (some a) none = ground arith

  -- `x in xs`
  abbrev pub contains : A → List A → Bool
  contains a [] = false
  contains a (x ∷ xs) = if x == a then true else contains a xs
