-- ===== src/Prelude/Equality.antt =====
-- Decidable equality as an instance, and membership in a list (`Array.prototype.includes`).
use Prim.Native.Nat.{ℕ}
use Prim.Native.String.{String}
use mathlib.Core.Path.{◌≡◌, refl}
use mathlib.Core.Logic.{◌↔◌, inl, inr}
use mathlib.Core.Bool.{Bool, true, false, ◌||◌}
use mathlib.Core.List.{List, [], ◌∷◌, ◌++◌}
use mathlib.Core.Option.{Option, none, some}
use native.Mathlib.Omega.{arith}
use text.Mathlib.Text.{◌==◌ as str_eq}
use text.Mathlib.TextEquality.{eq_iff}
use verity_mem.Prelude.Tests.{◌=?◌, =?_iff, if◌then◌else◌, Bool-cases}

-- A Boolean test that decides the equality of a type.
pub record Eq {ℓ} (A : Type ℓ) : Type ℓ where
  pub test : (x y : A) → Bool
  pub test_iff : (x y : A) → (test x y ≡ true) ↔ (x ≡ y)

instance abbrev pub nat_eq : Eq ℕ
nat_eq = record { test = ◌=?◌; test_iff = =?_iff }

infix 50 ◌==◌
abbrev pub ◌==◌ {ℓ} : {A : Type ℓ} ⦃e : Eq A⦄ (x y : A) → Bool
◌==◌ ⦃e⦄ x y = e.test x y

instance abbrev pub string_eq : Eq String
string_eq = record { test = str_eq; test_iff = eq_iff }

abbrev pub option_beq {ℓ} : {A : Type ℓ} ⦃e : Eq A⦄ → Option A → Option A → Bool
option_beq none none = true
option_beq none (some b) = false
option_beq (some a) none = false
option_beq (some a) (some b) = a == b

pub option_beq_iff {ℓ} :
    {A : Type ℓ} ⦃e : Eq A⦄ (a b : Option A) → (option_beq a b ≡ true) ↔ (a ≡ b)
option_beq_iff none none = (λ h. refl, λ h. refl)
option_beq_iff none (some b) = (λ h. cc, λ h. cc)
option_beq_iff (some a) none = (λ h. cc, λ h. cc)
option_beq_iff ⦃e⦄ (some a) (some b) =
    (λ h. cc ((e.test_iff a b).0 h), λ h. (e.test_iff a b).1 (cc))

instance abbrev pub option_eq {ℓ} : {A : Type ℓ} ⦃e : Eq A⦄ → Eq (Option A)
option_eq = record { test = option_beq; test_iff = option_beq_iff }

module _ {ℓ} {A : Type ℓ} ⦃e : Eq A⦄ where
  abbrev pub contains : List A → A → Bool
  contains [] a = false
  contains (x ∷ xs) a = x == a || contains xs a

  -- `Set` insertion order: the first of equal elements is kept.
  abbrev pub unique_from : List A → List A → List A
  unique_from seen [] = []
  unique_from seen (x ∷ xs) =
      let rest = unique_from seen xs in
      let kept = x ∷ unique_from (x ∷ seen) xs in if contains seen x then rest else kept

  abbrev pub unique : List A → List A
  unique xs = unique_from [] xs

  pub beq_refl : (a : A) → (a == a) ≡ true
  beq_refl a = (e.test_iff a a).1 refl

  pub contains-append :
      (xs ys : List A) (a : A) → contains (xs ++ ys) a ≡ (contains xs a || contains ys a)
  contains-append [] ys a = refl
  contains-append (x ∷ xs) ys a = ground (arith, contains-append xs ys a)

  -- A code that is already in the set is not written twice, and none is lost.
  pub contains-unique_from :
      (seen xs : List A) (a : A)
      → (contains seen a || contains (unique_from seen xs) a) ≡ (contains seen a || contains xs a)
  contains-unique_from seen [] a = refl
  contains-unique_from seen (x ∷ xs) a = elim (Bool-cases (contains seen x)) [
    | inl old ↦ rw old (ground (arith, contains-unique_from seen xs a, e.test_iff x a))
    | inr new ↦ rw new (ground (arith, contains-unique_from (x ∷ seen) xs a))
  ]

  pub contains-unique : (xs : List A) (a : A) → contains (unique xs) a ≡ contains xs a
  contains-unique xs a = contains-unique_from [] xs a
