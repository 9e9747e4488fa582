-- ===== src/Prelude/Lists.antt =====
-- Lists measured by native numbers and filtered by Boolean tests.
use Prim.Native.Nat.{ℕ, zero, suc}
use mathlib.Core.Path.{◌≡◌, refl, subst}
use mathlib.Core.Logic.{inl, inr}
use mathlib.Core.Bool.{Bool, true, false, ◌&&◌, ◌||◌}
use mathlib.Core.List.{List, [], ◌∷◌, ◌++◌}
use mathlib.Core.Option.{Option, none, some}
use native.Mathlib.Omega.{arith}
use verity_mem.Prelude.Tests.{if◌then◌else◌, Bool-cases}

module _ {ℓ} {A : Type ℓ} where
  abbrev pub length : List A → ℕ
  length [] = 0
  length (x ∷ xs) = suc (length xs)

  abbrev pub is_empty : List A → Bool
  is_empty [] = true
  is_empty (x ∷ xs) = false

  abbrev pub filter : (A → Bool) → List A → List A
  filter p [] = []
  filter p (x ∷ xs) = let rest = filter p xs in if p x then x ∷ rest else rest

  abbrev pub any : (A → Bool) → List A → Bool
  any p [] = false
  any p (x ∷ xs) = p x || any p xs

  abbrev pub all : (A → Bool) → List A → Bool
  all p [] = true
  all p (x ∷ xs) = p x && all p xs

  abbrev pub find : (A → Bool) → List A → Option A
  find p [] = none
  find p (x ∷ xs) = let rest = find p xs in if p x then some x else rest

  abbrev pub take : ℕ → List A → List A
  take zero xs = []
  take (suc n) [] = []
  take (suc n) (x ∷ xs) = x ∷ take n xs

  abbrev pub drop : ℕ → List A → List A
  drop zero xs = xs
  drop (suc n) [] = []
  drop (suc n) (x ∷ xs) = drop n xs

  pub find-true : (p : A → Bool) (xs : List A) {x : A} → find p xs ≡ some x → p x ≡ true
  find-true p [] h = cc
  find-true p (y ∷ ys) {x} h = ground (arith, find-true p ys {x = x})

  pub any_of-find : (p : A → Bool) (xs : List A) → find p xs ≡ none → any p xs ≡ false
  any_of-find p [] h = refl
  any_of-find p (x ∷ xs) h = ground (arith, any_of-find p xs)

  abbrev pub All {κ} : (A → Type κ) → List A → Type κ
  All P [] = Unit
  All P (x ∷ xs) = P x × All P xs

  pub All-map {κ ν} :
      (P : A → Type κ) (Q : A → Type ν)
      → ((x : A) → P x → Q x)
      → (xs : List A) → All P xs
      → All Q xs
  All-map P Q f [] h = tt
  All-map P Q f (x ∷ xs) h = (f x h.0, All-map P Q f xs h.1)

  pub find-All {κ} :
      (P : A → Type κ) (p : A → Bool) (xs : List A) {x : A} → All P xs → find p xs ≡ some x → P x
  find-All P p [] h e = absurd (cc e)
  find-All P p (y ∷ ys) {x} h e = elim (Bool-cases (p y)) [
    | inl on ↦
        let same : some y ≡ some x = rw on at e in let here : y ≡ x = cc same in subst P here h.0
    | inr off ↦ find-All P p ys h.1 (rw off at e)
  ]

-- Two lists of one length, related element by element.
module _ {ℓ κ} {A : Type ℓ} {B : Type κ} where
  abbrev pub All₂ : (A → B → Type 0) → List A → List B → Type 0
  All₂ R [] [] = Unit
  All₂ R [] (y ∷ ys) = ⊥
  All₂ R (x ∷ xs) [] = ⊥
  All₂ R (x ∷ xs) (y ∷ ys) = R x y × All₂ R xs ys

  pub All₂-All :
      (R : A → B → Type 0) (P : A → Type 0) (Q : B → Type 0)
      → ((x : A) (y : B) → R x y → P x → Q y)
      → (xs : List A) (ys : List B) → All₂ R xs ys
      → All P xs
      → All Q ys
  All₂-All R P Q step [] [] r p = tt
  All₂-All R P Q step [] (y ∷ ys) r p = absurd r
  All₂-All R P Q step (x ∷ xs) [] r p = absurd r
  All₂-All R P Q step (x ∷ xs) (y ∷ ys) r p = (step x y r.0 p.0, All₂-All R P Q step xs ys r.1 p.1)

pub All₂-trans {ℓ} :
    {A : Type ℓ} (R : A → A → Type 0)
    → ((x y z : A) → R x y → R y z → R x z)
    → (xs ys zs : List A) → All₂ R xs ys
    → All₂ R ys zs
    → All₂ R xs zs
All₂-trans R step [] [] [] r s = tt
All₂-trans R step [] [] (z ∷ zs) r s = absurd s
All₂-trans R step [] (y ∷ ys) zs r s = absurd r
All₂-trans R step (x ∷ xs) [] zs r s = absurd r
All₂-trans R step (x ∷ xs) (y ∷ ys) [] r s = absurd s
All₂-trans R step (x ∷ xs) (y ∷ ys) (z ∷ zs) r s =
    (step x y z r.0 s.0, All₂-trans R step xs ys zs r.1 s.1)

pub All₂-refl {ℓ} :
    {A : Type ℓ} (R : A → A → Type 0) → ((x : A) → R x x) → (xs : List A) → All₂ R xs xs
All₂-refl R same [] = tt
All₂-refl R same (x ∷ xs) = (same x, All₂-refl R same xs)

pub append_assoc : {A : Type 0} (xs ys zs : List A) → (xs ++ ys) ++ zs ≡ xs ++ (ys ++ zs)
append_assoc [] ys zs = refl
append_assoc (x ∷ xs) ys zs = cc (append_assoc xs ys zs)

pub append_nil : {A : Type 0} (xs : List A) → xs ++ [] ≡ xs
append_nil [] = refl
append_nil (x ∷ xs) = cc (append_nil xs)

pub some-injective : {A : Type 0} {a b : A} → some a ≡ some b → a ≡ b
some-injective h = cc

pub any-front :
    {A : Type 0} (p : A → Bool) (xs ys : List A) → any p xs ≡ true → any p (xs ++ ys) ≡ true
any-front p [] ys h = absurd (cc h)
any-front p (x ∷ xs) ys h = elim (Bool-cases (p x)) [
  | inl hit ↦ rw hit refl
  | inr miss ↦ rw miss (any-front p xs ys (rw miss at h))
]

pub All-append :
    {A : Type 0} (P : A → Type 0) (xs ys : List A) → All P xs → All P ys → All P (xs ++ ys)
All-append P [] ys h k = k
All-append P (x ∷ xs) ys h k = (h.0, All-append P xs ys h.1 k)
