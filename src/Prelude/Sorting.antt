-- ===== src/Prelude/Sorting.antt =====
-- A stable sort by a numeric key, and what it keeps.
use Prim.Native.Nat.{ℕ, zero, suc, ◌≤◌}
use mathlib.Core.Path.{◌≡◌, refl}
use mathlib.Core.Logic.{inl, inr}
use mathlib.Core.Bool.{Bool, true, ◌&&◌, ◌||◌}
use mathlib.Core.List.{List, [], ◌∷◌}
use mathlib.Core.Option.{some}
use native.Mathlib.Omega.{arith}
use verity_mem.Prelude.Tests.{leb, if◌then◌else◌, Bool-cases}
use verity_mem.Prelude.Lists.{length, take, drop, filter, any, find, All, All-map}

module _ {ℓ} {A : Type ℓ} (key : A → ℕ) where
  abbrev pub insert_on : A → List A → List A
  insert_on a [] = a ∷ []
  insert_on a (x ∷ xs) =
      let rest = insert_on a xs in if leb (key a) (key x) then a ∷ x ∷ xs else x ∷ rest

  abbrev pub sort_on : List A → List A
  sort_on [] = []
  sort_on (x ∷ xs) = insert_on x (sort_on xs)

  length-insert_on : (a : A) (xs : List A) → length (insert_on a xs) ≡ suc (length xs)
  length-insert_on a [] = refl
  length-insert_on a (x ∷ xs) = ground (arith, length-insert_on a xs)

  pub length-sort_on : (xs : List A) → length (sort_on xs) ≡ length xs
  length-sort_on [] = refl
  length-sort_on (x ∷ xs) = ground (arith, length-insert_on x (sort_on xs), length-sort_on xs)

  pub All-insert_on {κ} :
      (P : A → Type κ) (a : A) (xs : List A) → P a → All P xs → All P (insert_on a xs)
  All-insert_on P a [] pa h = (pa, tt)
  All-insert_on P a (x ∷ xs) pa h = elim (Bool-cases (leb (key a) (key x))) [
    | inl first ↦ rw first (pa, h)
    | inr later ↦ rw later (h.0, All-insert_on P a xs pa h.1)
  ]

  pub All-sort_on {κ} : (P : A → Type κ) (xs : List A) → All P xs → All P (sort_on xs)
  All-sort_on P [] h = tt
  All-sort_on P (x ∷ xs) h = All-insert_on P x (sort_on xs) h.0 (All-sort_on P xs h.1)

  any-insert_on : (p : A → Bool) (a : A) (xs : List A) → any p (insert_on a xs) ≡ any p (a ∷ xs)
  any-insert_on p a [] = refl
  any-insert_on p a (x ∷ xs) = ground (arith, any-insert_on p a xs)

  -- No element is lost or made up.
  pub any-sort_on : (p : A → Bool) (xs : List A) → any p (sort_on xs) ≡ any p xs
  any-sort_on p [] = refl
  any-sort_on p (x ∷ xs) = ground (arith, any-insert_on p x (sort_on xs), any-sort_on p xs)

  -- In ascending order of the key.
  abbrev pub IsAscending : List A → Type 0
  IsAscending [] = Unit
  IsAscending (x ∷ xs) = All (λ y. key x ≤ key y) xs × IsAscending xs

  raise_bound : (m n : ℕ) (xs : List A) → m ≤ n → All (λ y. n ≤ key y) xs → All (λ y. m ≤ key y) xs
  raise_bound m n [] le h = tt
  raise_bound m n (x ∷ xs) le h =
      let low : n ≤ key x = h.0 in (omega arith, raise_bound m n xs le h.1)

  insert_on-IsAscending : (a : A) (xs : List A) → IsAscending xs → IsAscending (insert_on a xs)
  insert_on-IsAscending a [] h = (tt, tt)
  insert_on-IsAscending a (x ∷ xs) h = elim (Bool-cases (leb (key a) (key x))) [
    | inl first ↦
        let le : key a ≤ key x = ground arith in
        rw first ((le, raise_bound (key a) (key x) xs le h.0), h)
    | inr later ↦
        let le : key x ≤ key a = ground arith in
        rw later (All-insert_on (λ y. key x ≤ key y) a xs le h.0, insert_on-IsAscending a xs h.1)
  ]

  pub sort_on-IsAscending : (xs : List A) → IsAscending (sort_on xs)
  sort_on-IsAscending [] = tt
  sort_on-IsAscending (x ∷ xs) = insert_on-IsAscending x (sort_on xs) (sort_on-IsAscending xs)

module _ {ℓ} {A : Type ℓ} where
  pub All-take {κ} : (P : A → Type κ) (n : ℕ) (xs : List A) → All P xs → All P (take n xs)
  All-take P zero xs h = tt
  All-take P (suc n) [] h = tt
  All-take P (suc n) (x ∷ xs) h = (h.0, All-take P n xs h.1)

  pub All-drop {κ} : (P : A → Type κ) (n : ℕ) (xs : List A) → All P xs → All P (drop n xs)
  All-drop P zero xs h = h
  All-drop P (suc n) [] h = tt
  All-drop P (suc n) (x ∷ xs) h = All-drop P n xs h.1

  pub any-take : (p : A → Bool) (n : ℕ) (xs : List A) → any p (take n xs) ≡ true → any p xs ≡ true
  any-take p zero xs h = cc h
  any-take p (suc n) [] h = h
  any-take p (suc n) (x ∷ xs) h = ground (arith, any-take p n xs)

  pub length-take-le : (n : ℕ) (xs : List A) → length (take n xs) ≤ n
  length-take-le zero xs = omega arith
  length-take-le (suc n) [] = omega arith
  length-take-le (suc n) (x ∷ xs) = omega (arith, length-take-le n xs)

  -- What is taken from the front of an ascending list is not above what is left.
  pub take-le-drop :
      (key : A → ℕ) (n : ℕ) (xs : List A)
      → IsAscending key xs
      → All (λ x. All (λ y. key x ≤ key y) (drop n xs)) (take n xs)
  take-le-drop key zero xs h = tt
  take-le-drop key (suc n) [] h = tt
  take-le-drop key (suc n) (x ∷ xs) h =
      (All-drop (λ y. key x ≤ key y) n xs h.0, take-le-drop key n xs h.1)

  pub any-take-drop :
      (p : A → Bool) (n : ℕ) (xs : List A) → any p xs ≡ (any p (take n xs) || any p (drop n xs))
  any-take-drop p zero xs = refl
  any-take-drop p (suc n) [] = refl
  any-take-drop p (suc n) (x ∷ xs) = ground (arith, any-take-drop p n xs)

  -- Something is left only when as much was taken as was asked for.
  pub length-take-full :
      (p : A → Bool) (n : ℕ) (xs : List A) → any p (drop n xs) ≡ true → length (take n xs) ≡ n
  length-take-full p zero xs h = refl
  length-take-full p (suc n) [] h = absurd (cc h)
  length-take-full p (suc n) (x ∷ xs) h = omega (arith, length-take-full p n xs h)

  pub any-filter : (p q : A → Bool) (xs : List A) → any p (filter q xs) ≡ any (λ x. q x && p x) xs
  any-filter p q [] = refl
  any-filter p q (x ∷ xs) = ground (arith, any-filter p q xs)

  -- A test that holds somewhere holds of an element with what all elements have.
  pub any-All {κ} :
      (P : A → Type κ) (p : A → Bool) (xs : List A)
      → any p xs ≡ true
      → All P xs
      → (x : A) × ((p x ≡ true) × P x)
  any-All P p [] h all = absurd (cc h)
  any-All P p (x ∷ xs) h all = elim (Bool-cases (p x)) [
    | inl hit ↦ (x, (hit, all.0))
    | inr miss ↦ any-All P p xs (rw miss at h) all.1
  ]

  pub All-filter : (q : A → Bool) (xs : List A) → All (λ x. q x ≡ true) (filter q xs)
  All-filter q [] = tt
  All-filter q (x ∷ xs) = elim (Bool-cases (q x)) [
    | inl hit ↦ rw hit (hit, All-filter q xs)
    | inr miss ↦ rw miss (All-filter q xs)
  ]

  pub All-self :
      (test : A → A → Bool)
      → ((x : A) → test x x ≡ true)
      → (xs : List A) → All (λ x. any (test x) xs ≡ true) xs
  All-self test same [] = tt
  All-self test same (x ∷ xs) = (
    ground (arith, same x),
    All-map (λ y. any (test y) xs ≡ true) (λ y. any (test y) (x ∷ xs) ≡ true) (λ y h. ground arith)
        xs (All-self test same xs),
  )

  pub any_mono :
      (p q : A → Bool) (xs : List A)
      → ((x : A) → p x ≡ true → q x ≡ true)
      → any p xs ≡ true
      → any q xs ≡ true
  any_mono p q [] up h = h
  any_mono p q (x ∷ xs) up h = ground (arith, up x, any_mono p q xs up)

  pub find-any : (p : A → Bool) (xs : List A) {x : A} → find p xs ≡ some x → any p xs ≡ true
  find-any p [] h = absurd (cc h)
  find-any p (y ∷ xs) {x} h = ground (arith, find-any p xs {x = x})
