-- ===== src/Prelude/Keys.antt =====
-- Rows that a number identifies: which keys a selection holds, and the entries of a list of keys.
use Prim.Native.Nat.{ℕ}
use mathlib.Core.Path.{◌≡◌}
use mathlib.Core.Logic.{inl, inr}
use mathlib.Core.Bool.{Bool, false}
use mathlib.Core.List.{List, [], ◌∷◌}
use native.Mathlib.Omega.{arith}
use verity_mem.Prelude.Tests.{◌=?◌, Bool-cases}
use mathlib.Core.Option.{some}
use verity_mem.Prelude.Lists.{filter, find, All, All-map}
use verity_mem.Prelude.Equality.{contains, nat_eq}

module _ {ℓ} {A : Type ℓ} where
  pub All-zip {κ ν} :
      (P : A → Type κ) (Q : A → Type ν) (xs : List A)
      → All P xs
      → All Q xs
      → All (λ x. P x × Q x) xs
  All-zip P Q [] p q = tt
  All-zip P Q (x ∷ xs) p q = ((p.0, q.0), All-zip P Q xs p.1 q.1)

  pub All-every {κ} : (P : A → Type κ) → ((x : A) → P x) → (xs : List A) → All P xs
  All-every P f [] = tt
  All-every P f (x ∷ xs) = (f x, All-every P f xs)

module _ {ℓ} {A : Type ℓ} (key : A → ℕ) where
  abbrev pub keys_of : List A → List ℕ
  keys_of [] = []
  keys_of (x ∷ xs) = key x ∷ keys_of xs

  -- No two rows have one key.
  abbrev pub IsUnique : List A → Type 0
  IsUnique [] = Unit
  IsUnique (x ∷ xs) = (contains (keys_of xs) (key x) ≡ false) × IsUnique xs

  keys-others :
      (id : ℕ) (xs : List A)
      → contains (keys_of xs) id ≡ false
      → All (λ y. (id =? key y) ≡ false) xs
  keys-others id [] h = tt
  keys-others id (x ∷ xs) h = (ground arith, keys-others id xs (ground arith))

  keys-filter_absent :
      (p : A → Bool) (id : ℕ) (xs : List A)
      → contains (keys_of xs) id ≡ false
      → contains (keys_of (filter p xs)) id ≡ false
  keys-filter_absent p id [] h = h
  keys-filter_absent p id (x ∷ xs) h =
      let rest = keys-filter_absent p id xs (ground arith) in ground arith

  -- A selection by a test holds a row's key exactly when the test holds of that row.
  pub keys-filter :
      (p : A → Bool) (xs : List A)
      → IsUnique xs
      → All (λ x. contains (keys_of (filter p xs)) (key x) ≡ p x) xs
  keys-filter p [] h = tt
  keys-filter p (x ∷ xs) h = (
    let none = keys-filter_absent p (key x) xs h.0 in ground arith,
    All-map _ _ (λ y both. let (a, b) = both in ground arith) xs
        (All-zip _ _ xs (keys-others (key x) xs h.0) (keys-filter p xs h.1)),
  )

  -- A row of a keyed table is the row of its key.
  pub find-IsUnique :
      (xs : List A) → IsUnique xs → All (λ x. find (λ y. key y =? key x) xs ≡ some x) xs
  find-IsUnique [] h = tt
  find-IsUnique (x ∷ xs) h = (
    ground arith,
    All-map _ _ (λ y both. let (a, b) = both in ground arith) xs
        (All-zip _ _ xs (keys-others (key x) xs h.0) (find-IsUnique xs h.1)),
  )

pub All-kept {ℓ κ} :
    {A : Type ℓ} (P : A → Type κ) (q : A → Bool) (xs : List A) → All P xs → All P (filter q xs)
All-kept P q [] h = tt
All-kept P q (x ∷ xs) h = elim (Bool-cases (q x)) [
  | inl hit ↦ rw hit (h.0, All-kept P q xs h.1)
  | inr miss ↦ rw miss (All-kept P q xs h.1)
]
