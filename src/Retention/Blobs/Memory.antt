-- ===== src/Retention/Blobs/Memory.antt =====
-- `MemoryBlobStore` of packages/ledger/src/blobs.ts: a `Map` from digest to bytes. `sha256` is a
-- parameter of which nothing is assumed, and a ref is its digest.
use verity_mem.Prelude.{
  ℕ, ◌≡◌, refl, ◌⊎◌, Bool, true, false, not, Option, none, some, List, [], ◌∷◌, any, contains,
  nat_eq, ◌=?◌, if◌then◌else◌, arith, sort_on, any-sort_on,
}
use verity_mem.Ledger.Spans.{Bytes}
use verity_mem.Retention.Blobs.{BlobStore, IsLawful}

pub record Blob : Type 0 where
  pub digest : ℕ
  pub bytes : Bytes

-- `Map.set`: a digest that is there keeps its place.
unfoldable pub set_blob : Blob → List Blob → List Blob
set_blob b [] = b ∷ []
set_blob b (x ∷ xs) = let rest = set_blob b xs in if x.digest =? b.digest then b ∷ xs else x ∷ rest

abbrev pub digests : List Blob → List ℕ
digests [] = []
digests (b ∷ blobs) = b.digest ∷ digests blobs

-- `get`.
unfoldable pub get_blob : ℕ → List Blob → Option Bytes
get_blob ref [] = none
get_blob ref (b ∷ blobs) =
    let rest = get_blob ref blobs in if b.digest =? ref then some b.bytes else rest

-- `exists`.
unfoldable pub has_blob : ℕ → List Blob → Bool
has_blob ref blobs = contains (digests blobs) ref

unfoldable pub drop_blob : ℕ → List Blob → List Blob
drop_blob ref [] = []
drop_blob ref (b ∷ blobs) =
    let rest = drop_blob ref blobs in if b.digest =? ref then rest else b ∷ rest

-- `delete`.
unfoldable pub delete_blob : ℕ → List Blob → Bool × List Blob
unfolding drop_blob has_blob
delete_blob ref blobs = (not (has_blob ref (drop_blob ref blobs)), drop_blob ref blobs)

-- `sweep`, in the order of the refs.
unfoldable pub sweep_blobs : List Blob → List ℕ
sweep_blobs blobs = sort_on (λ (r : ℕ). r) (digests blobs)

abbrev pub memory_store : BlobStore
memory_store = record {
  State = List Blob;
  supports_deletion = true;
  delete = delete_blob;
  sweep = sweep_blobs;
}

module _ (sha256 : Bytes → ℕ) where
  -- `put`, which returns the ref.
  unfoldable pub put_blob : Bytes → List Blob → ℕ × List Blob
  unfolding set_blob
  put_blob bytes blobs =
      (sha256 bytes, set_blob (record { digest = sha256 bytes; bytes = bytes }) blobs)

contains-any : (xs : List ℕ) (a : ℕ) → contains xs a ≡ any (λ x. x =? a) xs
contains-any [] a = refl
contains-any (x ∷ xs) a = ground (arith, contains-any xs a)

pub sweep_blobs-has :
    (ref : ℕ) (blobs : List Blob) → contains (sweep_blobs blobs) ref ≡ has_blob ref blobs
unfolding sweep_blobs has_blob
sweep_blobs-has ref blobs = rw (contains-any, any-sort_on) (cc (contains-any (digests blobs) ref))

drop_blob-absent : (ref : ℕ) (blobs : List Blob) → has_blob ref (drop_blob ref blobs) ≡ false
unfolding drop_blob has_blob
drop_blob-absent ref [] = refl
drop_blob-absent ref (b ∷ blobs) = ground (arith, drop_blob-absent ref blobs)

drop_blob-others :
    (ref other : ℕ) (blobs : List Blob)
    → (ref =? other) ≡ false
    → has_blob other (drop_blob ref blobs) ≡ has_blob other blobs
unfolding drop_blob has_blob
drop_blob-others ref other [] apart = refl
drop_blob-others ref other (b ∷ blobs) apart =
    ground (arith, drop_blob-others ref other blobs apart)

drop_blob-shrinks :
    (ref other : ℕ) (blobs : List Blob)
    → has_blob other blobs ≡ false
    → has_blob other (drop_blob ref blobs) ≡ false
unfolding drop_blob has_blob
drop_blob-shrinks ref other [] gone = refl
drop_blob-shrinks ref other (b ∷ blobs) gone =
    let rest = drop_blob-shrinks ref other blobs (ground arith) in ground arith

-- The store in memory meets the contract of the interface: a deletion always ends with the object
-- absent, and it takes nothing else away.
pub memory_store-IsLawful : IsLawful memory_store
unfolding delete_blob
memory_store-IsLawful = record {
  delete-absent = λ ref s h. rw sweep_blobs-has (drop_blob-absent ref s);
  delete-others = λ ref other s apart.
      rw (sweep_blobs-has, sweep_blobs-has) (drop_blob-others ref other s apart);
  delete-shrinks = λ ref other s gone.
      rw sweep_blobs-has (drop_blob-shrinks ref other s (rw sweep_blobs-has at gone));
}

get_blob-set :
    (b : Blob) (ref : ℕ) (blobs : List Blob)
    → get_blob ref (set_blob b blobs)
      ≡ (if b.digest =? ref then some b.bytes else get_blob ref blobs)
unfolding get_blob set_blob
get_blob-set b ref [] = refl
get_blob-set b ref (x ∷ xs) = ground (arith, get_blob-set b ref xs)

-- Bytes that were put are what the ref that came back gets, whatever was stored before, and a second
-- store under another ref leaves them.
pub put_blob-get :
    (sha256 : Bytes → ℕ) (bytes later : Bytes) (blobs : List Blob)
    → (get_blob (put_blob sha256 bytes blobs).0 (put_blob sha256 bytes blobs).1 ≡ some bytes)
      × (((sha256 later =? sha256 bytes) ≡ true)
          ⊎ (get_blob (sha256 bytes) (put_blob sha256 later (put_blob sha256 bytes blobs).1).1
              ≡ some bytes))
unfolding put_blob
put_blob-get sha256 bytes later blobs =
    let first =
      get_blob-set (record { digest = sha256 bytes; bytes = bytes }) (sha256 bytes) blobs in
    let second =
      get_blob-set (record { digest = sha256 later; bytes = later }) (sha256 bytes)
        (put_blob sha256 bytes blobs).1 in
    ground arith
