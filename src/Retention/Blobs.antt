-- ===== src/Retention/Blobs.antt =====
-- The blob store of packages/ledger/src/blobs.ts as an interface, and `reclaimBlobs` of
-- packages/retrieval/src/retention.ts, its client. A content-addressed ref is opaque, a number.
pub mod Laws
pub mod Memory
use verity_mem.Prelude.{
  ℕ, suc, ◌≡◌, Bool, true, false, Option, none, some, List, [], ◌∷◌, contains, unique, nat_eq, ◌=?◌,
  length, is_empty, filter, if◌then◌else◌,
}
use verity_mem.Ledger.Chain.{EventRow}

-- The members of `BlobStore` that retention calls, over a state of the store's own.
pub record BlobStore : Type 1 where
  pub State : Type 0
  pub supports_deletion : Bool
  pub delete : ℕ → State → Bool × State
  pub sweep : State → List ℕ

-- What the interface documents: `delete` says whether the object is absent afterwards, and leaves
-- the other objects.
pub record IsLawful (B : BlobStore) : Type 0 where
  pub delete-absent :
      (ref : ℕ) (s : B.State)
      → (B.delete ref s).0 ≡ true
      → contains (B.sweep (B.delete ref s).1) ref ≡ false
  pub delete-others :
      (ref other : ℕ) (s : B.State)
      → (ref =? other) ≡ false
      → contains (B.sweep (B.delete ref s).1) other ≡ contains (B.sweep s) other
  pub delete-shrinks :
      (ref other : ℕ) (s : B.State)
      → contains (B.sweep s) other ≡ false
      → contains (B.sweep (B.delete ref s).1) other ≡ false

pub record BlobOutcome : Type 0 where
  pub references_removed : ℕ
  pub objects_deleted : ℕ
  pub objects_retained_shared : ℕ
  pub objects_retained_other : ℕ
  pub store_supports_deletion : Bool
  pub refs_deleted : List ℕ
  pub refs_retained_shared : List ℕ

-- `SELECT DISTINCT payload_ref FROM events WHERE payload_ref = ANY(…)`, of the rows that the policy
-- of `events` shows to a transaction of this tenant.
abbrev pub names_ref : ℕ → ℕ → EventRow → Bool
names_ref tenant ref e = elim e.payload_ref [
  | none ↦ false
  | some r ↦ if e.tenant_id =? tenant then r =? ref else false
]

module _ (B : BlobStore) where
  pub record Reclaimed : Type 0 where
    pub deleted : List ℕ
    pub retained_shared : List ℕ
    pub retained_other : ℕ
    pub objects : B.State

  -- The loop over the unique refs; `live` is the test on the set `stillReferenced`.
  unfoldable pub reclaim_each : (ℕ → Bool) → List ℕ → B.State → Reclaimed
  reclaim_each live [] s = record {
    deleted = [];
    retained_shared = [];
    retained_other = 0;
    objects = s;
  }
  reclaim_each live (ref ∷ refs) s =
      let kept = reclaim_each live refs s in
      let (absent, s') = B.delete ref s in
      let rest = reclaim_each live refs s' in
      if live ref
      then record kept { retained_shared = ref ∷ kept.retained_shared }
      else if absent
      then record rest { deleted = ref ∷ rest.deleted }
      else record rest { retained_other = suc rest.retained_other }

  abbrev pub outcome_of : List ℕ → Reclaimed → BlobOutcome
  outcome_of refs r = record {
    references_removed = length refs;
    objects_deleted = length r.deleted;
    objects_retained_shared = length r.retained_shared;
    objects_retained_other = r.retained_other;
    store_supports_deletion = true;
    refs_deleted = r.deleted;
    refs_retained_shared = r.retained_shared;
  }

  abbrev pub nothing_reclaimed : ℕ → BlobOutcome
  nothing_reclaimed n = record {
    references_removed = n;
    objects_deleted = 0;
    objects_retained_shared = 0;
    objects_retained_other = n;
    store_supports_deletion = B.supports_deletion;
    refs_deleted = [];
    refs_retained_shared = [];
  }

  -- `live` is the statement on `events`, run after the payloads are cleared.
  unfoldable pub reclaim_blobs : (ℕ → Bool) → List ℕ → B.State → BlobOutcome × B.State
  unfolding reclaim_each
  reclaim_blobs live refs s =
      let distinct = unique refs in
      let r = reclaim_each live distinct s in
      if is_empty distinct
      then (nothing_reclaimed 0, s)
      else if B.supports_deletion
      then (outcome_of distinct r, r.objects)
      else (nothing_reclaimed (length distinct), s)
