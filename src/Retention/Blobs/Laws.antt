-- ===== src/Retention/Blobs/Laws.antt =====
-- What reclaiming deletes, what it leaves, and that its three counts add up.
use verity_mem.Prelude.{
  ℕ, ◌+◌, ◌≡◌, refl, ◌∙◌, inl, inr, Bool, true, false, List, [], ◌∷◌, contains, unique, nat_eq,
  ◌=?◌, length, is_empty, if◌then◌else◌, Bool-cases, All, All-map, arith, contains-unique,
}
use verity_mem.Retention.Blobs.{BlobStore, IsLawful, BlobOutcome, reclaim_each, reclaim_blobs}

module _ (B : BlobStore) (live : ℕ → Bool) where
  -- The counts of the loop cover every ref once.
  reclaim_each-counts :
      (refs : List ℕ) (s : B.State)
      → length refs
        ≡ length (reclaim_each B live refs s).deleted
          + length (reclaim_each B live refs s).retained_shared
          + (reclaim_each B live refs s).retained_other
  unfolding reclaim_each
  reclaim_each-counts [] s = refl
  reclaim_each-counts (ref ∷ refs) s =
      ground (arith, reclaim_each-counts refs s, reclaim_each-counts refs (B.delete ref s).1)

  -- The three counts of the outcome always add up to the references that were removed, with a store
  -- that can delete and with one that cannot: no detached reference is left out or counted twice.
  pub reclaim_blobs-counts :
      (refs : List ℕ) (s : B.State)
      → (reclaim_blobs B live refs s).0.references_removed
        ≡ (reclaim_blobs B live refs s).0.objects_deleted
          + (reclaim_blobs B live refs s).0.objects_retained_shared
          + (reclaim_blobs B live refs s).0.objects_retained_other
  unfolding reclaim_blobs
  reclaim_blobs-counts refs s = ground (arith, reclaim_each-counts (unique refs) s)

  -- Only refs that were asked for and that no live row names are deleted.
  abbrev pub is_detached : List ℕ → ℕ → Bool
  is_detached refs ref = if live ref then false else contains refs ref

  abbrev pub DetachedFrom : List ℕ → ℕ → Type 0
  DetachedFrom refs ref = is_detached refs ref ≡ true

  module _ (law : IsLawful B) where
    reclaim_each-keeps :
        (refs : List ℕ) (s : B.State) (ref : ℕ)
        → is_detached refs ref ≡ false
        → contains (B.sweep (reclaim_each B live refs s).objects) ref ≡ contains (B.sweep s) ref
    unfolding reclaim_each
    reclaim_each-keeps [] s ref kept = refl
    reclaim_each-keeps (r ∷ refs) s ref kept = elim (Bool-cases (live r)) [
      | inl on ↦ rw on (reclaim_each-keeps refs s ref (ground arith))
      | inr off ↦
          let apart : (r =? ref) ≡ false = elim (Bool-cases (r =? ref)) [
            | inl hit ↦ let same : r ≡ ref = ground arith in ground arith
            | inr miss ↦ miss
          ] in
          let later = reclaim_each-keeps refs (B.delete r s).1 ref (ground arith) in
          let here = law.delete-others r ref s apart in ground (arith, off, later ∙ here)
    ]

    reclaim_each-shrinks :
        (refs : List ℕ) (s : B.State) (ref : ℕ)
        → contains (B.sweep s) ref ≡ false
        → contains (B.sweep (reclaim_each B live refs s).objects) ref ≡ false
    unfolding reclaim_each
    reclaim_each-shrinks [] s ref gone = gone
    reclaim_each-shrinks (r ∷ refs) s ref gone =
        let kept = reclaim_each-shrinks refs s ref gone in
        let rest =
          reclaim_each-shrinks refs (B.delete r s).1 ref (law.delete-shrinks r ref s gone) in
        ground arith

    abbrev pub IsErased : List ℕ → B.State → ℕ → Type 0
    IsErased refs s ref = DetachedFrom refs ref × (contains (B.sweep s) ref ≡ false)

    reclaim_each-IsErased :
        (refs : List ℕ) (s : B.State)
        → All
            (IsErased refs (reclaim_each B live refs s).objects)
            (reclaim_each B live refs s).deleted
    unfolding reclaim_each
    reclaim_each-IsErased [] s = tt
    reclaim_each-IsErased (r ∷ refs) s = elim (Bool-cases (live r)) [
      | inl on ↦
          rw on (All-map _ _ (λ x e. (ground (arith, e.0), e.1)) _ (reclaim_each-IsErased refs s))
      | inr off ↦ elim (Bool-cases (B.delete r s).0) [
        | inr left ↦
            rw (off, left)
              (All-map _ _ (λ x e. (ground (arith, e.0), e.1)) _
                (reclaim_each-IsErased refs (B.delete r s).1))
        | inl absent ↦
            rw (off, absent)
              (
                (
                  ground (arith, off),
                  reclaim_each-shrinks refs (B.delete r s).1 r (law.delete-absent r s absent),
                ),
                All-map _ _ (λ x e. (ground (arith, e.0), e.1)) _
                    (reclaim_each-IsErased refs (B.delete r s).1),
              )
      ]
    ]

    -- An object that a live row still names, or that was not detached at all, is in the store after
    -- reclaiming exactly when it was before, whatever the other refs were.
    pub reclaim_blobs-keeps :
        (refs : List ℕ) (s : B.State) (ref : ℕ)
        → is_detached refs ref ≡ false
        → contains (B.sweep (reclaim_blobs B live refs s).1) ref ≡ contains (B.sweep s) ref
    unfolding reclaim_blobs
    reclaim_blobs-keeps refs s ref kept =
        let same = contains-unique refs ref in
        let each = reclaim_each-keeps (unique refs) s ref (ground arith) in ground arith

    -- What the outcome of either branch of a test has, the outcome of the test has.
    branch-IsErased :
        (refs : List ℕ) (test : Bool) (a b : BlobOutcome × B.State)
        → All (IsErased refs a.1) a.0.refs_deleted
        → All (IsErased refs b.1) b.0.refs_deleted
        → All (IsErased refs (if test then a else b).1) (if test then a else b).0.refs_deleted
    branch-IsErased refs true a b p q = p
    branch-IsErased refs false a b p q = q

    -- Every ref that the outcome counts as deleted was detached, is named by no live row, and is
    -- absent from the physical store when reclaiming ends.
    pub reclaim_blobs-IsErased :
        (refs : List ℕ) (s : B.State)
        → All
            (IsErased refs (reclaim_blobs B live refs s).1)
            (reclaim_blobs B live refs s).0.refs_deleted
    unfolding reclaim_blobs
    reclaim_blobs-IsErased refs s = branch-IsErased refs (is_empty (unique refs)) _ _ tt (
        branch-IsErased refs B.supports_deletion _ _
          (All-map _ _ (λ x e. (ground (arith, e.0, contains-unique refs x), e.1)) _
            (reclaim_each-IsErased (unique refs) s))
          tt)
