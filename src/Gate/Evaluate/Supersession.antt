-- ===== src/Gate/Evaluate/Supersession.antt =====
-- What `supersede` does to the rows of `claims`, and which it cannot touch.
use verity_mem.Prelude.{
  ℕ, ◌<◌, ◌≡◌, refl, ap, subst, ◌⊎◌, inl, inr, true, none, some, List, [], ◌∷◌, All₂, All₂-trans,
  All₂-refl, arith, Bool-cases,
}
use verity_mem.Contracts.Vocabulary.{superseded}
use verity_mem.Store.{ClaimRow, DecisionRow, ok, Result-cases}
use verity_mem.Store.Triggers.{update_error, is_decided, valid_claim_transition}
use verity_mem.Store.Update.{with_status, update_claims}
use verity_mem.Store.Update.Laws.{update_claims-All₂}
use verity_mem.Gate.Conflict.{ConflictHit}
use verity_mem.Gate.Persist.{supersede, is_replacing, is_superseded_by}

-- A row is kept as it is, or it was open, began earlier, was decided to be replaced, and is closed
-- at the start of the new claim.
abbrev pub Kept : List DecisionRow → ℕ → ClaimRow → ClaimRow → Type 0
Kept ds valid_from row row' =
    (row' ≡ row)
    ⊎ ((row.valid_to ≡ none)
        × (row.valid_from < valid_from)
        × ((row.status ≡ superseded)
            ⊎ ((valid_claim_transition row.status superseded ≡ true)
                × (is_decided ds row.claim_id superseded ≡ true)))
        × (row' ≡ with_status row superseded (some valid_from)))

Kept-trans :
    (ds : List DecisionRow) (valid_from : ℕ) (a b c : ClaimRow)
    → Kept ds valid_from a b
    → Kept ds valid_from b c
    → Kept ds valid_from a c
Kept-trans ds valid_from a b c (inl e) k = rw e at k
Kept-trans ds valid_from a b c (inr p) (inl e) = rw e (inr p)
Kept-trans ds valid_from a b c (inr (open_a, earlier, decided, e)) (inr q) =
    let closed : b.valid_to ≡ some valid_from = ap (λ (r : ClaimRow). r.valid_to) e in
    absurd (cc (closed, q.0))

guarded-Kept :
    (ds : List DecisionRow) (old claim valid_from : ℕ) (row : ClaimRow)
    → is_superseded_by old claim valid_from row ≡ true
    → update_error ds row superseded (some valid_from) ≡ none
    → Kept ds valid_from row (with_status row superseded (some valid_from))
unfolding update_error
guarded-Kept ds old claim valid_from row on fine =
    inr (ground arith, ground arith, ground arith, refl)

pub supersede-Kept :
    (ds : List DecisionRow) (claim valid_from : ℕ) (hits : List ConflictHit)
    (rows rows' : List ClaimRow)
    → supersede ds claim valid_from hits rows ≡ ok rows'
    → All₂ (Kept ds valid_from) rows rows'
unfolding supersede
supersede-Kept ds claim valid_from [] rows rows' h =
    let e : rows ≡ rows' = cc in
    subst (All₂ (Kept ds valid_from) rows) e (All₂-refl (Kept ds valid_from) (λ r. inl refl) rows)
supersede-Kept ds claim valid_from (hit ∷ hits) rows rows' h =
    elim (Bool-cases (is_replacing hit.rel)) [
      | inr off ↦ supersede-Kept ds claim valid_from hits rows rows' (rw off at h)
      | inl on ↦
          elim (Result-cases (
            update_claims ds (is_superseded_by hit.claim_id claim valid_from) superseded
              (λ row. some valid_from) rows)) [
                | inr (e, bad) ↦ ground arith
                | inl (mid, fine) ↦
                    All₂-trans (Kept ds valid_from) (Kept-trans ds valid_from) rows mid rows'
                      (update_claims-All₂ ds (is_superseded_by hit.claim_id claim valid_from)
                        superseded (λ row. some valid_from) (Kept ds valid_from)
                        (λ row off. inl refl)
                        (λ row match good.
                          guarded-Kept ds hit.claim_id claim valid_from row match good)
                        rows mid fine)
                      (supersede-Kept ds claim valid_from hits mid rows' (ground arith))
              ]
    ]
