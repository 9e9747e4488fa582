-- ===== src/Retention/Correct.antt =====
-- `correctClaim` of packages/retrieval/src/retention.ts: the UPDATE, then the decision row, then the
-- projections, in one transaction over the guards of the database.
use verity_mem.Projections.{EmbeddingRow, EntityRow, deindex_claim}
use verity_mem.Prelude.{
  ℕ, ◌≡◌, refl, inl, inr, String, Bool, not, ◌&&◌, Option, none, some, List, [], ◌∷◌, any, ◌=?◌,
  is_some, if◌then◌else◌, Bool-cases, Option-cases, arith, All₂,
}
use verity_mem.Contracts.Vocabulary.{ClaimStatus, disputed, superseded, DecisionOutcome}
use verity_mem.Store.{
  ClaimRow, DecisionRow, Database, Result, ok, err, missing_claim, ◌>>=◌, Result-cases,
}
use verity_mem.Store.Triggers.{update_error}
use verity_mem.Store.Update.{guarded, update_claims}
use verity_mem.Store.Update.Laws.{update_claims-All₂}
use verity_mem.Claims.Lifecycle.{insert_decision_row}
use verity_mem.Retention.Revoke.Total.{is_ok}

pub data CorrectionRel : Type 0 where
  supersedes contradicts narrows : CorrectionRel

pub record Correction : Type 0 where
  pub tenant_id : ℕ
  pub principal : String
  pub claim_id : ℕ
  pub rel : CorrectionRel
  pub new_valid_to : Option ℕ
  pub reason_codes : List String

-- The CASE of the UPDATE.
abbrev pub corrected_status : CorrectionRel → ClaimStatus
corrected_status contradicts = disputed
corrected_status supersedes = superseded
corrected_status narrows = superseded

-- `WHERE claim_id = … AND valid_to IS NULL`.
abbrev pub is_standing : ℕ → ClaimRow → Bool
is_standing claim c = (c.claim_id =? claim) && not (is_some c.valid_to)

abbrev pub corrected_end : ℕ → Correction → ClaimRow → Option ℕ
corrected_end now input c = elim input.new_valid_to [ none ↦ some now | some at ↦ some at ]

abbrev pub correction_row : ℕ → Correction → DecisionRow
correction_row id input = record {
  decision_id = id;
  tenant_id = input.tenant_id;
  candidate_id = none;
  claim_id = some input.claim_id;
  policy_version = "correction-v1";
  outcome = DecisionOutcome.revoke;
  reason_codes = input.reason_codes;
  approver = some input.principal;
}

-- The INSERT of the decision: `claim_id` is a foreign key.
unfoldable pub insert_correction :
    ℕ → Correction → List ClaimRow → List DecisionRow → Result (List DecisionRow)
unfolding insert_decision_row
insert_correction id input claims ds =
    if any (λ (c : ClaimRow). c.claim_id =? input.claim_id) claims
    then insert_decision_row (correction_row id input) ds
    else err missing_claim

abbrev pub Projections : Type 0
Projections = List EmbeddingRow × List EntityRow

unfoldable pub correct_claim :
    ℕ → ℕ → Correction → Database → Projections → Result (Database × Projections)
unfolding insert_correction deindex_claim
correct_claim now id input db projections = do
  claims ←
      update_claims db.decisions (is_standing input.claim_id) (corrected_status input.rel)
        (corrected_end now input) db.claims
  decisions ← insert_correction id input claims db.decisions
  ok (
    record db { decisions = decisions; claims = claims },
    deindex_claim input.claim_id projections,
  )

-- A standing row that the database refuses to move.
abbrev pub is_refused : ℕ → Correction → List DecisionRow → ClaimRow → Bool
is_refused now input ds c =
    is_standing input.claim_id c
    && is_some (update_error ds c (corrected_status input.rel) (corrected_end now input c))

module _ (ds : List DecisionRow) (matches : ClaimRow → Bool) (status : ClaimStatus)
    (end : ClaimRow → Option ℕ) where
  abbrev refused : ClaimRow → Bool
  refused c = matches c && is_some (update_error ds c status (end c))

  guarded-is_ok :
      (c : ClaimRow)
      → is_ok (if matches c then guarded ds c status (end c) else ok c) ≡ not (refused c)
  guarded-is_ok c = elim (Bool-cases (matches c)) [
    | inr off ↦ rw off refl
    | inl on ↦ elim (Option-cases (update_error ds c status (end c))) [
      | inl fine ↦ rw (on, guarded, fine) refl
      | inr (e, why) ↦ rw (on, guarded, why) refl
    ]
  ]

  update_claims-is_ok :
      (rows : List ClaimRow)
      → is_ok (update_claims ds matches status end rows) ≡ not (any refused rows)
  unfolding update_claims
  update_claims-is_ok [] = refl
  update_claims-is_ok (c ∷ rows) =
      let here = guarded-is_ok c in
      let rest = update_claims-is_ok rows in
      elim (Result-cases (if matches c then guarded ds c status (end c) else ok c)) [
        | inr (e, bad) ↦ rw (update_claims, bad) (ground (arith, rw bad at here))
        | inl (a, fine) ↦ elim (Result-cases (update_claims ds matches status end rows)) [
          | inr (e, bad) ↦
              rw (update_claims, fine, bad) (ground (arith, rw fine at here, rw bad at rest))
          | inl (b, good) ↦
              rw (update_claims, fine, good) (ground (arith, rw fine at here, rw good at rest))
        ]
      ]

has_claim-related :
    (claim : ℕ) (rows rows' : List ClaimRow)
    → All₂ (λ a b. b.claim_id ≡ a.claim_id) rows rows'
    → any (λ (c : ClaimRow). c.claim_id =? claim) rows'
      ≡ any (λ (c : ClaimRow). c.claim_id =? claim) rows
has_claim-related claim [] [] r = refl
has_claim-related claim [] (y ∷ ys) r = absurd r
has_claim-related claim (x ∷ xs) [] r = absurd r
has_claim-related claim (x ∷ xs) (y ∷ ys) r = rw (r.0, has_claim-related claim xs ys r.1) refl

has_claim-update :
    (ds : List DecisionRow) (matches : ClaimRow → Bool) (status : ClaimStatus)
    (end : ClaimRow → Option ℕ) (claim : ℕ) (rows rows' : List ClaimRow)
    → update_claims ds matches status end rows ≡ ok rows'
    → any (λ (c : ClaimRow). c.claim_id =? claim) rows'
      ≡ any (λ (c : ClaimRow). c.claim_id =? claim) rows
has_claim-update ds matches status end claim rows rows' h = has_claim-related claim rows rows' (
    update_claims-All₂ ds matches status end (λ a b. b.claim_id ≡ a.claim_id) (λ c off. refl)
      (λ c on fine. refl) rows rows' h)

insert_correction-ok :
    (id : ℕ) (input : Correction) (claims : List ClaimRow) (ds : List DecisionRow)
    → is_ok (insert_correction id input claims ds) ≡ (
        any (λ (c : ClaimRow). c.claim_id =? input.claim_id) claims
        && not (any (λ d. d.decision_id =? id) ds))
unfolding insert_correction
insert_correction-ok id input claims ds = ground arith

-- A correction returns exactly when the claim exists, the identifier of its decision is new, and no
-- standing row of the claim is refused by the guards, which consult the decisions of before: the row
-- that the correction itself writes comes too late to carry the change of status.
pub correct_claim-ok :
    (now id : ℕ) (input : Correction) (db : Database) (projections : Projections)
    → is_ok (correct_claim now id input db projections) ≡ (
        not (any (is_refused now input db.decisions) db.claims)
        && (any (λ (c : ClaimRow). c.claim_id =? input.claim_id) db.claims
            && not (any (λ d. d.decision_id =? id) db.decisions)))
unfolding correct_claim
correct_claim-ok now id input db projections =
    let value =
      update_claims-is_ok db.decisions (is_standing input.claim_id) (corrected_status input.rel)
        (corrected_end now input) db.claims in
    elim (Result-cases (
      update_claims db.decisions (is_standing input.claim_id) (corrected_status input.rel)
        (corrected_end now input) db.claims)) [
          | inr (e, bad) ↦ rw (correct_claim, bad) (ground (arith, rw bad at value))
          | inl (claims, good) ↦
              let there =
                has_claim-update db.decisions (is_standing input.claim_id)
                  (corrected_status input.rel) (corrected_end now input) input.claim_id db.claims
                  claims good in
              let written = insert_correction-ok id input claims db.decisions in
              elim (Result-cases (insert_correction id input claims db.decisions)) [
                | inl (ds, went) ↦
                    rw (correct_claim, good, went)
                      (ground (arith, rw good at value, rw (went, there) at written))
                | inr (e, threw) ↦
                    rw (correct_claim, good, threw)
                      (ground (arith, rw good at value, rw (threw, there) at written))
              ]
        ]
