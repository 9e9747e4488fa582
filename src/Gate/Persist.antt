-- ===== src/Gate/Persist.antt =====
-- Section 9 of `CommitGate.evaluate` in packages/gate/src/commit-gate.ts: `insertClaim`,
-- `insertDecision` and the update of the candidate. The identifiers that the generator hands out
-- are arguments. The CHECK on `claim_relations` cannot fire: the new identifier passed the key.
use verity_mem.Prelude.{
  ℕ, String, Bool, true, false, not, ◌&&◌, Option, none, some, List, [], ◌∷◌, ◌++◌, any, ◌=?◌, ltb,
  is_some, unique, string_eq, if◌then◌else◌,
}
use verity_mem.Contracts.Vocabulary.{
  ClaimStatus, superseded, RelationKind, supersedes, duplicates, CandidateState, DecisionOutcome,
}
use verity_mem.Store.{
  ClaimRow, EvidenceRow, RelationRow, DecisionRow, CandidateRow, Database, Result, ok, err,
  duplicate_key, ◌>>=◌,
}
use verity_mem.Store.Update.{update_claims}
use verity_mem.Claims.Lifecycle.{insert_decision_row}
use verity_mem.Gate.Conflict.{ConflictHit}
use verity_mem.Gate.Evidence.{CitedSpan, CandidateForGate, GateEvidenceVerdict}

-- `ON CONFLICT (claim_id, span_id) DO NOTHING`.
unfoldable pub insert_evidence : ℕ → List CitedSpan → List EvidenceRow → List EvidenceRow
insert_evidence claim [] rows = rows
insert_evidence claim (e ∷ spans) rows = insert_evidence claim spans (
    if any (λ (r : EvidenceRow). (r.claim_id =? claim) && (r.span_id =? e.span.span_id)) rows
    then rows
    else record { claim_id = claim; span_id = e.span.span_id; role = e.role } ∷ rows)

abbrev pub relation_index : RelationKind → ℕ
relation_index RelationKind.duplicates = 0
relation_index RelationKind.narrows = 1
relation_index RelationKind.contradicts = 2
relation_index RelationKind.supersedes = 3
relation_index RelationKind.derived_from = 4

abbrev pub is_relation : ℕ → ℕ → RelationKind → RelationRow → Bool
is_relation from to rel r =
    (r.from_claim =? from) && (r.to_claim =? to) && (relation_index r.rel =? relation_index rel)

-- `ON CONFLICT (from_claim, to_claim, rel) DO NOTHING`.
unfoldable pub insert_relations : ℕ → List ConflictHit → List RelationRow → List RelationRow
insert_relations claim [] rows = rows
insert_relations claim (hit ∷ hits) rows = insert_relations claim hits (
    if any (is_relation claim hit.claim_id hit.rel) rows
    then rows
    else record { from_claim = claim; to_claim = hit.claim_id; rel = hit.rel } ∷ rows)

abbrev pub is_replacing : RelationKind → Bool
is_replacing supersedes = true
is_replacing duplicates = true
is_replacing _ = false

-- The WHERE clause of the supersession.
abbrev pub is_superseded_by : ℕ → ℕ → ℕ → ClaimRow → Bool
is_superseded_by old new valid_from row =
    (row.claim_id =? old)
    && not (is_some row.valid_to)
    && not (row.claim_id =? new)
    && ltb row.valid_from valid_from

-- The last loop of `insertClaim`, run when the claim is believed.
unfoldable pub supersede :
    List DecisionRow → ℕ → ℕ → List ConflictHit → List ClaimRow → Result (List ClaimRow)
supersede ds claim valid_from [] rows = ok rows
supersede ds claim valid_from (hit ∷ hits) rows = do
  rows' ←
      if is_replacing hit.rel
      then update_claims ds (is_superseded_by hit.claim_id claim valid_from) superseded
          (λ row. some valid_from) rows
      else ok rows
  supersede ds claim valid_from hits rows'

abbrev pub new_claim : CandidateForGate → ℕ → ℕ → ℕ → ℕ → ClaimStatus → ClaimRow
new_claim c claim scope valid_from recorded_at status = record {
  claim_id = claim;
  tenant_id = c.tenant_id;
  scope_id = scope;
  kind = c.kind;
  subject = c.subject;
  predicate = c.predicate;
  object = c.object;
  status = status;
  authority = c.authority;
  valid_from = valid_from;
  valid_to = none;
  recorded_at = recorded_at;
  expires_at = none;
  origin_event_id = c.source_event_id;
  extractor = c.extractor;
  model_version = c.model_version;
  prompt_version = c.prompt_version;
}

unfoldable pub insert_claim :
    Database → CandidateForGate → List ConflictHit → ClaimRow → Bool → Result Database
unfolding insert_evidence insert_relations supersede
insert_claim db c conflicts row holds_belief =
    if any (λ (r : ClaimRow). r.claim_id =? row.claim_id) db.claims then err duplicate_key else (do
      claims ←
          if holds_belief
          then supersede db.decisions row.claim_id row.valid_from conflicts (row ∷ db.claims)
          else ok (row ∷ db.claims)
      ok (record db {
        claims = claims;
        claim_evidence = insert_evidence row.claim_id c.spans db.claim_evidence;
        claim_relations = insert_relations row.claim_id conflicts db.claim_relations;
      }))

abbrev pub evidence_codes : List GateEvidenceVerdict → List String
evidence_codes [] = []
evidence_codes (e ∷ rest) = e.reason_codes ++ evidence_codes rest

abbrev pub new_decision :
    CandidateForGate
    → ℕ
    → Option ℕ
    → String
    → DecisionOutcome
    → List String
    → List GateEvidenceVerdict
    → DecisionRow
new_decision c decision claim policy_version outcome codes evidence = record {
  decision_id = decision;
  tenant_id = c.tenant_id;
  candidate_id = some c.candidate_id;
  claim_id = claim;
  policy_version = policy_version;
  outcome = outcome;
  reason_codes = unique (codes ++ evidence_codes evidence);
  approver = none;
}

unfoldable pub insert_decision : Database → DecisionRow → Result Database
unfolding insert_decision_row
insert_decision db row = do
  decisions ← insert_decision_row row db.decisions
  ok (record db { decisions = decisions })

-- `UPDATE claim_candidates SET state = 'gated' WHERE candidate_id = …`.
unfoldable pub mark_gated : ℕ → List CandidateRow → List CandidateRow
mark_gated id [] = []
mark_gated id (r ∷ rows) =
    (if r.candidate_id =? id then record r { state = CandidateState.gated } else r)
    ∷ mark_gated id rows
