-- ===== src/Gate/Evaluate.antt =====
-- `CommitGate.evaluate` of packages/gate/src/commit-gate.ts as a whole: read the scopes and the
-- evidence, decide, and write the claim, the decision and the candidate's state.
pub mod Outcome
pub mod Writes
pub mod Promotion
pub mod Belief
pub mod Grounds
pub mod Supersession
use verity_mem.Prelude.{
  ℕ, String, Bool, true, false, ◌||◌, ◌&&◌, Option, none, some, List, [], ◌∷◌, map, find, ◌=?◌,
  if◌then◌else◌,
}
use verity_mem.Contracts.Vocabulary.{
  ClaimStatus, DecisionOutcome, accept, accept_limited_scope, needs_review, quarantine,
  EntailmentResult,
}
use verity_mem.Contracts.Policy.{CommitPolicy}
use verity_mem.Store.{
  ScopeRow, ClaimRow, DecisionRow, Database, Result, ok, err, missing_scope, ◌>>=◌,
}
use verity_mem.Ledger.Spans.{Bytes, LedgerEvent}
use verity_mem.Gate.Conflict.{TextRuntime, ConflictHit, find_conflicts}
use verity_mem.Gate.Evidence.{CandidateForGate, GateEvidenceVerdict, is_supporting, verify_evidence}
use verity_mem.Gate.Decide.{
  EntailmentBackend, EntailmentVerdict, Facts, establish, decide_outcome, gate_codes, entailment_of,
  usable_of, aggregate_of,
}
use verity_mem.Gate.Persist.{insert_claim, new_claim, insert_decision, new_decision, mark_gated}

-- The dependencies of the gate, and what one call takes from them: the ledger's events, the clock,
-- and the identifiers that the generator hands out.
pub record GateDependencies : Type 0 where
  pub sha256 : Bytes → ℕ
  pub js : TextRuntime
  pub patterns : List (Bytes → Option Bytes)
  pub backend : EntailmentBackend
  pub policy : CommitPolicy
  pub events : List LedgerEvent
  pub now : ℕ
  pub next_claim : ℕ
  pub next_decision : ℕ

pub record GateResult : Type 0 where
  pub decision_id : ℕ
  pub candidate_id : ℕ
  pub outcome : DecisionOutcome
  pub reason_codes : List String
  pub claim_id : Option ℕ
  pub policy_version : String
  pub evidence : List GateEvidenceVerdict
  pub accepted_scope_id : ℕ

-- `readScope`, and the error of `evaluate` when it gives null.
unfoldable pub read_scope : Database → ℕ → Result ScopeRow
read_scope db id = elim (find (λ (s : ScopeRow). s.scope_id =? id) db.scopes) [
  | none ↦ err missing_scope
  | some s ↦ ok s
]

-- `resolveValidFrom`.
abbrev pub resolve_valid_from : List LedgerEvent → ℕ → ℕ → ℕ
resolve_valid_from events id fallback = elim (find (λ (e : LedgerEvent). e.event_id =? id) events) [
  | none ↦ fallback
  | some e ↦ e.occurred_at
]

abbrev pub holds_belief : DecisionOutcome → Bool
holds_belief accept = true
holds_belief accept_limited_scope = true
holds_belief _ = false

abbrev pub writes_claim : DecisionOutcome → Bool
writes_claim needs_review = true
writes_claim quarantine = true
writes_claim outcome = holds_belief outcome

abbrev pub status_for : DecisionOutcome → ClaimStatus
status_for outcome = if holds_belief outcome then ClaimStatus.accepted else ClaimStatus.proposed

abbrev pub accepted_scope : CandidateForGate → DecisionOutcome → ℕ
accepted_scope c accept_limited_scope = c.event_scope_id
accepted_scope c _ = c.requested_scope_id

-- The aggregate verdict, attached to the supporting spans that resolved.
abbrev pub attach : Option EntailmentVerdict → GateEvidenceVerdict → GateEvidenceVerdict
attach none e =
    if is_supporting e.role && e.status_ok
    then record e { entailment = EntailmentResult.unknown; entailment_score = none }
    else e
attach (some v) e =
    if is_supporting e.role && e.status_ok
    then record e { entailment = v.result; entailment_score = some v.score }
    else e

module _ (deps : GateDependencies) where
  open deps use {sha256, js, patterns, backend, policy, events, now, next_claim, next_decision}

  abbrev pub evidence_of : CandidateForGate → List GateEvidenceVerdict
  evidence_of c = verify_evidence sha256 events c.spans

  abbrev pub conflicts_of : Database → CandidateForGate → List ConflictHit
  conflicts_of db c = find_conflicts js c.tenant_id c.subject c.predicate c.object db.claims

  abbrev pub facts_of : Database → CandidateForGate → ScopeRow → ScopeRow → Facts
  facts_of db c requested event =
      establish policy backend patterns c (evidence_of c) requested event (conflicts_of db c)

  abbrev pub claim_for : CandidateForGate → DecisionOutcome → Option ℕ
  claim_for c outcome = if writes_claim outcome then some next_claim else none

  abbrev pub row_for : CandidateForGate → DecisionOutcome → ClaimRow
  row_for c outcome =
      new_claim c next_claim (accepted_scope c outcome)
        (resolve_valid_from events c.source_event_id now) now (status_for outcome)

  abbrev pub decision_for :
      CandidateForGate → DecisionOutcome → List String → List GateEvidenceVerdict → DecisionRow
  decision_for c outcome codes evidence =
      new_decision c next_decision (claim_for c outcome) policy.version outcome codes evidence

  -- Section 9: the claim, for the outcomes that write one.
  unfoldable pub write_claim :
      Database → CandidateForGate → DecisionOutcome → List ConflictHit → Result Database
  write_claim db c outcome conflicts =
      if writes_claim outcome
      then insert_claim db c conflicts (row_for c outcome) (holds_belief outcome)
      else ok db

  -- Then the decision and the candidate's state.
  unfoldable pub record_decision :
      Database
      → CandidateForGate
      → DecisionOutcome
      → List String
      → List GateEvidenceVerdict
      → Result Database
  record_decision db c outcome codes evidence = do
    db' ← insert_decision db (decision_for c outcome codes evidence)
    ok (record db' { candidates = mark_gated c.candidate_id db'.candidates })

  unfoldable pub persist :
      Database
      → CandidateForGate
      → DecisionOutcome
      → List String
      → List ConflictHit
      → List GateEvidenceVerdict
      → Result Database
  persist db c outcome codes conflicts evidence = do
    with_claim ← write_claim db c outcome conflicts
    record_decision with_claim c outcome codes evidence

  abbrev pub result_of : CandidateForGate → Facts → GateResult
  result_of c facts = record {
    decision_id = next_decision;
    candidate_id = c.candidate_id;
    outcome = decide_outcome facts;
    reason_codes = gate_codes facts;
    claim_id = claim_for c (decide_outcome facts);
    policy_version = policy.version;
    evidence = map (attach (entailment_of backend c (usable_of (evidence_of c)))) (evidence_of c);
    accepted_scope_id = accepted_scope c (decide_outcome facts);
  }

  unfoldable pub evaluate : Database → CandidateForGate → Result (Database × GateResult)
  evaluate db c = do
    requested ← read_scope db c.requested_scope_id
    event ← read_scope db c.event_scope_id
    let facts = facts_of db c requested event
    let result = result_of c facts
    db' ← persist db c result.outcome result.reason_codes (conflicts_of db c) result.evidence
    ok (db', result)
