-- ===== src/Retrieval/Action.antt =====
-- `evaluateAction` of packages/retrieval/src/action-gate.ts. Planning decides which rows the caller
-- sees: the database given is that view, and the probe for an unknown identifier reads the whole one.
pub mod Laws
pub mod Revocation
use verity_mem.Retrieval.Reads.{
  ClaimRelation, find_claim, relation_entries, relations_of, is_live_contradiction, span_record,
  join_spans, evidence_rows, is_verified, flags_of, claim_map, read_evidence,
}
use verity_mem.Prelude.{
  ℕ, ◌*◌, String, Bool, true, false, not, ◌&&◌, ◌||◌, Option, none, some, List, [], ◌∷◌, ◌++◌, map,
  any, all, find, length, is_empty, filter, contains, unique, ltb, ◌=?◌, string_eq, nat_eq,
  if◌then◌else◌,
}
use verity_mem.Contracts.Vocabulary.{
  ActionRisk, ClaimStatus, RelationKind, UseDecision, usable, verify, clarify, deny,
}
use verity_mem.Contracts.Policy.{
  risk_to_allowed_use, risk_to_max_evidence_age_days, default_action_policy_version,
}
use verity_mem.Contracts.ReasonCodes
use verity_mem.Claims.Use.{
  UseEvaluationInput, UseVerdict, evaluate_use, age_in_days, when_code, is_accepted,
}
use verity_mem.Store.{ClaimRow, EvidenceRow, RelationRow, Database}
use verity_mem.Ledger.Spans.{
  Bytes, LedgerEvent, SpanRow, SpanRecord, SpanVerification, verified, verify_spans, get_last,
}

pub record ActionGateRequest : Type 0 where
  pub action_risk : ActionRisk
  pub claim_ids : List ℕ

pub record ClaimEntry : Type 0 where
  pub claim_id : ℕ
  pub found : Bool
  pub verdict : Option UseDecision
  pub reason_codes : List String
  pub age_days : Option ℕ
  pub blocking : Bool

pub record ActionGateVerdict : Type 0 where
  pub allowed : Bool
  pub decision : UseDecision
  pub reason_codes : List String
  pub claims : List ClaimEntry
  pub policy_version : String

abbrev pub decision_eq : UseDecision → UseDecision → Bool
decision_eq usable usable = true
decision_eq verify verify = true
decision_eq clarify clarify = true
decision_eq deny deny = true
decision_eq _ _ = false

-- `permitted.includes(use.use)`, rule 1.
abbrev pub is_permitted : ActionRisk → UseDecision → Bool
is_permitted risk decision = any (decision_eq decision) (risk_to_allowed_use risk)

-- Rule 2, with the age in hundredths of a day.
abbrev pub is_too_old : ActionRisk → ℕ → Bool
is_too_old risk age = ltb (100 * risk_to_max_evidence_age_days risk) age

-- The codes that the three rules push, in their order.
unfoldable pub denial_codes : ActionRisk → UseDecision → ℕ → List String
denial_codes risk decision age =
    when_code (not (is_permitted risk decision)) ReasonCodes.action_denied_risk_exceeds_use
    ++ when_code (is_too_old risk age) ReasonCodes.action_denied_stale_evidence
    ++ when_code (decision_eq decision deny) ReasonCodes.action_denied_claim_not_usable

module _ (sha256 : Bytes → ℕ) (events : List LedgerEvent) (spans : List SpanRow) (now : ℕ)
    (system visible : Database) (request : ActionGateRequest) where
  -- The input of `evaluateUse` for a claim that was read.
  unfoldable pub use_input : ClaimRow → UseEvaluationInput
  use_input claim =
      let flags = read_evidence sha256 events spans visible request.claim_ids claim.claim_id in
      record {
        status = claim.status;
        kind = claim.kind;
        authority = claim.authority;
        valid_to = claim.valid_to;
        expires_at = claim.expires_at;
        has_conflicts =
            any is_live_contradiction
              (relations_of visible.claims claim.claim_id visible.claim_relations);
        digest_ok = not (is_empty flags) && all (λ b. b) flags;
        span_count = length flags;
        age_days = age_in_days claim.valid_from now;
        action_risk = request.action_risk;
        query_purpose_matches = true;
        now = now;
      }

  abbrev pub missing_code : ℕ → String
  missing_code id =
      if any (λ (c : ClaimRow). c.claim_id =? id) system.claims
      then ReasonCodes.action_denied_missing_participation
      else ReasonCodes.action_denied_unknown_claim

  abbrev pub denials : ClaimRow → List String
  denials claim =
      denial_codes request.action_risk (evaluate_use (use_input claim)).decision
        (age_in_days claim.valid_from now)

  -- One round of the loop: the entry, and what it pushes to `blocking`.
  unfoldable pub judge_claim : ℕ → ClaimEntry × List String
  judge_claim id = elim (find_claim visible.claims id) [
    | none ↦ (
      record {
        claim_id = id;
        found = false;
        verdict = none;
        reason_codes = missing_code id ∷ [];
        age_days = none;
        blocking = true;
      },
      missing_code id ∷ [],
    )
    | some claim ↦ (
      record {
        claim_id = id;
        found = true;
        verdict = some (evaluate_use (use_input claim)).decision;
        reason_codes = (evaluate_use (use_input claim)).reason_codes ++ denials claim;
        age_days = some (age_in_days claim.valid_from now);
        blocking = not (is_empty (denials claim));
      },
      denials claim,
    )
  ]

  unfoldable pub judge_claims : List ℕ → List ClaimEntry
  judge_claims [] = []
  judge_claims (id ∷ ids) = (judge_claim id).0 ∷ judge_claims ids

  unfoldable pub blocking_codes : List ℕ → List String
  blocking_codes [] = []
  blocking_codes (id ∷ ids) = (judge_claim id).1 ++ blocking_codes ids

-- `entry.use` of the claims that were found.
abbrev pub decisions_of : List ClaimEntry → List UseDecision
decisions_of [] = []
decisions_of (e ∷ rest) =
    let decisions = decisions_of rest in
    elim e.verdict [ none ↦ decisions | some d ↦ d ∷ decisions ]

unfoldable pub weakest_decision : List UseDecision → UseDecision
weakest_decision ds =
    if any (decision_eq deny) ds
    then deny
    else if any (decision_eq clarify) ds
    then clarify
    else verify

unfoldable pub evaluate_action :
    (Bytes → ℕ)
    → List LedgerEvent
    → List SpanRow
    → ℕ
    → Database
    → Database
    → Option String
    → ActionGateRequest
    → ActionGateVerdict
evaluate_action sha256 events spans now system visible policy_version request =
    let outcome = judge_claims sha256 events spans now system visible request request.claim_ids in
    let allowed = not (any (λ (e : ClaimEntry). e.blocking) outcome) in
    record {
      allowed = allowed;
      decision = if allowed then usable else weakest_decision (decisions_of outcome);
      reason_codes =
          unique (blocking_codes sha256 events spans now system visible request request.claim_ids)
          ++ when_code allowed ReasonCodes.action_allowed;
      claims = outcome;
      policy_version = elim policy_version [
        | none ↦ default_action_policy_version
        | some version ↦ version
      ];
    }

-- `isGateRequired`.
abbrev pub is_gate_required : ActionRisk → Bool
is_gate_required ActionRisk.low = false
is_gate_required _ = true
