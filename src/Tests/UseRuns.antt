-- ===== src/Tests/UseRuns.antt =====
-- Runs of the use policy, the lifecycle and the action gate.
use verity_mem.Prelude.{
  ◌≡◌, ◌≢◌, refl, ◌↔◌, inl, true, false, is_empty, none, some, [], ◌∷◌, All, All₂,
}
use verity_mem.Contracts.Vocabulary.{
  ClaimKind, ClaimStatus, AuthorityClass, ActionRisk, usable, TimeSpec,
}
use verity_mem.Store.{Database, ok, ClaimRow}
use verity_mem.Store.Triggers.{update_error, is_decided, decisive_outcome, valid_claim_transition}
use verity_mem.Store.Update.{update_claims}
use verity_mem.Claims.Use.{
  UseEvaluationInput, evaluate_use, evaluate_guards, evaluate_strength, age_in_days,
}
use verity_mem.Claims.Use.Laws.{IsReliable, evaluate_use-eq-usable_iff, evaluate_use-explained}
use verity_mem.Claims.List.{ClaimListFilters, list_claims, is_listed, time_predicate}
use verity_mem.Claims.List.Laws.{IsListing, list_claims-IsComplete}
use verity_mem.Claims.Lifecycle.{
  StatusChange, DecisionContext, apply_status, insert_decision_row, decide_change, end_for,
  outcome_for_status,
}
use verity_mem.Claims.Lifecycle.Reach.{Reaches, here, next, withdrawn_forever}
use verity_mem.Claims.Lifecycle.Laws.{Changed, apply_status-Changed}
use verity_mem.Ledger.Spans.{verify_spans, verify_span, verify_content, get_last}
use verity_mem.Retrieval.Reads.{read_evidence, evidence_rows, flags_of, relations_of, find_claim}
use verity_mem.Retrieval.Action.{
  ActionGateRequest, ActionGateVerdict, evaluate_action, judge_claims, judge_claim, blocking_codes,
  denial_codes, use_input, weakest_decision,
}
use verity_mem.Retrieval.Action.Laws.{
  IsCleared, evaluate_action-allowed_iff, evaluate_action-consequential,
}
use verity_mem.Retrieval.Action.Revocation.{apply_status-blocks}
use verity_mem.Tests.World.{earlier_claim, digest, said, cited_row, stored, value_or}

abbrev everything : ClaimListFilters
everything = record {
  tenant_id = 1;
  scope_ids = 1 ∷ [];
  time = none;
  kinds = some (ClaimKind.preference ∷ []);
  statuses = none;
  subjects = some [];
  predicates = none;
  claim_ids = none;
  limit = none;
}

run_listing : list_claims stored everything ≡ some (earlier_claim ∷ [])
unfolding list_claims is_listed time_predicate
run_listing = refl

-- The other way round a range is refused.
refused_range : list_claims stored (record everything { time = some (TimeSpec.during 9 3) }) ≡ none
unfolding list_claims
refused_range = refl

list_claims-IsComplete_example : IsListing stored everything (earlier_claim ∷ [])
list_claims-IsComplete_example =
    list_claims-IsComplete stored everything (earlier_claim ∷ []) run_listing

abbrev fresh_input : UseEvaluationInput
fresh_input = record {
  status = ClaimStatus.accepted;
  kind = ClaimKind.preference;
  authority = AuthorityClass.user_self_report;
  valid_to = none;
  expires_at = none;
  has_conflicts = false;
  digest_ok = true;
  span_count = 1;
  age_days = 0;
  action_risk = ActionRisk.medium;
  query_purpose_matches = true;
  now = 1000;
}

evaluate_use-eq-usable_iff_example :
    ((evaluate_use fresh_input).decision ≡ usable) ↔ IsReliable fresh_input
evaluate_use-eq-usable_iff_example = evaluate_use-eq-usable_iff fresh_input

evaluate_use-explained_example : is_empty (evaluate_use fresh_input).reason_codes ≡ false
evaluate_use-explained_example = evaluate_use-explained fresh_input

revoked_to_superseded : Reaches ClaimStatus.revoked ClaimStatus.superseded
unfolding valid_claim_transition
revoked_to_superseded = next here refl

withdrawn_forever_example :
    (ClaimStatus.superseded ≢ ClaimStatus.accepted)
    × (ClaimStatus.superseded ≢ ClaimStatus.disputed)
    × (ClaimStatus.superseded ≢ ClaimStatus.expired)
    × (ClaimStatus.superseded ≢ ClaimStatus.proposed)
withdrawn_forever_example = withdrawn_forever (inl refl) revoked_to_superseded

-- The earlier claim is revoked.
abbrev revocation : StatusChange
revocation = record {
  claim_id = 1;
  status = ClaimStatus.revoked;
  valid_to = none;
  reason_codes = "use.revoked" ∷ [];
}

abbrev by_alice : DecisionContext
by_alice = record { decision_id = 5; policy_version = "commit-v3"; approver = some "alice" }

abbrev revoked_state : Database
revoked_state = value_or (apply_status 900 stored revocation by_alice) stored

run_revocation : apply_status 900 stored revocation by_alice ≡ ok revoked_state
unfolding apply_status decide_change insert_decision_row end_for outcome_for_status update_claims
    update_error is_decided decisive_outcome valid_claim_transition
run_revocation = refl

apply_status-Changed_example : All₂ (Changed 900 revocation) stored.claims revoked_state.claims
apply_status-Changed_example =
    apply_status-Changed 900 stored revoked_state revocation by_alice run_revocation

abbrev deployment : ActionGateRequest
deployment = record { action_risk = ActionRisk.medium; claim_ids = 1 ∷ [] }

abbrev judged : Database → ActionGateVerdict
judged db = evaluate_action digest (said ∷ []) (cited_row ∷ []) 900 stored db none deployment

apply_status-blocks_example : (judged revoked_state).allowed ≡ false
apply_status-blocks_example =
    apply_status-blocks 900 stored revoked_state revocation by_alice (λ e. cc e, λ e. cc e)
      run_revocation digest (said ∷ []) (cited_row ∷ []) 900 stored none deployment refl

allowed_deployment : (judged stored).allowed ≡ true
unfolding evaluate_action judge_claims judge_claim blocking_codes denial_codes use_input
    read_evidence evidence_rows flags_of relations_of weakest_decision evaluate_use evaluate_guards
    evaluate_strength verify_spans verify_span verify_content get_last age_in_days
allowed_deployment = refl

evaluate_action-allowed_iff_example :
    ((judged stored).allowed ≡ true)
    ↔ All (IsCleared digest (said ∷ []) (cited_row ∷ []) 900 stored stored deployment) (1 ∷ [])
evaluate_action-allowed_iff_example =
    evaluate_action-allowed_iff digest (said ∷ []) (cited_row ∷ []) 900 stored stored deployment
      none

evaluate_action-consequential_example :
    All
      (λ id.
        (claim : ClaimRow) × (find_claim stored.claims id ≡ some claim)
        × IsReliable
            (use_input digest (said ∷ []) (cited_row ∷ []) 900 stored stored deployment claim))
      (1 ∷ [])
evaluate_action-consequential_example =
    evaluate_action-consequential digest (said ∷ []) (cited_row ∷ []) 900 stored stored deployment
      none (λ e. cc e) allowed_deployment
