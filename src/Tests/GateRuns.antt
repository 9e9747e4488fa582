-- ===== src/Tests/GateRuns.antt =====
-- Runs of the commit gate on the small tenant.
use verity_mem.Prelude.{◌≡◌, refl, true, false, [], ◌∷◌, none, some, inl, map, ◌⊎◌}
use verity_mem.Contracts.Vocabulary.{ClaimKind, ClaimStatus, DecisionOutcome}
use verity_mem.Store.{ScopeRow, ClaimRow, Database, ok}
use verity_mem.Store.Triggers.{update_error, is_decided, decisive_outcome, valid_claim_transition}
use verity_mem.Store.Update.{update_claims}
use verity_mem.Claims.Lifecycle.{insert_decision_row}
use verity_mem.Ledger.Spans.{verify_spans, verify_span, verify_content, get_last}
use verity_mem.Gate.Scope.{scope_containment, compare_dimensions, compare_dimension}
use verity_mem.Gate.Conflict.{find_conflicts, classify_conflict, normalize_object}
use verity_mem.Gate.Evidence.{verify_evidence, verdict_of}
use verity_mem.Gate.Decide.{Facts, decide_outcome, establish, scan_for_instructions}
use verity_mem.Gate.Persist.{
  insert_claim, insert_evidence, insert_relations, supersede, insert_decision, mark_gated,
}
use verity_mem.Gate.Evaluate.{
  GateResult, read_scope, persist, write_claim, record_decision, result_of, facts_of, evaluate,
  writes_claim, holds_belief, row_for, decision_for,
}
use verity_mem.Store.Invariant.{IsSound}
use verity_mem.Gate.Evaluate.Promotion.{
  NewRow, believed_of, evaluate-frame, evaluate-IsSound, evaluate-untrusted,
}
use verity_mem.Gate.Evaluate.Belief.{IsGrounded, evaluate-IsGrounded}
use verity_mem.Tests.World.{home, stored, gate, repeated, value_or, stored-IsSound}

-- Leaves the user open, and one that binds a session as well.
abbrev wide : ScopeRow
wide = record home { user_id = none }

abbrev narrow : ScopeRow
narrow = record home { session_id = some "s1" }

abbrev ran : ClaimKind → Database × GateResult
ran kind =
    value_or (evaluate gate stored (repeated kind))
      (stored, result_of gate (repeated kind) (facts_of gate stored (repeated kind) home home))

run_preference :
    evaluate gate stored (repeated ClaimKind.preference)
    ≡ ok ((ran ClaimKind.preference).0, (ran ClaimKind.preference).1)
unfolding evaluate persist write_claim record_decision read_scope insert_claim insert_evidence
    insert_relations supersede insert_decision insert_decision_row mark_gated update_claims
    update_error is_decided decisive_outcome valid_claim_transition verify_spans verify_span
    verify_content get_last scope_containment compare_dimensions compare_dimension find_conflicts
    classify_conflict normalize_object verify_evidence verdict_of decide_outcome establish
    scan_for_instructions
run_preference = refl

run_procedure :
    evaluate gate stored (repeated ClaimKind.procedure)
    ≡ ok ((ran ClaimKind.procedure).0, (ran ClaimKind.procedure).1)
unfolding evaluate persist write_claim record_decision read_scope insert_claim insert_evidence
    insert_relations supersede insert_decision insert_decision_row mark_gated update_claims
    update_error is_decided decisive_outcome valid_claim_transition verify_spans verify_span
    verify_content get_last scope_containment compare_dimensions compare_dimension find_conflicts
    classify_conflict normalize_object verify_evidence verdict_of decide_outcome establish
    scan_for_instructions
run_procedure = refl

-- The repeated preference replaces the earlier claim.
run_preference_statuses :
    map (λ (c : ClaimRow). c.status) (ran ClaimKind.preference).0.claims
    ≡ ClaimStatus.accepted ∷ ClaimStatus.superseded ∷ []
unfolding evaluate persist write_claim record_decision read_scope insert_claim insert_evidence
    insert_relations supersede insert_decision insert_decision_row mark_gated update_claims
    update_error is_decided decisive_outcome valid_claim_transition verify_spans verify_span
    verify_content get_last scope_containment compare_dimensions compare_dimension find_conflicts
    classify_conflict normalize_object verify_evidence verdict_of decide_outcome establish
    scan_for_instructions
run_preference_statuses = refl

run_procedure_outcome : (ran ClaimKind.procedure).1.outcome ≡ DecisionOutcome.quarantine
unfolding evaluate persist write_claim record_decision read_scope insert_claim insert_evidence
    insert_relations supersede insert_decision insert_decision_row mark_gated update_claims
    update_error is_decided decisive_outcome valid_claim_transition verify_spans verify_span
    verify_content get_last scope_containment compare_dimensions compare_dimension find_conflicts
    classify_conflict normalize_object verify_evidence verdict_of decide_outcome establish
    scan_for_instructions
run_procedure_outcome = refl

evaluate-frame_example :
    ((ran ClaimKind.preference).0.decisions
      ≡ decision_for gate
          (repeated ClaimKind.preference)
          (ran ClaimKind.preference).1.outcome
          (ran ClaimKind.preference).1.reason_codes
          (ran ClaimKind.preference).1.evidence
        ∷ stored.decisions)
    × (((writes_claim (ran ClaimKind.preference).1.outcome ≡ false)
          × ((ran ClaimKind.preference).0.claims ≡ stored.claims))
        ⊎ ((writes_claim (ran ClaimKind.preference).1.outcome ≡ true)
            × NewRow stored.decisions
                (row_for gate (repeated ClaimKind.preference) (ran ClaimKind.preference).1.outcome)
                stored.claims
                (ran ClaimKind.preference).0.claims))
evaluate-frame_example =
    evaluate-frame gate stored (ran ClaimKind.preference).0 (repeated ClaimKind.preference)
      (ran ClaimKind.preference).1 run_preference

evaluate-IsSound_example : IsSound (ran ClaimKind.preference).0
evaluate-IsSound_example =
    evaluate-IsSound gate stored (ran ClaimKind.preference).0 (repeated ClaimKind.preference)
      (ran ClaimKind.preference).1 run_preference stored-IsSound

evaluate-untrusted_example :
    believed_of (ran ClaimKind.procedure).0.claims ≡ believed_of stored.claims
evaluate-untrusted_example =
    evaluate-untrusted gate stored (ran ClaimKind.procedure).0 (repeated ClaimKind.procedure)
      (ran ClaimKind.procedure).1 run_procedure (inl refl)

abbrev preference_facts : Facts
preference_facts = facts_of gate stored (repeated ClaimKind.preference) home home

wide_not_within_home : (scope_containment wide home).contained ≡ false
unfolding scope_containment compare_dimensions compare_dimension
wide_not_within_home = refl

preference_believed : holds_belief (ran ClaimKind.preference).1.outcome ≡ true
unfolding evaluate persist write_claim record_decision read_scope insert_claim insert_evidence
    insert_relations supersede insert_decision insert_decision_row mark_gated update_claims
    update_error is_decided decisive_outcome valid_claim_transition verify_spans verify_span
    verify_content get_last scope_containment compare_dimensions compare_dimension find_conflicts
    classify_conflict normalize_object verify_evidence verdict_of decide_outcome establish
    scan_for_instructions
preference_believed = refl

evaluate-IsGrounded_example :
    IsGrounded gate stored
      (ran ClaimKind.preference).0
      (repeated ClaimKind.preference)
      (ran ClaimKind.preference).1
evaluate-IsGrounded_example =
    evaluate-IsGrounded gate stored (ran ClaimKind.preference).0 (repeated ClaimKind.preference)
      (ran ClaimKind.preference).1 run_preference preference_believed
