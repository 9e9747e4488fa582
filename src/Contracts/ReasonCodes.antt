-- ===== src/Contracts/ReasonCodes.antt =====
-- packages/contracts/src/reason-codes.ts: the closed set of machine-readable reason codes.
use verity_mem.Prelude.{String, Bool, List, [], ◌∷◌, contains, string_eq}

abbrev pub span_resolved : String
span_resolved = "span.resolved"

abbrev pub span_unresolvable : String
span_unresolvable = "span.unresolvable"

abbrev pub span_digest_mismatch : String
span_digest_mismatch = "span.digest_mismatch"

abbrev pub span_event_redacted : String
span_event_redacted = "span.event_redacted"

abbrev pub span_out_of_bounds : String
span_out_of_bounds = "span.out_of_bounds"

abbrev pub no_supporting_evidence : String
no_supporting_evidence = "evidence.none"

abbrev pub evidence_role_missing : String
evidence_role_missing = "evidence.role_missing"

abbrev pub entailment_entailed : String
entailment_entailed = "entailment.entailed"

abbrev pub entailment_neutral : String
entailment_neutral = "entailment.neutral"

abbrev pub entailment_contradiction : String
entailment_contradiction = "entailment.contradiction"

abbrev pub entailment_unavailable : String
entailment_unavailable = "entailment.unavailable"

abbrev pub entailment_below_threshold : String
entailment_below_threshold = "entailment.below_threshold"

abbrev pub entailment_coreference : String
entailment_coreference = "entailment.known_coreference_failure"

abbrev pub entailment_entity_attribution : String
entailment_entity_attribution = "entailment.known_entity_attribution_failure"

abbrev pub authority_strong : String
authority_strong = "authority.strong"

abbrev pub authority_weak : String
authority_weak = "authority.inference_or_hearsay"

abbrev pub authority_mismatch_kind : String
authority_mismatch_kind = "authority.kind_mismatch"

abbrev pub scope_within_event : String
scope_within_event = "scope.within_event_scope"

abbrev pub scope_broader_than_event : String
scope_broader_than_event = "scope.broader_than_event_scope"

abbrev pub scope_outside_event : String
scope_outside_event = "scope.outside_event_scope"

abbrev pub scope_purpose_broadened : String
scope_purpose_broadened = "scope.purpose_broadened"

abbrev pub scope_narrowed_to_event : String
scope_narrowed_to_event = "scope.narrowed_to_event"

abbrev pub conflict_none : String
conflict_none = "conflict.none"

abbrev pub conflict_contradicts_accepted : String
conflict_contradicts_accepted = "conflict.contradicts_accepted"

abbrev pub conflict_duplicate : String
conflict_duplicate = "conflict.duplicates_accepted"

abbrev pub conflict_narrows : String
conflict_narrows = "conflict.narrows_accepted"

abbrev pub conflict_supersedes : String
conflict_supersedes = "conflict.supersedes_accepted"

abbrev pub conflict_unresolved_temporal_overlap : String
conflict_unresolved_temporal_overlap = "conflict.unresolved_temporal_overlap"

abbrev pub admission_instruction_like : String
admission_instruction_like = "admission.instruction_like"

abbrev pub admission_external_instruction : String
admission_external_instruction = "admission.external_instruction"

abbrev pub admission_sensitive : String
admission_sensitive = "admission.sensitive"

abbrev pub kind_requires_review : String
kind_requires_review = "kind.requires_review"

abbrev pub kind_privileged : String
kind_privileged = "kind.privileged"

abbrev pub extractor_deterministic : String
extractor_deterministic = "extractor.deterministic"

abbrev pub extractor_model : String
extractor_model = "extractor.model"

abbrev pub gate_auto_accept_eligible : String
gate_auto_accept_eligible = "gate.auto_accept_eligible"

abbrev pub gate_quarantined : String
gate_quarantined = "gate.quarantined"

abbrev pub gate_needs_review : String
gate_needs_review = "gate.needs_review"

abbrev pub use_fresh_authoritative : String
use_fresh_authoritative = "use.fresh_authoritative"

abbrev pub use_entailed_unverified : String
use_entailed_unverified = "use.entailed_unverified"

abbrev pub use_stale : String
use_stale = "use.stale"

abbrev pub use_expired : String
use_expired = "use.expired"

abbrev pub use_conflicted : String
use_conflicted = "use.conflicted"

abbrev pub use_weak_authority : String
use_weak_authority = "use.weak_authority"

abbrev pub use_scope_narrower_than_query : String
use_scope_narrower_than_query = "use.scope_narrower_than_query"

abbrev pub use_sensitive_purpose_mismatch : String
use_sensitive_purpose_mismatch = "use.sensitive_purpose_mismatch"

abbrev pub use_revoked : String
use_revoked = "use.revoked"

abbrev pub action_allowed : String
action_allowed = "action.allowed"

abbrev pub action_denied_claim_not_usable : String
action_denied_claim_not_usable = "action.denied_claim_not_usable"

abbrev pub action_denied_stale_evidence : String
action_denied_stale_evidence = "action.denied_stale_evidence"

abbrev pub action_denied_scope_unreachable : String
action_denied_scope_unreachable = "action.denied_scope_unreachable"

abbrev pub action_denied_unknown_claim : String
action_denied_unknown_claim = "action.denied_unknown_claim"

abbrev pub action_denied_missing_participation : String
action_denied_missing_participation = "action.denied_missing_participation"

abbrev pub action_denied_risk_exceeds_use : String
action_denied_risk_exceeds_use = "action.denied_risk_exceeds_use"

abbrev pub retention_manifest_built : String
retention_manifest_built = "retention.manifest_built"

abbrev pub retention_residual_matches : String
retention_residual_matches = "retention.residual_matches"

abbrev pub retention_verified : String
retention_verified = "retention.verified"

abbrev pub retention_ledger_preserved : String
retention_ledger_preserved = "retention.ledger_row_preserved"

-- `REASON_CODE_VALUES`, in the order of the registry.
abbrev pub reason_code_values : List String
reason_code_values =
    span_resolved ∷ span_unresolvable ∷ span_digest_mismatch ∷ span_event_redacted
    ∷ span_out_of_bounds ∷ no_supporting_evidence ∷ evidence_role_missing ∷ entailment_entailed
    ∷ entailment_neutral ∷ entailment_contradiction ∷ entailment_unavailable
    ∷ entailment_below_threshold ∷ entailment_coreference ∷ entailment_entity_attribution
    ∷ authority_strong ∷ authority_weak ∷ authority_mismatch_kind ∷ scope_within_event
    ∷ scope_broader_than_event ∷ scope_outside_event ∷ scope_purpose_broadened
    ∷ scope_narrowed_to_event ∷ conflict_none ∷ conflict_contradicts_accepted ∷ conflict_duplicate
    ∷ conflict_narrows ∷ conflict_supersedes ∷ conflict_unresolved_temporal_overlap
    ∷ admission_instruction_like ∷ admission_external_instruction ∷ admission_sensitive
    ∷ kind_requires_review ∷ kind_privileged ∷ extractor_deterministic ∷ extractor_model
    ∷ gate_auto_accept_eligible ∷ gate_quarantined ∷ gate_needs_review ∷ use_fresh_authoritative
    ∷ use_entailed_unverified ∷ use_stale ∷ use_expired ∷ use_conflicted ∷ use_weak_authority
    ∷ use_scope_narrower_than_query ∷ use_sensitive_purpose_mismatch ∷ use_revoked ∷ action_allowed
    ∷ action_denied_claim_not_usable ∷ action_denied_stale_evidence
    ∷ action_denied_scope_unreachable ∷ action_denied_unknown_claim
    ∷ action_denied_missing_participation ∷ action_denied_risk_exceeds_use
    ∷ retention_manifest_built ∷ retention_residual_matches ∷ retention_verified
    ∷ retention_ledger_preserved ∷ []

-- `isKnownReasonCode`.
unfoldable pub is_known_reason_code : String → Bool
is_known_reason_code code = contains reason_code_values code
