-- ===== src/Gate/Decide.antt =====
-- Sections 1 to 8 of `CommitGate.evaluate` in packages/gate/src/commit-gate.ts: what is established
-- about a candidate, the outcome, and the reason codes in the order in which they are pushed.
use package.text.Mathlib.Text.{find?}
use verity_mem.Prelude.{
  ℕ, String, Bool, true, false, not, ◌&&◌, ◌||◌, Option, none, some, List, [], ◌∷◌, ◌++◌, filter,
  contains, is_empty, length, ltb, ◌=?◌, is_some, if◌then◌else◌, take,
}
use verity_mem.Contracts.Vocabulary.{
  OriginKind, document, database, EntailmentResult, entailed, neutral, contradiction, unknown,
  DecisionOutcome, accept, accept_limited_scope, needs_review, quarantine, reject, Sensitivity,
  RelationKind, kind_eq, authority_eq,
}
use verity_mem.Contracts.Policy.{CommitPolicy}
use verity_mem.Contracts.ReasonCodes
use verity_mem.Claims.Use.{when_code}
use verity_mem.Store.{Value, ScopeRow}
use verity_mem.Ledger.Spans.{Bytes}
use verity_mem.Gate.Scope.{Containment, scope_containment}
use verity_mem.Gate.Conflict.{ConflictHit}
use verity_mem.Gate.Evidence.{CandidateForGate, GateEvidenceVerdict, is_supporting}

-- `InstructionScan` and `scanForInstructions`; a pattern is the regular expression's `exec`.
pub record InstructionScan : Type 0 where
  pub flagged : Bool
  pub matches : List Bytes

abbrev pub matches_of : List (Bytes → Option Bytes) → Bytes → List Bytes
matches_of [] text = []
matches_of (pattern ∷ patterns) text =
    let rest = matches_of patterns text in
    elim (pattern text) [ none ↦ rest | some found ↦ take 120 found ∷ rest ]

unfoldable pub scan_for_instructions : List (Bytes → Option Bytes) → Bytes → InstructionScan
scan_for_instructions patterns text =
    let matches = matches_of patterns text in
    record { flagged = not (is_empty matches); matches = matches }

pub record EntailmentVerdict : Type 0 where
  pub result : EntailmentResult
  pub score : ℕ
  pub backend : String
  pub model_sha256 : Option String

-- The backend of entailment.ts, with `renderStatement` inside: it is given the premise and the
-- subject, predicate and object that are rendered.
pub record EntailmentBackend : Type 0 where
  pub name : String
  pub model_sha256 : Option String
  pub is_model_call : Bool
  pub entails : Bytes → String → String → Value → EntailmentVerdict

abbrev pub is_contradiction : EntailmentResult → Bool
is_contradiction contradiction = true
is_contradiction _ = false

abbrev pub is_entailed : EntailmentResult → Bool
is_entailed entailed = true
is_entailed _ = false

abbrev pub is_contradicting : ConflictHit → Bool
is_contradicting hit = elim hit.rel [ RelationKind.contradicts ↦ true | _ ↦ false ]

abbrev pub is_duplicating : ConflictHit → Bool
is_duplicating hit = elim hit.rel [ RelationKind.duplicates ↦ true | _ ↦ false ]

-- What sections 1 to 7 establish, as the decision reads it.
pub record Facts : Type 0 where
  pub has_spans : Bool
  pub supporting : ℕ
  pub usable : ℕ
  pub instruction_flagged : Bool
  pub external : Bool
  pub containment : Containment
  pub same_tenant : Bool
  pub aggregate : EntailmentResult
  pub floor_missed : Bool
  pub authority_strong : Bool
  pub conflicts : ℕ
  pub contradicting : ℕ
  pub duplicating : ℕ
  pub kind_quarantined : Bool
  pub sensitive : Bool
  pub model_extractor : Bool

-- The conditions that `accept` and `accept_limited_scope` share.
abbrev pub promotable : Facts → Bool
promotable f =
    (not (f.supporting =? 0) && (f.usable =? f.supporting))
    && (is_entailed f.aggregate && not f.floor_missed)
    && f.authority_strong
    && (f.contradicting =? 0)

-- Section 8.
unfoldable pub decide_outcome : Facts → DecisionOutcome
decide_outcome f =
    if (f.usable =? 0) || is_contradiction f.aggregate
    then reject
    else if f.kind_quarantined || f.sensitive || (f.instruction_flagged && f.external)
    then quarantine
    else if promotable f && f.containment.contained
    then accept
    else if promotable f && not f.containment.contained && f.same_tenant
    then accept_limited_scope
    else needs_review

abbrev pub entailment_code : EntailmentResult → String
entailment_code entailed = ReasonCodes.entailment_entailed
entailment_code contradiction = ReasonCodes.entailment_contradiction
entailment_code unknown = ReasonCodes.entailment_unavailable
entailment_code neutral = ReasonCodes.entailment_neutral

abbrev pub scope_code : Containment → String
scope_code c =
    if c.contained
    then ReasonCodes.scope_within_event
    else if not (is_empty c.broadened_purposes)
    then ReasonCodes.scope_purpose_broadened
    else ReasonCodes.scope_broader_than_event

-- The codes pushed before the decision.
unfoldable pub finding_codes : Facts → List String
finding_codes f =
    when_code (not f.has_spans || (f.supporting =? 0)) ReasonCodes.no_supporting_evidence
    ++ when_code ((f.usable =? 0) && not (f.supporting =? 0)) ReasonCodes.span_unresolvable
    ++ when_code f.instruction_flagged ReasonCodes.admission_instruction_like
    ++ when_code (f.instruction_flagged && f.external) ReasonCodes.admission_external_instruction
    ++ scope_code f.containment ∷ []
    ++ when_code f.containment.narrower ReasonCodes.scope_narrowed_to_event
    ++ when_code (not (f.usable =? 0)) (entailment_code f.aggregate)
    ++ when_code f.floor_missed ReasonCodes.entailment_below_threshold
    ++ (if f.authority_strong then ReasonCodes.authority_strong else ReasonCodes.authority_weak)
      ∷ []
    ++ when_code (f.conflicts =? 0) ReasonCodes.conflict_none
    ++ when_code (not (f.contradicting =? 0)) ReasonCodes.conflict_contradicts_accepted
    ++ when_code (not (f.duplicating =? 0)) ReasonCodes.conflict_duplicate
    ++ when_code f.kind_quarantined ReasonCodes.kind_privileged
    ++ when_code f.kind_quarantined ReasonCodes.kind_requires_review
    ++ when_code f.sensitive ReasonCodes.admission_sensitive

-- The codes pushed by the decision.
unfoldable pub outcome_codes : DecisionOutcome → List String
outcome_codes accept = ReasonCodes.gate_auto_accept_eligible ∷ []
outcome_codes accept_limited_scope =
    ReasonCodes.scope_narrowed_to_event ∷ ReasonCodes.gate_auto_accept_eligible ∷ []
outcome_codes quarantine = ReasonCodes.gate_quarantined ∷ []
outcome_codes needs_review = ReasonCodes.gate_needs_review ∷ []
outcome_codes _ = []

unfoldable pub gate_codes : Facts → List String
unfolding finding_codes outcome_codes decide_outcome
gate_codes f =
    finding_codes f
    ++ outcome_codes (decide_outcome f)
    ++ (if f.model_extractor
        then ReasonCodes.extractor_model
        else ReasonCodes.extractor_deterministic)
      ∷ []

abbrev pub supporting_of : List GateEvidenceVerdict → List GateEvidenceVerdict
supporting_of evidence = filter (λ (e : GateEvidenceVerdict). is_supporting e.role) evidence

abbrev pub usable_of : List GateEvidenceVerdict → List GateEvidenceVerdict
usable_of evidence = filter (λ (e : GateEvidenceVerdict). e.status_ok) (supporting_of evidence)

abbrev pub quote_or_empty : Option Bytes → Bytes
quote_or_empty none = []
quote_or_empty (some quote) = quote

-- `quote ?? ""`, joined by newlines.
abbrev pub join_lines : List GateEvidenceVerdict → Bytes
join_lines [] = []
join_lines (e ∷ []) = quote_or_empty e.quote
join_lines (e ∷ f ∷ rest) = quote_or_empty e.quote ++ 10 ∷ join_lines (f ∷ rest)

-- Section 4: no verdict is asked for when no span is usable.
abbrev pub entailment_of :
    EntailmentBackend → CandidateForGate → List GateEvidenceVerdict → Option EntailmentVerdict
entailment_of backend c [] = none
entailment_of backend c (e ∷ usable) =
    some (backend.entails (join_lines (e ∷ usable)) c.subject c.predicate c.object)

abbrev pub aggregate_of : Option EntailmentVerdict → EntailmentResult
aggregate_of none = unknown
aggregate_of (some v) = v.result

abbrev pub misses_floor : ℕ → Option EntailmentVerdict → Bool
misses_floor floor none = false
misses_floor floor (some v) = is_entailed v.result && ltb v.score floor

abbrev pub is_external : OriginKind → Bool
is_external document = true
is_external database = true
is_external _ = false

abbrev pub is_sensitive : Sensitivity → Bool
is_sensitive Sensitivity.high = true
is_sensitive _ = false

abbrev pub scan_content : List (Bytes → Option Bytes) → Option Bytes → InstructionScan
scan_content patterns none = record { flagged = false; matches = [] }
scan_content patterns (some content) = scan_for_instructions patterns content

-- Sections 1 to 7 together.
unfoldable pub establish :
    CommitPolicy
    → EntailmentBackend
    → List (Bytes → Option Bytes)
    → CandidateForGate
    → List GateEvidenceVerdict
    → ScopeRow
    → ScopeRow
    → List ConflictHit
    → Facts
unfolding scan_for_instructions scope_containment
establish policy backend patterns c evidence requested event conflicts =
    let verdict = entailment_of backend c (usable_of evidence) in
    record {
      has_spans = not (is_empty c.spans);
      supporting = length (supporting_of evidence);
      usable = length (usable_of evidence);
      instruction_flagged = (scan_content patterns c.event_content).flagged;
      external = is_external c.origin;
      containment = scope_containment requested event;
      same_tenant = requested.tenant_id =? event.tenant_id;
      aggregate = aggregate_of verdict;
      floor_missed = misses_floor policy.thresholds.entailment_floor verdict;
      authority_strong = contains policy.auto_accept_authorities c.authority;
      conflicts = length conflicts;
      contradicting = length (filter is_contradicting conflicts);
      duplicating = length (filter is_duplicating conflicts);
      kind_quarantined = contains policy.quarantine_kinds c.kind;
      sensitive = is_sensitive c.sensitivity;
      model_extractor = is_some (find? c.extractor "model");
    }
