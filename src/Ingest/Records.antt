-- ===== src/Ingest/Records.antt =====
-- What `ingest` of packages/model-adapters/src/pipeline.ts reads and writes, and the operations of the
-- ledger and of the gate that it calls.
use verity_mem.Prelude.{
  ℕ, String, Bool, ◌&&◌, Option, none, some, List, [], ◌∷◌, map, find, ◌=?◌, string_eq, nat_eq,
  if◌then◌else◌,
}
use verity_mem.Contracts.Vocabulary.{
  OriginKind, AuthorityClass, ClaimKind, Sensitivity, EvidenceRole, supports,
}
use verity_mem.Store.{Value, ScopeRow}
use verity_mem.Ledger.Spans.{Bytes, SpanRecord, ProposalSpanInput}
use verity_mem.Ledger.Tables.{ScopeInput}
use verity_mem.Ingest.{Extractor, default_authority_for, ScopeNarrowing}

-- The event that `ingest` reads.
pub record IngestEvent : Type 0 where
  pub event_id : ℕ
  pub tenant_id : ℕ
  pub scope : ScopeRow
  pub origin : OriginKind
  pub sensitivity : Sensitivity
  pub content : Option Bytes

pub record ProposedSpan : Type 0 where
  pub input : ProposalSpanInput
  pub role : Option EvidenceRole

pub record Proposal : Type 0 where
  pub kind : ClaimKind
  pub subject : String
  pub predicate : String
  pub object : Value
  pub spans : List ProposedSpan
  pub authority : Option AuthorityClass
  pub requested_scope : ScopeNarrowing

-- An extractor with its body: `none` where `extract` throws. It is code that is plugged in, an
-- argument.
pub record RunnableExtractor : Type 0 where
  pub declared : Extractor
  pub extract : Bytes → Option (List Proposal)

pub record IngestOptions : Type 0 where
  pub requested_scope : ScopeNarrowing
  pub authority_override : Option AuthorityClass
  pub deterministic_only : Bool

-- A row of `claim_candidates`, with the identity that a retry finds it by.
pub record CandidateRecord : Type 0 where
  pub candidate_id : ℕ
  pub source_event_id : ℕ
  pub extractor : String
  pub kind : ClaimKind
  pub subject : String
  pub predicate : String
  pub object : Value
  pub requested_scope_id : ℕ
  pub model_version : Option String

pub record CandidateEvidence : Type 0 where
  pub candidate_id : ℕ
  pub span_id : ℕ
  pub role : EvidenceRole

pub record PersistedCandidate : Type 0 where
  pub candidate_id : ℕ
  pub kind : ClaimKind
  pub subject : String
  pub predicate : String
  pub object : Value
  pub extractor : String
  pub model_version : Option String
  pub authority : AuthorityClass
  pub requested_scope_id : ℕ
  pub span_ids : List ℕ

-- What the pipeline reads of a gate result.
pub record GateVerdict : Type 0 where
  pub decision_id : ℕ
  pub claim_id : Option ℕ
  pub accepted_scope_id : ℕ

-- The payload of a `project.claim` message.
pub record ProjectMessage : Type 0 where
  pub tenant_id : ℕ
  pub claim_id : ℕ
  pub scope_id : ℕ
  pub scope_ids : List ℕ
  pub purposes : List String
  pub decision_id : ℕ

-- The operations of the ledger and of the gate that the pipeline calls, over their own state; `none`
-- is an error, which `ensure_scope` and `write_spans` may raise after they wrote. `same_kind` and `same_object` are the equality of the database.
pub record IngestOps : Type 1 where
  pub State : Type 0
  pub ensure_scope : ScopeInput → State → Option ℕ × State
  pub write_spans : ℕ → List ProposalSpanInput → State → Option (List SpanRecord) × State
  pub evaluate : PersistedCandidate → List CandidateEvidence → State → Option (GateVerdict × State)
  pub same_kind : ClaimKind → ClaimKind → Bool
  pub same_object : Value → Value → Bool

pub record IngestState (O : IngestOps) : Type 0 where
  pub inner : O.State
  pub candidates : List CandidateRecord
  pub evidence : List CandidateEvidence
  pub messages : List ProjectMessage
  pub next_candidate : ℕ

pub data IngestNote : Type 0 where
  payload_redacted no_model model_unavailable : IngestNote
  blocked stand_in : String → IngestNote

pub record IngestResult : Type 0 where
  pub candidates : List PersistedCandidate
  pub decisions : List GateVerdict
  pub model_calls : ℕ
  pub extractor_versions : List String
  pub notes : List IngestNote

-- `proposal.spans.find(…)?.role ?? "supports"`.
abbrev pub role_of : List ProposedSpan → SpanRecord → EvidenceRole
role_of proposed span =
    elim (find (λ (s : ProposedSpan). (s.input.start =? span.start) && (s.input.end =? span.end))
      proposed) [ none ↦ supports | some s ↦ elim s.role [ none ↦ supports | some r ↦ r ] ]

abbrev pub candidate_evidence_rows :
    ℕ → List ProposedSpan → List SpanRecord → List CandidateEvidence
candidate_evidence_rows id proposed [] = []
candidate_evidence_rows id proposed (s ∷ spans) =
    record { candidate_id = id; span_id = s.span_id; role = role_of proposed s }
    ∷ candidate_evidence_rows id proposed spans

-- `ON CONFLICT (candidate_id, span_id) DO UPDATE SET role = EXCLUDED.role`.
unfoldable pub put_evidence : CandidateEvidence → List CandidateEvidence → List CandidateEvidence
put_evidence row [] = row ∷ []
put_evidence row (e ∷ rows) =
    let rest = put_evidence row rows in
    if (e.candidate_id =? row.candidate_id) && (e.span_id =? row.span_id)
    then record e { role = row.role } ∷ rows
    else e ∷ rest

unfoldable pub put_each_evidence :
    List CandidateEvidence → List CandidateEvidence → List CandidateEvidence
unfolding put_evidence
put_each_evidence [] rows = rows
put_each_evidence (row ∷ more) rows = put_each_evidence more (put_evidence row rows)

abbrev pub span_ids_of : List SpanRecord → List ℕ
span_ids_of spans = map (λ (s : SpanRecord). s.span_id) spans

abbrev pub authority_for : IngestEvent → Proposal → IngestOptions → AuthorityClass
authority_for event proposal options = elim options.authority_override [
  | some a ↦ a
  | none ↦ elim proposal.authority [ some a ↦ a | none ↦ default_authority_for event.origin ]
]

abbrev pub version_of : Extractor → Option String
version_of e = if e.is_model_call then some e.id else none
