-- ===== src/Ingest/Run.antt =====
-- `ingest`, `persistCandidate` and `enqueueProjection` of packages/model-adapters/src/pipeline.ts: the
-- extractors in order, then the gate on what they proposed. A call that throws is `none`; where the
-- code catches it, what was written before it stays, and where not, the caller's transaction rolls back.
pub mod Gated
pub mod Origin
pub mod Laws
pub mod Retry
use verity_mem.Ingest.Records.{
  payload_redacted, no_model, model_unavailable, blocked, stand_in, IngestEvent, ProposedSpan,
  Proposal, RunnableExtractor, IngestOptions, CandidateRecord, CandidateEvidence,
  PersistedCandidate, GateVerdict, ProjectMessage, IngestOps, IngestState, IngestNote, IngestResult,
  role_of, candidate_evidence_rows, put_each_evidence, span_ids_of, authority_for, version_of,
}
use verity_mem.Prelude.{
  ℕ, suc, String, Bool, true, false, not, ◌&&◌, Option, none, some, List, [], ◌∷◌, ◌++◌, map, find,
  is_empty, is_some, ◌=?◌, ◌==◌, string_eq, nat_eq, if◌then◌else◌,
}
use verity_mem.Contracts.Vocabulary.{
  OriginKind, AuthorityClass, ClaimKind, Sensitivity, EvidenceRole, supports,
}
use verity_mem.Store.{Value, ScopeRow}
use verity_mem.Ledger.Spans.{Bytes, SpanRecord, ProposalSpanInput}
use verity_mem.Ledger.Tables.{ScopeInput}
use verity_mem.Ingest.{
  AdmissionResult, admit, Extractor, is_blocked, default_authority_for, ScopeNarrowing,
  requested_input,
}

module _ (O : IngestOps) (event : IngestEvent) (options : IngestOptions) where
  -- `resolveRequestedScope`.
  unfoldable pub resolve_scope : Proposal → O.State → Option ℕ × O.State
  resolve_scope proposal s =
      elim (requested_input event.scope proposal.requested_scope options.requested_scope) [
        | none ↦ (some event.scope.scope_id, s)
        | some input ↦ O.ensure_scope input s
      ]

  -- The WHERE clause of the lookup that makes a retry find its candidate.
  abbrev pub is_candidate_of : Extractor → Proposal → CandidateRecord → Bool
  is_candidate_of e p c =
      (c.source_event_id =? event.event_id)
      && c.extractor == e.id
      && O.same_kind c.kind p.kind
      && c.subject == p.subject
      && c.predicate == p.predicate
      && O.same_object c.object p.object

  abbrev pub persisted : ℕ → Extractor → Proposal → ℕ → List SpanRecord → PersistedCandidate
  persisted id e p scope spans = record {
    candidate_id = id;
    kind = p.kind;
    subject = p.subject;
    predicate = p.predicate;
    object = p.object;
    extractor = e.id;
    model_version = version_of e;
    authority = authority_for event p options;
    requested_scope_id = scope;
    span_ids = span_ids_of spans;
  }

  abbrev pub new_candidate :
      Extractor → Proposal → ℕ → List SpanRecord → IngestState O → CandidateRecord
  new_candidate e p scope spans σ = record {
    candidate_id = σ.next_candidate;
    source_event_id = event.event_id;
    extractor = e.id;
    kind = p.kind;
    subject = p.subject;
    predicate = p.predicate;
    object = p.object;
    requested_scope_id = scope;
    model_version = version_of e;
  }

  -- The INSERTs of a new candidate and of its evidence.
  abbrev pub with_candidate :
      Extractor → Proposal → ℕ → List SpanRecord → IngestState O → IngestState O
  with_candidate e p scope spans σ = record σ {
    candidates = new_candidate e p scope spans σ ∷ σ.candidates;
    evidence =
        put_each_evidence (candidate_evidence_rows σ.next_candidate p.spans spans) σ.evidence;
    next_candidate = suc σ.next_candidate;
  }

  -- The lookup and what follows it, once there are spans.
  unfoldable pub find_or_insert :
      Extractor
      → Proposal
      → ℕ
      → List SpanRecord
      → IngestState O
      → PersistedCandidate × IngestState O
  find_or_insert e p scope spans σ = elim (find (is_candidate_of e p) σ.candidates) [
    | some prior ↦ (persisted prior.candidate_id e p scope spans, σ)
    | none ↦ (persisted σ.next_candidate e p scope spans, with_candidate e p scope spans σ)
  ]

  abbrev pub keep_candidate :
      Extractor
      → Proposal
      → ℕ
      → List SpanRecord
      → IngestState O
      → Option PersistedCandidate × IngestState O
  keep_candidate e p scope [] σ = (none, σ)
  keep_candidate e p scope (s ∷ spans) σ =
      let (c, σ') = find_or_insert e p scope (s ∷ spans) σ in (some c, σ')

  abbrev pub inputs_of : List ProposedSpan → List ProposalSpanInput
  inputs_of spans = map (λ (s : ProposedSpan). s.input) spans

  -- `none` where a call throws, with what was written before it.
  abbrev pub keep_written :
      Extractor
      → Proposal
      → ℕ
      → Option (List SpanRecord)
      → IngestState O
      → Option (Option PersistedCandidate) × IngestState O
  keep_written e p scope none σ = (none, σ)
  keep_written e p scope (some spans) σ =
      let (c, σ') = keep_candidate e p scope spans σ in (some c, σ')

  abbrev pub write_candidate :
      Extractor
      → Proposal
      → Option ℕ
      → IngestState O
      → Option (Option PersistedCandidate) × IngestState O
  write_candidate e p none σ = (none, σ)
  write_candidate e p (some scope) σ =
      let (spans, s) = O.write_spans event.event_id (inputs_of p.spans) σ.inner in
      keep_written e p scope spans (record σ { inner = s })

  unfoldable pub persist_candidate :
      Extractor → Proposal → IngestState O → Option (Option PersistedCandidate) × IngestState O
  unfolding resolve_scope find_or_insert
  persist_candidate e p σ =
      let (scope, s) = resolve_scope p σ.inner in write_candidate e p scope (record σ { inner = s })

  -- The loop over an extractor's proposals: what it persisted, and whether a call threw.
  pub record Persisting : Type 0 where
    pub found : List PersistedCandidate
    pub state : IngestState O
    pub threw : Bool

  abbrev pub put_first :
      Option PersistedCandidate → List PersistedCandidate → List PersistedCandidate
  put_first none rest = rest
  put_first (some c) rest = c ∷ rest

  unfoldable pub persist_all : Extractor → List Proposal → IngestState O → Persisting
  unfolding persist_candidate
  persist_all e [] σ = record { found = []; state = σ; threw = false }
  persist_all e (p ∷ proposals) σ =
      let (kept, σ') = persist_candidate e p σ in
      let rest = persist_all e proposals σ' in
      elim kept [
        | none ↦ record { found = []; state = σ'; threw = true }
        | some c ↦ record rest { found = put_first c rest.found }
      ]

  -- What a pass over the extractors has gathered.
  pub record Pass : Type 0 where
    pub found : List PersistedCandidate
    pub versions : List String
    pub notes : List IngestNote
    pub calls : ℕ
    pub state : IngestState O

  abbrev pub then_pass : Pass → Pass → Pass
  then_pass a b = record {
    found = a.found ++ b.found;
    versions = a.versions ++ b.versions;
    notes = a.notes ++ b.notes;
    calls = b.calls;
    state = b.state;
  }

  abbrev pub one_pass : String → Persisting → Pass
  one_pass id run = record {
    found = run.found;
    versions = id ∷ [];
    notes = [];
    calls = 0;
    state = run.state;
  }

  abbrev pub noted : IngestNote → IngestState O → Pass
  noted note σ = record { found = []; versions = []; notes = note ∷ []; calls = 0; state = σ }

  -- An extractor that runs, and whose errors are not caught.
  unfoldable pub run_extractor : RunnableExtractor → Bytes → IngestState O → Option Pass
  unfolding persist_all
  run_extractor x content σ = elim (x.extract content) [
    | none ↦ none
    | some proposals ↦
        let run = persist_all x.declared proposals σ in
        if run.threw then none else some (one_pass x.declared.id run)
  ]

  -- The model's call: an error of it or of the loop leaves a note, and what was persisted stays.
  unfoldable pub call_model : RunnableExtractor → Bytes → IngestState O → Pass
  unfolding persist_all
  call_model x content σ = elim (x.extract content) [
    | none ↦ record (noted model_unavailable σ) { calls = 1 }
    | some proposals ↦
        let run = persist_all x.declared proposals σ in
        record (one_pass x.declared.id run) {
          notes = if run.threw then model_unavailable ∷ [] else [];
          calls = 1;
        }
  ]

  unfoldable pub deterministic_pass :
      AdmissionResult → Bytes → List RunnableExtractor → IngestState O → Option Pass
  unfolding run_extractor is_blocked
  deterministic_pass admission content [] σ =
      some (record { found = []; versions = []; notes = []; calls = 0; state = σ })
  deterministic_pass admission content (x ∷ extractors) σ =
      elim (if is_blocked x.declared admission
        then some (noted (blocked x.declared.id) σ)
        else run_extractor x content σ) [
          | none ↦ none
          | some here ↦ elim (deterministic_pass admission content extractors here.state) [
            | none ↦ none
            | some rest ↦ some (then_pass here rest)
          ]
        ]

  abbrev pub quiet : IngestState O → Pass
  quiet σ = record { found = []; versions = []; notes = []; calls = 0; state = σ }

  -- The branches on `deterministicOnly`, on `isBlocked` and on `isModelCall`, in this order.
  unfoldable pub run_model :
      Bool → Bool → Bool → RunnableExtractor → Bytes → IngestState O → Option Pass
  unfolding run_extractor call_model
  run_model true shut calls x content σ = some (quiet σ)
  run_model false true calls x content σ = some (noted (blocked x.declared.id) σ)
  run_model false false true x content σ = some (call_model x content σ)
  run_model false false false x content σ = elim (run_extractor x content σ) [
    | none ↦ none
    | some pass ↦ some (record pass { notes = stand_in x.declared.id ∷ pass.notes })
  ]

  unfoldable pub model_pass :
      AdmissionResult → Bytes → Option RunnableExtractor → IngestState O → Option Pass
  unfolding run_model is_blocked
  model_pass admission content none σ = some (noted no_model σ)
  model_pass admission content (some x) σ =
      run_model options.deterministic_only (is_blocked x.declared admission)
        x.declared.is_model_call x content σ

  abbrev pub evidence_for : ℕ → List CandidateEvidence → List CandidateEvidence
  evidence_for id [] = []
  evidence_for id (e ∷ rows) =
      let rest = evidence_for id rows in if e.candidate_id =? id then e ∷ rest else rest

  -- `enqueueProjection`.
  abbrev pub project_message : GateVerdict → List ProjectMessage
  project_message v = elim v.claim_id [
    | none ↦ []
    | some claim ↦
        record {
          tenant_id = event.tenant_id;
          claim_id = claim;
          scope_id = event.scope.scope_id;
          scope_ids = v.accepted_scope_id ∷ [];
          purposes = event.scope.purpose;
          decision_id = v.decision_id;
        }
        ∷ []
  ]

  -- The loop over the candidates.
  unfoldable pub gate_all :
      List PersistedCandidate → IngestState O → Option (List GateVerdict × IngestState O)
  gate_all [] σ = some ([], σ)
  gate_all (c ∷ candidates) σ =
      elim (O.evaluate c (evidence_for c.candidate_id σ.evidence) σ.inner) [
        | none ↦ none
        | some (v, s) ↦
            elim (gate_all candidates
              (record σ { inner = s; messages = σ.messages ++ project_message v })) [
                | none ↦ none
                | some (verdicts, σ') ↦ some (v ∷ verdicts, σ')
              ]
      ]

  abbrev pub ingest_result : Pass → List GateVerdict → IngestResult
  ingest_result pass verdicts = record {
    candidates = pass.found;
    decisions = verdicts;
    model_calls = pass.calls;
    extractor_versions = pass.versions;
    notes = pass.notes;
  }

  -- `ingest` after admission, on the content of the event.
  unfoldable pub ingest_content :
      Option Bytes
      → AdmissionResult
      → List RunnableExtractor
      → Option RunnableExtractor
      → IngestState O
      → Option (IngestResult × IngestState O)
  unfolding deterministic_pass model_pass gate_all
  ingest_content none admission deterministic model σ = some (
    record {
      candidates = [];
      decisions = [];
      model_calls = 0;
      extractor_versions = [];
      notes = payload_redacted ∷ [];
    },
    σ,
  )
  ingest_content (some content) admission deterministic model σ =
      elim (deterministic_pass admission content deterministic σ) [
        | none ↦ none
        | some first ↦ elim (model_pass admission content model first.state) [
          | none ↦ none
          | some second ↦ elim (gate_all (then_pass first second).found second.state) [
            | none ↦ none
            | some (verdicts, σ') ↦ some (ingest_result (then_pass first second) verdicts, σ')
          ]
        ]
      ]

  -- `ingest`; the expressions of the instruction scan are a parameter.
  unfoldable pub ingest :
      List (Bytes → Option Bytes)
      → List RunnableExtractor
      → Option RunnableExtractor
      → IngestState O
      → Option (IngestResult × IngestState O)
  unfolding ingest_content admit
  ingest patterns deterministic model σ =
      ingest_content event.content (admit patterns event.origin event.content event.sensitivity)
        deterministic model σ
