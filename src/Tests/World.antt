-- ===== src/Tests/World.antt =====
-- A small tenant: one event, one scope, one earlier claim that a decision promoted.
use verity_mem.Prelude.{ℕ, refl, false, none, some, [], ◌∷◌, length}
use verity_mem.Contracts.Vocabulary.{
  ClaimStatus, ClaimKind, AuthorityClass, OriginKind, Sensitivity, DecisionOutcome, EvidenceRole,
  CandidateState, entailed,
}
use verity_mem.Contracts.Policy.{default_commit_policy}
use verity_mem.Store.{Value, ScopeRow, ClaimRow, DecisionRow, Database, Result, ok, err}
use verity_mem.Store.Invariant.{IsSound}
use verity_mem.Ledger.Spans.{Bytes, LedgerEvent, SpanRecord, SpanRow, ProposalSpanInput}
use verity_mem.Gate.Conflict.{TextRuntime, throws}
use verity_mem.Gate.Evidence.{CandidateForGate}
use verity_mem.Gate.Decide.{EntailmentBackend}
use verity_mem.Gate.Evaluate.{GateDependencies}

-- The length of the bytes stands for their digest.
abbrev pub digest : Bytes → ℕ
digest bytes = length bytes

abbrev pub said : LedgerEvent
said = record {
  event_id = 1;
  content = some (104 ∷ 101 ∷ 121 ∷ 33 ∷ []);
  occurred_at = 500;
  redacted_at = none;
}

abbrev pub cited : ProposalSpanInput
cited = record { start = 0; end = 3; selector = none }

abbrev pub cited_span : SpanRecord
cited_span = record {
  span_id = 7;
  event_id = 1;
  start = 0;
  end = 3;
  selector = none;
  digest = 3;
  quote = 104 ∷ 101 ∷ 121 ∷ [];
}

abbrev pub cited_row : SpanRow
cited_row = record {
  span_id = 7;
  event_id = 1;
  start_off = 0;
  end_off = 3;
  selector = none;
  span_digest = 3;
  quote = 104 ∷ 101 ∷ 121 ∷ [];
}

abbrev pub home : ScopeRow
home = record {
  scope_id = 1;
  tenant_id = 1;
  project = some "apollo";
  user_id = some "alice";
  agent_id = none;
  session_id = none;
  purpose = "coding" ∷ [];
}

abbrev pub earlier_claim : ClaimRow
earlier_claim = record {
  claim_id = 1;
  tenant_id = 1;
  scope_id = 1;
  kind = ClaimKind.preference;
  subject = "user:alice";
  predicate = "editor";
  object = Value.text "vim";
  status = ClaimStatus.accepted;
  authority = AuthorityClass.user_self_report;
  valid_from = 100;
  valid_to = none;
  recorded_at = 100;
  expires_at = none;
  origin_event_id = 1;
  extractor = "rules";
  model_version = none;
  prompt_version = none;
}

abbrev pub earlier_decision : DecisionRow
earlier_decision = record {
  decision_id = 1;
  tenant_id = 1;
  candidate_id = some 1;
  claim_id = some 1;
  policy_version = "commit-v3";
  outcome = DecisionOutcome.accept;
  reason_codes = [];
  approver = none;
}

abbrev pub stored : Database
stored = record {
  scopes = home ∷ [];
  claims = earlier_claim ∷ [];
  claim_evidence = record { claim_id = 1; span_id = 7; role = EvidenceRole.supports } ∷ [];
  claim_relations = [];
  decisions = earlier_decision ∷ [];
  candidates = record { candidate_id = 2; state = CandidateState.validated } ∷ [];
}

abbrev pub agreeing : EntailmentBackend
agreeing = record {
  name = "agreeing";
  model_sha256 = none;
  is_model_call = false;
  entails = λ premise subject predicate object. record {
    result = entailed;
    score = 900000;
    backend = "agreeing";
    model_sha256 = none;
  };
}

abbrev pub plain_text : TextRuntime
plain_text = record { trim_lower = λ s. s; finite_number = λ s. none; json_parse = λ s. throws }

abbrev pub gate : GateDependencies
gate = record {
  sha256 = digest;
  js = plain_text;
  patterns = [];
  backend = agreeing;
  policy = default_commit_policy;
  events = said ∷ [];
  now = 900;
  next_claim = 2;
  next_decision = 2;
}

abbrev pub repeated : ClaimKind → CandidateForGate
repeated kind = record {
  candidate_id = 2;
  tenant_id = 1;
  source_event_id = 1;
  kind = kind;
  subject = "user:alice";
  predicate = "editor";
  object = Value.text "vim";
  requested_scope_id = 1;
  extractor = "rules";
  model_version = none;
  prompt_version = none;
  authority = AuthorityClass.user_self_report;
  origin = OriginKind.user;
  sensitivity = Sensitivity.normal;
  event_scope_id = 1;
  spans = record { span = cited_span; role = EvidenceRole.supports } ∷ [];
  event_content = some (104 ∷ 101 ∷ 121 ∷ 33 ∷ []);
}

abbrev pub value_or {ℓ} : {A : Type ℓ} → Result A → A → A
value_or (ok a) d = a
value_or (err e) d = d

pub stored-IsSound : IsSound stored
stored-IsSound = record { backed = (λ e. refl, tt); ordered = (refl, tt) }
