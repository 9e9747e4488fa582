-- ===== src/Gate/Evidence.antt =====
-- `CandidateForGate` and `verifyEvidence` of packages/gate/src/commit-gate.ts.
use verity_mem.Prelude.{ℕ, String, Bool, true, false, Option, none, some, List, [], ◌∷◌, map}
use verity_mem.Contracts.Vocabulary.{
  ClaimKind, AuthorityClass, OriginKind, EvidenceRole, supports, refutes, EntailmentResult,
  entailed, unknown, Sensitivity,
}
use verity_mem.Contracts.ReasonCodes
use verity_mem.Store.{Value}
use verity_mem.Ledger.Spans.{
  Bytes, LedgerEvent, SpanRecord, SpanVerification, verified, missing, redacted, digest_mismatch,
  out_of_bounds, verify_spans, get_last,
}

pub record CitedSpan : Type 0 where
  pub span : SpanRecord
  pub role : EvidenceRole

pub record CandidateForGate : Type 0 where
  pub candidate_id : ℕ
  pub tenant_id : ℕ
  pub source_event_id : ℕ
  pub kind : ClaimKind
  pub subject : String
  pub predicate : String
  pub object : Value
  pub requested_scope_id : ℕ
  pub extractor : String
  pub model_version : Option String
  pub prompt_version : Option String
  pub authority : AuthorityClass
  pub origin : OriginKind
  pub sensitivity : Sensitivity
  pub event_scope_id : ℕ
  pub spans : List CitedSpan
  pub event_content : Option Bytes

pub record GateEvidenceVerdict : Type 0 where
  pub span_id : ℕ
  pub role : EvidenceRole
  pub status_ok : Bool
  pub digest_ok : Bool
  pub quote : Option Bytes
  pub entailment : EntailmentResult
  pub entailment_score : Option ℕ
  pub reason_codes : List String

abbrev pub is_supporting : EvidenceRole → Bool
is_supporting supports = true
is_supporting refutes = false

-- The codes of a span that did not verify.
abbrev pub refusal_codes : Option SpanVerification → List String
refusal_codes none = ReasonCodes.span_unresolvable ∷ []
refusal_codes (some (verified quote)) = []
refusal_codes (some missing) = ReasonCodes.span_unresolvable ∷ []
refusal_codes (some redacted) = ReasonCodes.span_event_redacted ∷ ReasonCodes.span_unresolvable ∷ []
refusal_codes (some (digest_mismatch expected actual)) =
    ReasonCodes.span_digest_mismatch ∷ ReasonCodes.span_unresolvable ∷ []
refusal_codes (some (out_of_bounds n)) =
    ReasonCodes.span_out_of_bounds ∷ ReasonCodes.span_unresolvable ∷ []

-- The body of the loop; an absent verdict is `missing`.
unfoldable pub verdict_of : CitedSpan → Option SpanVerification → GateEvidenceVerdict
verdict_of entry (some (verified quote)) = record {
  span_id = entry.span.span_id;
  role = entry.role;
  status_ok = true;
  digest_ok = true;
  quote = some quote;
  entailment = entailed;
  entailment_score = none;
  reason_codes = ReasonCodes.span_resolved ∷ [];
}
verdict_of entry other = record {
  span_id = entry.span.span_id;
  role = entry.role;
  status_ok = false;
  digest_ok = false;
  quote = none;
  entailment = unknown;
  entailment_score = none;
  reason_codes = refusal_codes other;
}

-- A candidate without spans gives no verdict, as the early return does.
unfoldable pub verify_evidence :
    (Bytes → ℕ) → List LedgerEvent → List CitedSpan → List GateEvidenceVerdict
unfolding verdict_of verify_spans get_last
verify_evidence sha256 events spans =
    let verifications = verify_spans sha256 events (map (λ (e : CitedSpan). e.span) spans) in
    map (λ (e : CitedSpan). verdict_of e (get_last e.span.span_id verifications)) spans
