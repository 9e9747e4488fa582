-- ===== src/Gate/Validation.antt =====
-- packages/gate/src/validation.ts: the integrity of the spans that a candidate cites.
pub mod Laws
use verity_mem.Prelude.{
  ℕ, String, Bool, true, false, not, ◌&&◌, Option, none, some, List, [], ◌∷◌, ◌++◌, map, filter,
  length, is_empty, is_some, ltb, ◌=?◌, if◌then◌else◌,
}
use verity_mem.Contracts.Vocabulary.{EvidenceRole, supports, refutes}
use verity_mem.Contracts.ReasonCodes
use verity_mem.Ledger.Spans.{
  Bytes, LedgerEvent, SpanRecord, SpanVerification, verified, missing, redacted, digest_mismatch,
  out_of_bounds, verify_spans, get_last,
}
use verity_mem.Gate.Evidence.{CitedSpan, is_supporting}

-- `SpanVerification["status"]`.
pub data SpanStatus : Type 0 where
  status_ok status_missing status_redacted status_mismatch status_out_of_bounds : SpanStatus

pub record SpanValidationResult : Type 0 where
  pub span_id : ℕ
  pub role : EvidenceRole
  pub valid : Bool
  pub status : SpanStatus
  pub reason_codes : List String
  pub quote : Option Bytes
  pub quote_matches_stored : Bool

pub record ValidationReport : Type 0 where
  pub spans : List SpanValidationResult
  pub supporting_count : ℕ
  pub refuting_count : ℕ
  pub valid_supporting_count : ℕ
  pub has_valid_support : Bool
  pub reason_codes : List String

-- `quote === entry.span.quote`.
abbrev pub same_bytes : Bytes → Bytes → Bool
same_bytes [] [] = true
same_bytes [] (b ∷ bs) = false
same_bytes (a ∷ tail) [] = false
same_bytes (a ∷ tail) (b ∷ bs) = (a =? b) && same_bytes tail bs

abbrev pub failed_span : CitedSpan → SpanStatus → List String → SpanValidationResult
failed_span entry status codes = record {
  span_id = entry.span.span_id;
  role = entry.role;
  valid = false;
  status = status;
  reason_codes = codes;
  quote = none;
  quote_matches_stored = false;
}

-- One round of the loop; an absent verification counts as missing.
unfoldable pub validate_span : CitedSpan → Option SpanVerification → SpanValidationResult
validate_span entry none = failed_span entry status_missing (ReasonCodes.span_unresolvable ∷ [])
validate_span entry (some missing) =
    failed_span entry status_missing (ReasonCodes.span_unresolvable ∷ [])
validate_span entry (some redacted) =
    failed_span entry status_redacted
      (ReasonCodes.span_event_redacted ∷ ReasonCodes.span_unresolvable ∷ [])
validate_span entry (some (digest_mismatch expected actual)) =
    failed_span entry status_mismatch
      (ReasonCodes.span_digest_mismatch ∷ ReasonCodes.span_unresolvable ∷ [])
validate_span entry (some (out_of_bounds n)) =
    failed_span entry status_out_of_bounds
      (ReasonCodes.span_out_of_bounds ∷ ReasonCodes.span_unresolvable ∷ [])
validate_span entry (some (verified quote)) =
    let matches = same_bytes quote entry.span.quote in
    record {
      span_id = entry.span.span_id;
      role = entry.role;
      valid = matches;
      status = status_ok;
      reason_codes =
          ReasonCodes.span_resolved
          ∷ (if matches then [] else ReasonCodes.span_digest_mismatch ∷ []);
      quote = some quote;
      quote_matches_stored = matches;
    }

abbrev pub is_support : SpanValidationResult → Bool
is_support r = is_supporting r.role

abbrev pub no_spans : ValidationReport
no_spans = record {
  spans = [];
  supporting_count = 0;
  refuting_count = 0;
  valid_supporting_count = 0;
  has_valid_support = false;
  reason_codes = ReasonCodes.no_supporting_evidence ∷ [];
}

unfoldable pub report_of : List SpanValidationResult → ValidationReport
report_of results =
    let supporting = filter is_support results in
    let valid_supporting = filter (λ (r : SpanValidationResult). r.valid) supporting in
    record {
      spans = results;
      supporting_count = length supporting;
      refuting_count = length (filter (λ r. not (is_support r)) results);
      valid_supporting_count = length valid_supporting;
      has_valid_support = ltb 0 (length valid_supporting);
      reason_codes = if length supporting =? 0 then ReasonCodes.no_supporting_evidence ∷ [] else [];
    }

unfoldable pub validate_spans : (Bytes → ℕ) → List LedgerEvent → List CitedSpan → ValidationReport
unfolding validate_span report_of
validate_spans sha256 events [] = no_spans
validate_spans sha256 events (s ∷ spans) =
    let verifications = verify_spans sha256 events (map (λ (c : CitedSpan). c.span) (s ∷ spans)) in
    report_of
      (map (λ (c : CitedSpan). validate_span c (get_last c.span.span_id verifications)) (s ∷ spans))

-- `supportingPremise`: the quotes, with a line feed between them.
abbrev pub join_quotes : List Bytes → Bytes
join_quotes [] = []
join_quotes (q ∷ []) = q
join_quotes (q ∷ r ∷ rest) = q ++ (10 ∷ join_quotes (r ∷ rest))

abbrev pub valid_quotes : List SpanValidationResult → List Bytes
valid_quotes [] = []
valid_quotes (r ∷ results) =
    let rest = valid_quotes results in
    if is_support r && r.valid then elim r.quote [ none ↦ rest | some q ↦ q ∷ rest ] else rest

unfoldable pub supporting_premise : ValidationReport → Bytes
supporting_premise report = join_quotes (valid_quotes report.spans)
