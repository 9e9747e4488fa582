-- ===== src/Gate/Validation/Laws.antt =====
-- When a candidate has valid support, against what verification found.
use verity_mem.Prelude.{
  ℕ, ◌≡◌, refl, Bool, false, ◌&&◌, Option, none, some, List, [], ◌∷◌, map, any, filter, length, ltb,
  arith,
}
use verity_mem.Ledger.Spans.{
  Bytes, LedgerEvent, SpanVerification, verified, missing, redacted, digest_mismatch, out_of_bounds,
  verify_spans, get_last,
}
use verity_mem.Gate.Evidence.{CitedSpan, is_supporting}
use verity_mem.Gate.Validation.{
  SpanValidationResult, validate_span, validate_spans, report_of, same_bytes, is_support,
}

-- The span verified against the ledger, and its quote is the stored one.
abbrev pub is_sound : CitedSpan → Option SpanVerification → Bool
is_sound c (some (verified quote)) = same_bytes quote c.span.quote
is_sound c _ = false

validate_span-valid :
    (c : CitedSpan) (v : Option SpanVerification)
    → ((validate_span c v).valid ≡ is_sound c v) × ((validate_span c v).role ≡ c.role)
unfolding validate_span
validate_span-valid c none = (refl, refl)
validate_span-valid c (some missing) = (refl, refl)
validate_span-valid c (some redacted) = (refl, refl)
validate_span-valid c (some (digest_mismatch a b)) = (refl, refl)
validate_span-valid c (some (out_of_bounds n)) = (refl, refl)
validate_span-valid c (some (verified quote)) = (refl, refl)

-- Some cited span supports the candidate and is sound.
abbrev pub has_sound_support : List (ℕ × SpanVerification) → List CitedSpan → Bool
has_sound_support verifications spans =
    any
      (λ (c : CitedSpan).
        is_supporting c.role && is_sound c (get_last c.span.span_id verifications))
      spans

count_valid :
    (verifications : List (ℕ × SpanVerification)) (spans : List CitedSpan)
    → ltb 0 (
        length (
          filter
            (λ (r : SpanValidationResult). r.valid)
            (filter is_support (
              map
                (λ (c : CitedSpan). validate_span c (get_last c.span.span_id verifications))
                spans))))
      ≡ has_sound_support verifications spans
count_valid verifications [] = refl
count_valid verifications (c ∷ spans) =
    let (v, r) = validate_span-valid c (get_last c.span.span_id verifications) in
    ground (arith, v, r, count_valid verifications spans)

-- A candidate has valid support exactly when one of its spans cites in support, was verified against
-- the ledger's bytes, and has a stored quote that is those bytes; without one it has none, however
-- many spans it cites, and `valid_supporting_count` is not zero exactly then.
pub validate_spans-support_iff :
    (sha256 : Bytes → ℕ) (events : List LedgerEvent) (spans : List CitedSpan)
    → ((validate_spans sha256 events spans).has_valid_support
        ≡ has_sound_support
            (verify_spans sha256 events (map (λ (c : CitedSpan). c.span) spans))
            spans)
      × (ltb 0 (validate_spans sha256 events spans).valid_supporting_count
          ≡ (validate_spans sha256 events spans).has_valid_support)
unfolding validate_spans report_of
validate_spans-support_iff sha256 events [] = (refl, refl)
validate_spans-support_iff sha256 events (s ∷ spans) = (
  count_valid (verify_spans sha256 events (map (λ (c : CitedSpan). c.span) (s ∷ spans)))
      (s ∷ spans),
  refl,
)
