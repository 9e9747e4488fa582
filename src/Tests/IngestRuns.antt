-- ===== src/Tests/IngestRuns.antt =====
-- Runs of admission, of the requested scope and of span validation.
use verity_mem.Prelude.{
  ◌≡◌, refl, ◌↔◌, ◌⊎◌, true, false, none, some, [], ◌∷◌, ltb, contains, string_eq,
}
use verity_mem.Contracts.Vocabulary.{OriginKind, ClaimKind, Sensitivity, EvidenceRole}
use verity_mem.Ledger.Spans.{verify_spans, verify_span, verify_content, get_last}
use verity_mem.Gate.Evidence.{CitedSpan}
use verity_mem.Gate.Decide.{scan_for_instructions}
use verity_mem.Gate.Validation.{validate_span, validate_spans, report_of, supporting_premise}
use verity_mem.Gate.Validation.Laws.{has_sound_support, validate_spans-support_iff}
use verity_mem.Ingest.{
  Extractor, ScopeNarrowing, admit, is_blocked, carry, narrowed_input, requested_input,
}
use verity_mem.Ingest.Laws.{IsInside, IsAgreeing, requested_input-IsInside_iff}
use verity_mem.Tests.World.{digest, said, cited_span, home}

abbrev no_wish : ScopeNarrowing
no_wish = record { project = none; user = none; agent = none; session = none; purpose = none }

abbrev for_bob : ScopeNarrowing
for_bob = record no_wish { user = some "bob" }

-- Asking for another user than the event's leaves the user open.
widened :
    requested_input home for_bob no_wish
    ≡ some (record {
      tenant = 1;
      project = some "apollo";
      user = none;
      agent = none;
      session = none;
      purpose = "coding" ∷ [];
    })
unfolding requested_input carry
widened = refl

run_for_bob : requested_input home for_bob no_wish ≡ some (narrowed_input home for_bob)
unfolding requested_input carry
run_for_bob = refl

requested_input-IsInside_iff_example :
    (IsInside (narrowed_input home for_bob) home ↔ IsAgreeing for_bob home)
    × ((contains (narrowed_input home for_bob).purpose "coding" ≡ false)
        ⊎ (contains home.purpose "coding" ≡ true))
requested_input-IsInside_iff_example =
    requested_input-IsInside_iff home for_bob no_wish (narrowed_input home for_bob) "coding"
      run_for_bob

abbrev cited : CitedSpan
cited = record { span = cited_span; role = EvidenceRole.supports }

validate_spans-support_iff_example :
    ((validate_spans digest (said ∷ []) (cited ∷ [])).has_valid_support
      ≡ has_sound_support (verify_spans digest (said ∷ []) (cited_span ∷ [])) (cited ∷ []))
    × (ltb 0 (validate_spans digest (said ∷ []) (cited ∷ [])).valid_supporting_count
        ≡ (validate_spans digest (said ∷ []) (cited ∷ [])).has_valid_support)
validate_spans-support_iff_example = validate_spans-support_iff digest (said ∷ []) (cited ∷ [])

supported : (validate_spans digest (said ∷ []) (cited ∷ [])).has_valid_support ≡ true
unfolding validate_spans validate_span report_of verify_spans verify_span verify_content get_last
supported = refl

premise : supporting_premise (validate_spans digest (said ∷ []) (cited ∷ [])) ≡ 104 ∷ 101 ∷ 121 ∷ []
unfolding validate_spans validate_span report_of verify_spans verify_span verify_content get_last
    supporting_premise
premise = refl

abbrev model : Extractor
model = record { id = "model"; is_model_call = true; produces = ClaimKind.procedure ∷ [] }

-- A model that proposes procedures does not read a document with instructions in it.
blocked :
    is_blocked model
      (admit ((λ text. some text) ∷ []) OriginKind.document (some (1 ∷ [])) Sensitivity.normal)
    ≡ true
unfolding is_blocked admit scan_for_instructions
blocked = refl
