-- ===== src/Retrieval/Compose/Hydrate.antt =====
-- `readEvidence` and `hydrate` of packages/retrieval/src/compose.ts.
use verity_mem.Prelude.{
  ℕ, ◌*◌, true, not, ◌&&◌, Option, none, some, List, [], ◌∷◌, map, any, all, length, is_empty,
  sort_on, ltb, ◌=?◌, nat_eq, string_eq, if◌then◌else◌,
}
use verity_mem.Contracts.Vocabulary.{ActionRisk}
use verity_mem.Claims.Use.{UseEvaluationInput, evaluate_use, age_in_days}
use verity_mem.Store.{ClaimRow, Database}
use verity_mem.Ledger.Spans.{
  Bytes, LedgerEvent, SpanRow, SpanRecord, SpanVerification, verified, verify_spans, get_last,
}
use verity_mem.Retrieval.Plan.{otherwise}
use verity_mem.Retrieval.Fusion.{FusedCandidate}
use verity_mem.Retrieval.Reads.{
  ClaimRelation, find_claim, claim_map, relations_of, is_live_contradiction, evidence_rows,
  is_verified,
}
use verity_mem.Retrieval.Compose.{PacketEvidence, PacketClaim, Dependencies}

-- `readEvidence`: the entries of one claim, in the order of their start, digests checked on this read.
abbrev pub quote_of : Option SpanVerification → Option Bytes
quote_of (some (verified quote)) = some quote
quote_of _ = none

abbrev pub evidence_entry : SpanRecord → Option SpanVerification → PacketEvidence
evidence_entry s verdict = record {
  event_id = s.event_id;
  span_id = s.span_id;
  start = s.start;
  end = s.end;
  quote = quote_of verdict;
  digest = s.digest;
  digest_ok = is_verified verdict;
}

unfoldable pub entries_of :
    List (ℕ × SpanVerification) → ℕ → List (ℕ × SpanRecord) → List PacketEvidence
entries_of verdicts id [] = []
entries_of verdicts id ((claim, s) ∷ rows) =
    let rest = entries_of verdicts id rows in
    if claim =? id then evidence_entry s (get_last s.span_id verdicts) ∷ rest else rest

unfoldable pub packet_evidence :
    (Bytes → ℕ) → List LedgerEvent → List SpanRow → Database → List ℕ → ℕ → List PacketEvidence
unfolding entries_of
packet_evidence sha256 events spans db ids id =
    let rows =
      sort_on (λ (p : ℕ × SpanRecord). p.1.start)
        (evidence_rows (map (λ (c : ClaimRow). c.claim_id) (claim_map db ids)) spans
          db.claim_evidence) in
    entries_of (verify_spans sha256 events (map (λ (p : ℕ × SpanRecord). p.1) rows)) id rows

module _ {Score Vector : Type 0} (deps : Dependencies Score Vector) (events : List LedgerEvent)
    (spans : List SpanRow) (now : ℕ) where
  -- What the use policy is asked about a claim.
  abbrev pub judged_input :
      Option ActionRisk → ClaimRow → List PacketEvidence → List ClaimRelation → UseEvaluationInput
  judged_input risk claim evidence relations = record {
    status = claim.status;
    kind = claim.kind;
    authority = claim.authority;
    valid_to = claim.valid_to;
    expires_at = claim.expires_at;
    has_conflicts = any is_live_contradiction relations;
    digest_ok = not (is_empty evidence) && all (λ (e : PacketEvidence). e.digest_ok) evidence;
    span_count = length evidence;
    age_days = age_in_days claim.valid_from now;
    action_risk = otherwise risk ActionRisk.low;
    query_purpose_matches = true;
    now = now;
  }

  -- The entry of a candidate whose claim was read.
  unfoldable pub packet_claim :
      Option ActionRisk
      → FusedCandidate Score
      → ClaimRow
      → List PacketEvidence
      → List ClaimRelation
      → PacketClaim Score
  packet_claim risk candidate claim evidence relations =
      let verdict = evaluate_use (judged_input risk claim evidence relations) in
      record {
        claim_id = candidate.claim_id;
        kind = claim.kind;
        status = claim.status;
        authority = claim.authority;
        decision = verdict.decision;
        use_reason_codes = verdict.reason_codes;
        scope_id = claim.scope_id;
        valid_from = claim.valid_from;
        valid_to = claim.valid_to;
        age_days = verdict.age_days;
        stale = ltb (100 * verdict.staleness_horizon_days) verdict.age_days;
        expires_at = claim.expires_at;
        evidence = evidence;
        conflicts =
            map (λ (r : ClaimRelation). record { rel = r.rel; outgoing = r.outgoing }) relations;
        signals = candidate.signals;
        fuse_score = candidate.fuse_score;
        channels = candidate.channels;
      }

  -- The loop of `hydrate`; a candidate whose claim is not seen is passed over.
  unfoldable pub hydrate_from :
      Database → Option ActionRisk → List ℕ → List (FusedCandidate Score) → List (PacketClaim Score)
  unfolding packet_claim packet_evidence
  hydrate_from db risk ids [] = []
  hydrate_from db risk ids (c ∷ rest) =
      let later = hydrate_from db risk ids rest in
      elim (find_claim (claim_map db ids) c.claim_id) [
        | none ↦ later
        | some claim ↦
            packet_claim risk c claim (packet_evidence deps.sha256 events spans db ids c.claim_id)
              (relations_of db.claims c.claim_id db.claim_relations)
            ∷ later
      ]

  unfoldable pub hydrate :
      Database → Option ActionRisk → List (FusedCandidate Score) → List (PacketClaim Score)
  unfolding hydrate_from
  hydrate db risk fused =
      hydrate_from db risk (map (λ (c : FusedCandidate Score). c.claim_id) fused) fused
