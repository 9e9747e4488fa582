-- ===== src/Retrieval/Reads.antt =====
-- `readRelations` and `readClaims` of packages/claims/src/index.ts, and the evidence rows that
-- packages/retrieval/src/action-gate.ts and compose.ts read.
use verity_mem.Prelude.{
  ℕ, Bool, true, false, Option, none, some, List, [], ◌∷◌, ◌++◌, map, find, filter, contains, ◌=?◌,
  string_eq, nat_eq, if◌then◌else◌,
}
use verity_mem.Contracts.Vocabulary.{ClaimStatus, RelationKind}
use verity_mem.Claims.Use.{is_accepted}
use verity_mem.Store.{ClaimRow, EvidenceRow, RelationRow, Database}
use verity_mem.Ledger.Spans.{
  Bytes, LedgerEvent, SpanRow, SpanRecord, SpanVerification, verified, verify_spans, get_last,
}

-- What the gate reads of a `ClaimRelation`.
pub record ClaimRelation : Type 0 where
  pub rel : RelationKind
  pub outgoing : Bool
  pub other_status : ClaimStatus

abbrev pub find_claim : List ClaimRow → ℕ → Option ClaimRow
find_claim claims id = find (λ (c : ClaimRow). c.claim_id =? id) claims

-- The two pushes of one row of the join, for one of the requested claims.
abbrev pub relation_entries : ℕ → RelationRow → ClaimRow → ClaimRow → List ClaimRelation
relation_entries id r from to =
    (if r.from_claim =? id
      then record { rel = r.rel; outgoing = true; other_status = to.status } ∷ []
      else [])
    ++ (if r.to_claim =? id
        then record { rel = r.rel; outgoing = false; other_status = from.status } ∷ []
        else [])

-- The entry of one requested claim in the map that `readRelations` builds; the joins drop a relation
-- with an end that is not seen.
unfoldable pub relations_of : List ClaimRow → ℕ → List RelationRow → List ClaimRelation
relations_of claims id [] = []
relations_of claims id (r ∷ rows) =
    let rest = relations_of claims id rows in
    elim (find_claim claims r.from_claim) [
      | none ↦ rest
      | some from ↦ elim (find_claim claims r.to_claim) [
        | none ↦ rest
        | some to ↦ relation_entries id r from to ++ rest
      ]
    ]

abbrev pub is_live_contradiction : ClaimRelation → Bool
is_live_contradiction r = elim r.rel [
  | RelationKind.contradicts ↦ is_accepted r.other_status
  | _ ↦ false
]

-- The rows of `claim_evidence` of the claims that were read, joined with their spans.
abbrev pub span_record : SpanRow → SpanRecord
span_record s = record {
  span_id = s.span_id;
  event_id = s.event_id;
  start = s.start_off;
  end = s.end_off;
  selector = none;
  digest = s.span_digest;
  quote = [];
}

abbrev pub join_spans : ℕ → List SpanRow → List (ℕ × SpanRecord)
join_spans claim [] = []
join_spans claim (s ∷ spans) = (claim, span_record s) ∷ join_spans claim spans

unfoldable pub evidence_rows : List ℕ → List SpanRow → List EvidenceRow → List (ℕ × SpanRecord)
evidence_rows ids spans [] = []
evidence_rows ids spans (e ∷ rows) =
    let rest = evidence_rows ids spans rows in
    if contains ids e.claim_id
    then join_spans e.claim_id (filter (λ (s : SpanRow). s.span_id =? e.span_id) spans) ++ rest
    else rest

abbrev pub is_verified : Option SpanVerification → Bool
is_verified (some (verified quote)) = true
is_verified _ = false

-- The list that the map of `readEvidence` holds for a claim: one flag per joined row.
unfoldable pub flags_of : List (ℕ × SpanVerification) → ℕ → List (ℕ × SpanRecord) → List Bool
flags_of verdicts id [] = []
flags_of verdicts id ((claim, s) ∷ rows) =
    let rest = flags_of verdicts id rows in
    if claim =? id then is_verified (get_last s.span_id verdicts) ∷ rest else rest

-- The claims that `readClaims` returns for the requested identifiers.
abbrev pub claim_map : Database → List ℕ → List ClaimRow
claim_map db ids = filter (λ (c : ClaimRow). contains ids c.claim_id) db.claims

unfoldable pub read_evidence :
    (Bytes → ℕ) → List LedgerEvent → List SpanRow → Database → List ℕ → ℕ → List Bool
read_evidence sha256 events spans db ids id =
    let rows =
      evidence_rows (map (λ (c : ClaimRow). c.claim_id) (claim_map db ids)) spans
        db.claim_evidence in
    flags_of (verify_spans sha256 events (map (λ (p : ℕ × SpanRecord). p.1) rows)) id rows
