-- ===== src/Retrieval/Compose/Evidence.antt =====
-- What the evidence entries of a packet's claim are, against the tables and the events read.
use verity_mem.Prelude.{
  ℕ, ◌≡◌, refl, sym, ap, ◌∙◌, inl, inr, ◌⊎◌, Bool, true, false, ◌&&◌, some, List, [], ◌∷◌, map, any,
  find, filter, contains, ◌=?◌, nat_eq, Bool-cases, Option-cases, All, All-map, All-append,
  All-sort_on, any-All, arith,
}
use verity_mem.Store.{ClaimRow, EvidenceRow, Database}
use verity_mem.Ledger.Spans.{
  Bytes, LedgerEvent, SpanRow, SpanRecord, verify_span, verify_spans, get_last,
}
use verity_mem.Retrieval.Reads.{evidence_rows, join_spans, span_record, claim_map, is_verified}
use verity_mem.Retrieval.Compose.{PacketEvidence}
use verity_mem.Retrieval.Compose.Hydrate.{evidence_entry, entries_of, packet_evidence}

-- A row of the join stands on a span that is stored: what holds of it holds of a stored span.
abbrev IsStored : List SpanRow → SpanRecord → Type 0
IsStored spans s = (p : SpanRecord → Bool) → p s ≡ true → any (λ x. p (span_record x)) spans ≡ true

-- The claim cites the span.
abbrev pub cites : ℕ → ℕ → EvidenceRow → Bool
cites claim span row = (row.claim_id =? claim) && (row.span_id =? span)

abbrev IsJoined : List SpanRow → List EvidenceRow → ℕ × SpanRecord → Type 0
IsJoined spans evidence p = IsStored spans p.1 × (any (cites p.0 p.1.span_id) evidence ≡ true)

join_spans-IsJoined :
    (claim span : ℕ) (spans : List SpanRow) (e : EvidenceRow) (rest : List EvidenceRow)
    → e.claim_id ≡ claim
    → e.span_id ≡ span
    → All
        (IsJoined spans (e ∷ rest))
        (join_spans claim (filter (λ (s : SpanRow). s.span_id =? span) spans))
join_spans-IsJoined claim span [] e rest own cited = tt
join_spans-IsJoined claim span (x ∷ spans) e rest own cited =
    let later =
      All-map (IsJoined spans (e ∷ rest)) (IsJoined (x ∷ spans) (e ∷ rest))
        (λ p h. ((λ q hit. let k = h.0 q hit in ground (arith, k)), h.1))
        (join_spans claim (filter (λ (s : SpanRow). s.span_id =? span) spans))
        (join_spans-IsJoined claim span spans e rest own cited) in
    elim (Bool-cases (x.span_id =? span)) [
      | inr off ↦ rw off later
      | inl on ↦ rw on (((λ q hit. ground (arith, hit)), ground (arith, on, own, cited)), later)
    ]

evidence_rows-IsJoined :
    (ids : List ℕ) (spans : List SpanRow) (rows : List EvidenceRow)
    → All (IsJoined spans rows) (evidence_rows ids spans rows)
unfolding evidence_rows
evidence_rows-IsJoined ids spans [] = tt
evidence_rows-IsJoined ids spans (e ∷ rows) =
    let later =
      All-map (IsJoined spans rows) (IsJoined spans (e ∷ rows))
        (λ p h. (h.0, let k = h.1 in ground (arith, k))) (evidence_rows ids spans rows)
        (evidence_rows-IsJoined ids spans rows) in
    elim (Bool-cases (contains ids e.claim_id)) [
      | inr off ↦ rw off later
      | inl on ↦ rw on (
          All-append _
            (join_spans e.claim_id (filter (λ (s : SpanRow). s.span_id =? e.span_id) spans))
            (evidence_rows ids spans rows)
            (join_spans-IsJoined e.claim_id e.span_id spans e rows refl refl) later)
    ]

module _ (sha256 : Bytes → ℕ) (events : List LedgerEvent) where
  -- The span of this id whose bytes hash to its digest, in an event that is there with its content.
  abbrev pub holds_now : ℕ → SpanRecord → Bool
  holds_now key s =
      (s.span_id =? key)
      && is_verified (
          some (verify_span sha256 s (find (λ (e : LedgerEvent). e.event_id =? s.event_id) events)))

  verified-holds_now :
      (key : ℕ) (rows : List (ℕ × SpanRecord))
      → is_verified
          (get_last key (verify_spans sha256 events (map (λ (p : ℕ × SpanRecord). p.1) rows)))
        ≡ true
      → any (λ (p : ℕ × SpanRecord). holds_now key p.1) rows ≡ true
  unfolding verify_spans get_last
  verified-holds_now key [] h = absurd (cc h)
  verified-holds_now key ((claim, s) ∷ rows) h =
      elim (Option-cases
        (get_last key (verify_spans sha256 events (map (λ (p : ℕ × SpanRecord). p.1) rows)))) [
          | inr (v, found) ↦
              let value : get_last key
                    (verify_spans sha256 events (s ∷ map (λ (p : ℕ × SpanRecord). p.1) rows))
                  ≡ some v =
                rw (get_last, found) refl in
              let rest = verified-holds_now key rows (ap is_verified (found ∙ sym value) ∙ h) in
              ground (arith, rest)
          | inl last ↦ elim (Bool-cases (s.span_id =? key)) [
            | inl own ↦ let k = rw (get_last, last, own) at h in rw own (ground (arith, k))
            | inr other ↦ absurd (cc (rw (get_last, last, other) at h))
          ]
        ]

  -- The stored span that an entry shows.
  abbrev pub shows : PacketEvidence → SpanRecord → Bool
  shows e s =
      (s.span_id =? e.span_id)
      && (s.event_id =? e.event_id)
      && (s.start =? e.start)
      && (s.end =? e.end)
      && (s.digest =? e.digest)

  -- An entry shows a stored span that the claim cites, and it is marked as verified only when the
  -- bytes of the stored span verify against the events now.
  pub record IsGenuine (spans : List SpanRow) (db : Database) (claim : ℕ) (e : PacketEvidence)
      : Type 0 where
    pub cited : any (cites claim e.span_id) db.claim_evidence ≡ true
    pub stored : any (λ x. shows e (span_record x)) spans ≡ true
    pub checked :
        (e.digest_ok ≡ false) ⊎ (any (λ x. holds_now e.span_id (span_record x)) spans ≡ true)

  entry-IsGenuine :
      (spans : List SpanRow) (db : Database) (id : ℕ) (s : SpanRecord)
      (all_rows : List (ℕ × SpanRecord))
      → IsJoined spans db.claim_evidence (id, s)
      → All (IsJoined spans db.claim_evidence) all_rows
      → IsGenuine spans db id (
          evidence_entry s (
            get_last s.span_id
              (verify_spans sha256 events (map (λ (p : ℕ × SpanRecord). p.1) all_rows))))
  entry-IsGenuine spans db id s all_rows own joined =
      let verdict =
        get_last s.span_id
          (verify_spans sha256 events (map (λ (p : ℕ × SpanRecord). p.1) all_rows)) in
      record {
        cited = own.1;
        stored = own.0 (shows (evidence_entry s verdict)) (ground arith);
        checked = elim (Bool-cases (is_verified verdict)) [
          | inr bad ↦ inl bad
          | inl good ↦
              let (p, (hit, from)) =
                any-All (IsJoined spans db.claim_evidence)
                  (λ (p : ℕ × SpanRecord). holds_now s.span_id p.1) all_rows
                  (verified-holds_now s.span_id all_rows good) joined in
              inr (from.0 (holds_now s.span_id) hit)
        ];
      }

  entries_of-IsGenuine :
      (spans : List SpanRow) (db : Database) (id : ℕ) (all_rows rows : List (ℕ × SpanRecord))
      → All (IsJoined spans db.claim_evidence) all_rows
      → All (IsJoined spans db.claim_evidence) rows
      → All (IsGenuine spans db id) (
          entries_of
            (verify_spans sha256 events (map (λ (p : ℕ × SpanRecord). p.1) all_rows))
            id
            rows)
  unfolding entries_of
  entries_of-IsGenuine spans db id all_rows [] joined h = tt
  entries_of-IsGenuine spans db id all_rows ((claim, s) ∷ rows) joined h =
      let rest = entries_of-IsGenuine spans db id all_rows rows joined h.1 in
      elim (Bool-cases (claim =? id)) [
        | inr off ↦ rw (entries_of, off) rest
        | inl on ↦
            let same : claim ≡ id = ground (arith, on) in
            rw (entries_of, on)
              (entry-IsGenuine spans db id s all_rows (rw same at h.0) joined, rest)
      ]

  pub packet_evidence-IsGenuine :
      (spans : List SpanRow) (db : Database) (ids : List ℕ) (id : ℕ)
      → All (IsGenuine spans db id) (packet_evidence sha256 events spans db ids id)
  unfolding packet_evidence
  packet_evidence-IsGenuine spans db ids id =
      let read =
        evidence_rows (map (λ (c : ClaimRow). c.claim_id) (claim_map db ids)) spans
          db.claim_evidence in
      let joined =
        All-sort_on (λ (p : ℕ × SpanRecord). p.1.start) (IsJoined spans db.claim_evidence) read
          (evidence_rows-IsJoined (map (λ (c : ClaimRow). c.claim_id) (claim_map db ids)) spans
            db.claim_evidence) in
      entries_of-IsGenuine spans db id _ _ joined joined
