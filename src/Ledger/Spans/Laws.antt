-- ===== src/Ledger/Spans/Laws.antt =====
-- Exact bytes: what `writeSpan` records is what `verifySpan` resolves.
use verity_mem.Prelude.{
  ℕ, ◌<◌, ◌≤◌, ◌≡◌, refl, sym, ap, ◌↔◌, true, none, some, List, ◌∷◌, length, find, is_some, arith,
  Option-cases, inl, inr, string_eq, beq_refl,
}
use verity_mem.Ledger.Spans.{
  Bytes, LedgerEvent, SpanRecord, SpanRow, ProposalSpanInput, verified, subarray, verify_content,
  verify_span, done, payload_of, write_span, is_span_at, record_at, row_at, selector_key,
}

-- The bytes of a span, in an event that has not been redacted.
abbrev pub Resolves : (Bytes → ℕ) → SpanRecord → LedgerEvent → Bytes → Type 0
Resolves sha256 span event quote =
    (event.redacted_at ≡ none)
    × (payload : Bytes) × (event.content ≡ some payload)
    × (span.end ≤ length payload)
    × (sha256 (subarray payload span.start span.end) ≡ span.digest)
    × (quote ≡ subarray payload span.start span.end)

verify_content-verified_iff :
    (sha256 : Bytes → ℕ) (span : SpanRecord) (payload quote : Bytes)
    → (verify_content sha256 span payload ≡ verified quote) ↔ (
        (span.end ≤ length payload)
        × (sha256 (subarray payload span.start span.end) ≡ span.digest)
        × (quote ≡ subarray payload span.start span.end))
unfolding verify_content
verify_content-verified_iff sha256 span payload quote =
    (λ h. (ground arith, ground arith, ground arith), λ p. let e = p.2 in ground arith)

module _ (sha256 : Bytes → ℕ) where
  verified-Resolves :
      (span : SpanRecord) (event : LedgerEvent) (quote : Bytes)
      → verify_span sha256 span (some event) ≡ verified quote
      → Resolves sha256 span event quote
  unfolding verify_span
  verified-Resolves span event quote h = elim (Option-cases event.content) [
    | inl gone ↦ ground arith
    | inr (payload, e) ↦
        let p = (verify_content-verified_iff sha256 span payload quote).0 (ground arith) in
        (ground arith, payload, e, p.0, p.1, p.2)
  ]

  Resolves-verified :
      (span : SpanRecord) (event : LedgerEvent) (quote : Bytes)
      → Resolves sha256 span event quote
      → verify_span sha256 span (some event) ≡ verified quote
  unfolding verify_span
  Resolves-verified span event quote p =
      let v = (verify_content-verified_iff sha256 span p.1 quote).1 (p.3, p.4, p.5) in ground arith

  -- A span verifies exactly when its event was found and is not redacted, the payload reaches the
  -- span's end, and the bytes there hash to the recorded digest; the quote is then those bytes.
  pub verify_span-verified_iff :
      (span : SpanRecord) (event : LedgerEvent) (quote : Bytes)
      → (verify_span sha256 span (some event) ≡ verified quote) ↔ Resolves sha256 span event quote
  verify_span-verified_iff span event quote =
      (verified-Resolves span event quote, Resolves-verified span event quote)

  written :
      (fresh : ℕ) (event : LedgerEvent) (span : ProposalSpanInput) (rows rows' : List SpanRow)
      (r : SpanRecord)
      → write_span sha256 fresh event span rows ≡ done (rows', r)
      → (is_some event.content ≡ true)
        × (span.start < span.end)
        × (span.end ≤ length (payload_of event.content))
        × ((id : ℕ) × (r ≡ record_at sha256 id event span))
  unfolding write_span
  written fresh event span rows rows' r h =
      elim (Option-cases (find (is_span_at event.event_id span) rows)) [
        | inl new ↦ (ground arith, ground arith, ground arith, (fresh, ground arith))
        | inr (row, old) ↦ (ground arith, ground arith, ground arith, (row.span_id, ground arith))
      ]

  -- What `writeSpan` returns for an event that is not redacted verifies against that event, to the
  -- bytes that it quoted.
  pub write_span-verified :
      (fresh : ℕ) (event : LedgerEvent) (span : ProposalSpanInput) (rows rows' : List SpanRow)
      (r : SpanRecord)
      → event.redacted_at ≡ none
      → write_span sha256 fresh event span rows ≡ done (rows', r)
      → verify_span sha256 r (some event) ≡ verified r.quote
  write_span-verified fresh event span rows rows' r live h =
      let w = written fresh event span rows rows' r h in
      let e = w.3.1 in
      elim (Option-cases event.content) [
        | inl gone ↦ absurd (cc (rw gone at w.0))
        | inr (payload, content) ↦
            let quoted : subarray (payload_of event.content) span.start span.end
                ≡ subarray payload span.start span.end =
              rw content refl in
            let inside : span.end ≤ length payload = rw content at w.2 in
            Resolves-verified r event r.quote
              (live, payload, content, rw e inside, rw e (ap sha256 (sym quoted)), rw e quoted)
      ]

  inside_done :
      (fresh : ℕ) (event : LedgerEvent) (span : ProposalSpanInput) (rows : List SpanRow)
      → is_some event.content ≡ true
      → span.start < span.end
      → span.end ≤ length (payload_of event.content)
      → (p : List SpanRow × SpanRecord) × (write_span sha256 fresh event span rows ≡ done p)
  unfolding write_span
  inside_done fresh event span rows some_content order inside =
      elim (Option-cases (find (is_span_at event.event_id span) rows)) [
        | inl new ↦ (
          (row_at sha256 fresh event span ∷ rows, record_at sha256 fresh event span),
          ground arith,
        )
        | inr (row, old) ↦ ((rows, record_at sha256 row.span_id event span), ground arith)
      ]

  -- `writeSpan` succeeds exactly for a non-empty span inside the payload of an event that still has
  -- its content.
  pub write_span-done_iff :
      (fresh : ℕ) (event : LedgerEvent) (span : ProposalSpanInput) (rows : List SpanRow)
      → ((p : List SpanRow × SpanRecord) × (write_span sha256 fresh event span rows ≡ done p)) ↔ (
          (is_some event.content ≡ true)
          × (span.start < span.end)
          × (span.end ≤ length (payload_of event.content)))
  write_span-done_iff fresh event span rows = (
    λ p. let w = written fresh event span rows p.0.0 p.0.1 p.1 in (w.0, w.1, w.2),
    λ q. inside_done fresh event span rows q.0 q.1 q.2,
  )

  -- Writing the span again, whatever identifier is handed out, changes nothing and gives the same
  -- record.
  pub write_span-idempotent :
      (fresh fresh' : ℕ) (event : LedgerEvent) (span : ProposalSpanInput)
      (rows rows' : List SpanRow) (r : SpanRecord)
      → write_span sha256 fresh event span rows ≡ done (rows', r)
      → write_span sha256 fresh' event span rows' ≡ done (rows', r)
  unfolding write_span
  write_span-idempotent fresh fresh' event span rows rows' r h =
      let key = beq_refl (selector_key span.selector) in
      elim (Option-cases (find (is_span_at event.event_id span) rows)) [
        | inl new ↦ ground (arith, key)
        | inr (row, old) ↦ ground arith
      ]
