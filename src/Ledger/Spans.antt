-- ===== src/Ledger/Spans.antt =====
-- Spans of packages/ledger/src/ledger.ts: `writeSpan`, `verifySpan`, `verifySpans`. Content is its
-- UTF-8 bytes; `sha256` is node:crypto's, a parameter of which nothing is assumed.
pub mod Laws
use verity_mem.Prelude.{
  ℕ, ◌≡◌, refl, ◌⊎◌, inl, inr, ◌-◌, String, Bool, true, false, not, ◌&&◌, ◌||◌, Option, none, some,
  List, [], ◌∷◌, leb, ltb, ◌=?◌, find, length, if◌then◌else◌, is_some, take, drop, ◌==◌, string_eq,
}

abbrev pub Bytes : Type 0
Bytes = List ℕ

-- The fields of `LedgerEvent` that spans depend on.
pub record LedgerEvent : Type 0 where
  pub event_id : ℕ
  pub content : Option Bytes
  pub occurred_at : ℕ
  pub redacted_at : Option ℕ

pub record SpanRecord : Type 0 where
  pub span_id : ℕ
  pub event_id : ℕ
  pub start : ℕ
  pub end : ℕ
  pub selector : Option String
  pub digest : ℕ
  pub quote : Bytes

pub record ProposalSpanInput : Type 0 where
  pub start : ℕ
  pub end : ℕ
  pub selector : Option String

-- `SpanVerification`, with the payload that its users read.
pub data SpanVerification : Type 0 where
  verified : Bytes → SpanVerification
  missing : SpanVerification
  redacted : SpanVerification
  digest_mismatch : ℕ → ℕ → SpanVerification
  out_of_bounds : ℕ → SpanVerification

-- `payload.subarray(start, end)` for `start <= end`.
abbrev pub subarray : Bytes → ℕ → ℕ → Bytes
subarray payload start end = take (end - start) (drop start payload)

module _ (sha256 : Bytes → ℕ) where
  -- `verifySpan` on an event that was found, and whose content is at hand.
  unfoldable pub verify_content : SpanRecord → Bytes → SpanVerification
  verify_content span payload =
      let actual = sha256 (subarray payload span.start span.end) in
      if ltb (length payload) span.end
      then out_of_bounds (length payload)
      else if not (actual =? span.digest)
      then digest_mismatch span.digest actual
      else verified (subarray payload span.start span.end)

  unfoldable pub verify_span : SpanRecord → Option LedgerEvent → SpanVerification
  unfolding verify_content
  verify_span span none = missing
  verify_span span (some event) =
      if is_some event.redacted_at
      then redacted
      else elim event.content [ none ↦ redacted | some payload ↦ verify_content span payload ]

  -- `verifySpans`: a map from span id to verdict, built in order, so the last entry of an id stays.
  unfoldable pub verify_spans : List LedgerEvent → List SpanRecord → List (ℕ × SpanVerification)
  unfolding verify_span
  verify_spans events [] = []
  verify_spans events (s ∷ spans) =
      (s.span_id, verify_span s (find (λ (e : LedgerEvent). e.event_id =? s.event_id) events))
      ∷ verify_spans events spans

-- `Map.get` over entries that were set in order: the last one of a key.
unfoldable pub get_last {ℓ} : {V : Type ℓ} → ℕ → List (ℕ × V) → Option V
get_last key [] = none
get_last key ((k, v) ∷ rest) =
    let later = get_last key rest in
    if is_some later then later else if k =? key then some v else none

-- The columns of `evidence_spans`.
pub record SpanRow : Type 0 where
  pub span_id : ℕ
  pub event_id : ℕ
  pub start_off : ℕ
  pub end_off : ℕ
  pub selector : Option String
  pub span_digest : ℕ
  pub quote : Bytes

-- `LedgerError["code"]`, and the exception that the database raises for a scope that binds nothing.
pub data LedgerError : Type 0 where
  idempotency_conflict scope_out_of_authority invalid_span sequence_conflict not_found
        unbound_scope :
      LedgerError

pub data LedgerResult {ℓ} (A : Type ℓ) : Type ℓ where
  done : A → LedgerResult A
  failed : LedgerError → LedgerResult A

pub LedgerResult-cases {ℓ} :
    {A : Type ℓ} (x : LedgerResult A)
    → ((a : A) × (x ≡ done a)) ⊎ ((e : LedgerError) × (x ≡ failed e))
LedgerResult-cases (done a) = inl (a, refl)
LedgerResult-cases (failed e) = inr (e, refl)

pub done_injective {ℓ} : {A : Type ℓ} {a b : A} → done a ≡ done b → a ≡ b
done_injective h = cc

-- `COALESCE(selector, '')`.
abbrev pub selector_key : Option String → String
selector_key none = ""
selector_key (some selector) = selector

-- The WHERE clause of `writeSpan`, which is the unique index of the table.
abbrev pub is_span_at : ℕ → ProposalSpanInput → SpanRow → Bool
is_span_at event span row =
    (row.event_id =? event)
    && (row.start_off =? span.start)
    && (row.end_off =? span.end)
    && (selector_key row.selector == selector_key span.selector)

abbrev pub payload_of : Option Bytes → Bytes
payload_of none = []
payload_of (some content) = content

module _ (sha256 : Bytes → ℕ) where
  abbrev pub span_digest_of : LedgerEvent → ProposalSpanInput → ℕ
  span_digest_of event span = sha256 (subarray (payload_of event.content) span.start span.end)

  abbrev pub record_at : ℕ → LedgerEvent → ProposalSpanInput → SpanRecord
  record_at id event span = record {
    span_id = id;
    event_id = event.event_id;
    start = span.start;
    end = span.end;
    selector = span.selector;
    digest = span_digest_of event span;
    quote = subarray (payload_of event.content) span.start span.end;
  }

  abbrev pub row_at : ℕ → LedgerEvent → ProposalSpanInput → SpanRow
  row_at id event span = record {
    span_id = id;
    event_id = event.event_id;
    start_off = span.start;
    end_off = span.end;
    selector = span.selector;
    span_digest = span_digest_of event span;
    quote = subarray (payload_of event.content) span.start span.end;
  }

  -- `writeSpan`: the stored span of the same place is taken, or a new one is inserted under the
  -- identifier that the generator hands out. Offsets are natural numbers, so the guard on a negative
  -- start cannot fire.
  unfoldable pub write_span :
      ℕ → LedgerEvent → ProposalSpanInput → List SpanRow → LedgerResult (List SpanRow × SpanRecord)
  write_span fresh event span rows =
      if not (is_some event.content)
      then failed invalid_span
      else if leb span.end span.start || ltb (length (payload_of event.content)) span.end
      then failed invalid_span
      else elim (find (is_span_at event.event_id span) rows) [
        | some row ↦ done (rows, record_at row.span_id event span)
        | none ↦ done (row_at fresh event span ∷ rows, record_at fresh event span)
      ]
