-- ===== src/Retention/Scrub.antt =====
-- The statements of `runForget` in packages/retrieval/src/retention.ts that clear rows, with
-- `deindexClaim` of packages/retrieval/src/projections.ts. Each says how many rows it changed.
pub mod Laws
use verity_mem.Projections.{EmbeddingRow, AliasRow, EntityRow, deindex_claim}
use verity_mem.Prelude.{
  ℕ, ◌+◌, ◌*◌, String, Bool, true, false, not, ◌&&◌, ◌||◌, Option, none, some, List, [], ◌∷◌, map,
  any, find, filter, length, contains, unique, keys_of, is_empty, is_some, leb, ◌=?◌, ◌==◌, nat_eq,
  string_eq, if◌then◌else◌,
}
use verity_mem.Store.{ClaimRow, EvidenceRow}
use verity_mem.Ledger.Spans.{SpanRow}
use verity_mem.Ledger.Chain.{EventRow}
use verity_mem.Retention.{StoredEvent, TraceRow, null_or, has_payload, event_key}

-- `SELECT DISTINCT payload_ref` of the affected events, before they are cleared.
abbrev pub refs_of : List StoredEvent → List ℕ
refs_of [] = []
refs_of (e ∷ events) = elim e.row.payload_ref [
  | none ↦ refs_of events
  | some r ↦ r ∷ refs_of events
]

-- The SET clause of the redaction; `reject_event_mutation` lets it pass.
abbrev pub redact_event : ℕ → StoredEvent → StoredEvent
redact_event now e = record {
  row = record e.row { payload = none; payload_ref = none };
  redacted_at = elim e.redacted_at [ none ↦ some now | some at ↦ some at ];
}

abbrev pub is_redactable : List ℕ → StoredEvent → Bool
is_redactable ids e = contains ids (event_key e) && has_payload e.row

unfoldable pub redact_events : ℕ → List ℕ → List StoredEvent → List StoredEvent
redact_events now ids [] = []
redact_events now ids (e ∷ events) =
    (if is_redactable ids e then redact_event now e else e) ∷ redact_events now ids events

-- `deindexed`: the tenant's claims that cite a span of an affected event.
abbrev pub is_span_of : List ℕ → ℕ → SpanRow → Bool
is_span_of events span s = (s.span_id =? span) && contains events s.event_id

abbrev pub rests_on : List ℕ → List SpanRow → ℕ → EvidenceRow → Bool
rests_on events spans claim e = (e.claim_id =? claim) && any (is_span_of events e.span_id) spans

unfoldable pub deindexed_claims :
    ℕ → List ℕ → List EvidenceRow → List SpanRow → List ClaimRow → List ClaimRow
deindexed_claims tenant events evidence spans claims =
    filter
      (λ (c : ClaimRow). (c.tenant_id =? tenant) && any (rests_on events spans c.claim_id) evidence)
      claims

-- The loop over `deindexed`.
unfoldable pub deindex_all :
    List ℕ → List EmbeddingRow × List EntityRow → List EmbeddingRow × List EntityRow
unfolding deindex_claim
deindex_all [] tables = tables
deindex_all (claim ∷ claims) tables = deindex_all claims (deindex_claim claim tables)

-- `selector.user ?? selector.subject ?? null`.
abbrev pub name_or : Option String → Option String → Option String
name_or (some v) other = some v
name_or none other = other

-- `$2::text IS NULL OR alias = lower($2)`.
abbrev pub names_alias : (String → String) → ℕ → Option String → AliasRow → Bool
names_alias lower tenant name a =
    (a.tenant_id =? tenant) && elim name [ none ↦ true | some v ↦ a.alias == lower v ]

abbrev pub is_recent : ℕ → ℕ → Bool
is_recent now at = leb now (at + 365 * 86400000)

abbrev pub in_window : ℕ → ℕ → TraceRow → Bool
in_window tenant now t = (t.tenant_id =? tenant) && is_recent now t.created_at

unfoldable pub clear_traces : ℕ → ℕ → List TraceRow → List TraceRow
clear_traces tenant now [] = []
clear_traces tenant now (t ∷ traces) =
    (if in_window tenant now t then record t { candidates = []; returned = [] } else t)
    ∷ clear_traces tenant now traces
