-- ===== src/Retention.antt =====
-- packages/retrieval/src/retention.ts: the tables that a forget operation scrubs and scans, and what
-- a request selects of them. `now()` of the database and the identifiers are arguments.
pub mod Blobs
pub mod Scrub
pub mod Revoke
pub mod Scan
pub mod Forget
pub mod Correct
use verity_mem.Prelude.{
  ℕ, String, Bool, true, false, ◌&&◌, ◌||◌, Option, none, some, List, [], ◌∷◌, find, filter,
  keys_of, is_some, ◌=?◌, ◌==◌, string_eq,
}
use verity_mem.Store.{ScopeRow, ClaimRow, Database}
use verity_mem.Projections.{EmbeddingRow, AliasRow, EntityRow}
use verity_mem.Ledger.Spans.{SpanRow}
use verity_mem.Ledger.Chain.{EventRow}

pub data RetentionMode : Type 0 where
  erase redact export_then_erase : RetentionMode

-- `subject_or_scope`.
pub record Selector : Type 0 where
  pub project : Option String
  pub user : Option String
  pub agent : Option String
  pub session : Option String
  pub actor_id : Option String
  pub subject : Option String

pub record ForgetRequest : Type 0 where
  pub tenant_id : ℕ
  pub subject_or_scope : Selector
  pub mode : Option RetentionMode
  pub reason : String

-- A row of `events` with the column that only retention writes.
pub record StoredEvent : Type 0 where
  pub row : EventRow
  pub redacted_at : Option ℕ

pub record TraceRow : Type 0 where
  pub tenant_id : ℕ
  pub candidates : List ℕ
  pub returned : List ℕ
  pub created_at : ℕ

-- Every tenant's rows.
pub record RetentionTables : Type 0 where
  pub database : Database
  pub events : List StoredEvent
  pub evidence_spans : List SpanRow
  pub claim_embeddings : List EmbeddingRow
  pub entity_aliases : List AliasRow
  pub claim_entities : List EntityRow
  pub query_traces : List TraceRow

-- `$n::text IS NULL OR column = $n`.
abbrev pub null_or : Option String → Option String → Bool
null_or none column = true
null_or (some v) none = false
null_or (some v) (some c) = c == v

abbrev pub has_payload : EventRow → Bool
has_payload e = is_some e.payload || is_some e.payload_ref

-- `JOIN scopes s ON s.scope_id = …` with a condition on `s`.
abbrev pub joins : List ScopeRow → (ScopeRow → Bool) → ℕ → Bool
joins scopes p id = elim (find (λ (s : ScopeRow). s.scope_id =? id) scopes) [
  | none ↦ false
  | some s ↦ p s
]

abbrev pub in_scope : Selector → ScopeRow → Bool
in_scope selector s =
    null_or selector.project s.project
    && null_or selector.user s.user_id
    && null_or selector.agent s.agent_id
    && null_or selector.session s.session_id

-- The WHERE clauses of `affectedEvents` and `affectedClaims`.
unfoldable pub selects_event : ℕ → Selector → List ScopeRow → EventRow → Bool
selects_event tenant selector scopes e =
    (e.tenant_id =? tenant)
    && joins scopes (in_scope selector) e.scope_id
    && null_or selector.actor_id (some e.actor_id)

unfoldable pub selects_claim : ℕ → Selector → List ScopeRow → ClaimRow → Bool
selects_claim tenant selector scopes c =
    (c.tenant_id =? tenant)
    && joins scopes (in_scope selector) c.scope_id
    && null_or selector.subject (some c.subject)

abbrev pub event_key : StoredEvent → ℕ
event_key e = e.row.event_id

abbrev pub claim_key : ClaimRow → ℕ
claim_key c = c.claim_id

unfoldable pub affected_events : ForgetRequest → RetentionTables → List StoredEvent
unfolding selects_event
affected_events request t =
    filter
      (λ (e : StoredEvent).
        selects_event request.tenant_id request.subject_or_scope t.database.scopes e.row)
      t.events

unfoldable pub affected_claims : ForgetRequest → RetentionTables → List ClaimRow
unfolding selects_claim
affected_claims request t =
    filter (selects_claim request.tenant_id request.subject_or_scope t.database.scopes)
      t.database.claims
