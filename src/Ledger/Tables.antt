-- ===== src/Ledger/Tables.antt =====
-- The rows, requests and options of packages/ledger/src/ledger.ts that an append reads and writes.
use verity_mem.Prelude.{
  ℕ, String, Bool, true, false, not, ◌&&◌, Option, List, [], ◌∷◌, is_some, ◌=?◌, ◌==◌, string_eq,
  option_eq, nat_eq,
}
use verity_mem.Contracts.Vocabulary.{OriginKind, Sensitivity}
use verity_mem.Store.{ScopeRow}
use verity_mem.Ledger.Spans.{Bytes}
use verity_mem.Ledger.Chain.{EventRow, LinkFields}

pub record StreamRow : Type 0 where
  pub tenant_id : ℕ
  pub stream_id : String
  pub last_seq : ℕ

-- An 'extract.event' row.
pub record OutboxRow : Type 0 where
  pub tenant_id : ℕ
  pub event_id : ℕ
  pub scope_ids : List ℕ
  pub purposes : List String

pub record Participation : Type 0 where
  pub tenant_id : ℕ
  pub principal : String
  pub scope_id : ℕ

-- The tables that an append writes, events newest first.
pub record LedgerState : Type 0 where
  pub tenants : List ℕ
  pub scopes : List ScopeRow
  pub streams : List StreamRow
  pub events : List EventRow
  pub participations : List Participation
  pub outbox : List OutboxRow

pub record ScopeInput : Type 0 where
  pub tenant : ℕ
  pub project : Option String
  pub user : Option String
  pub agent : Option String
  pub session : Option String
  pub purpose : List String

pub record EventAppendRequest : Type 0 where
  pub scope : ScopeInput
  pub stream_id : String
  pub actor_id : String
  pub origin : OriginKind
  pub content : Bytes
  pub occurred_at : ℕ
  pub media_type : Option String
  pub sensitivity : Option Sensitivity
  pub idempotency_key : Option String
  pub expected_seq : Option ℕ

pub record LedgerReceipt : Type 0 where
  pub event_id : ℕ
  pub seq : ℕ
  pub recorded_at : ℕ
  pub scope : ScopeRow
  pub content_hash : ℕ
  pub prev_hash : Option ℕ
  pub deduplicated : Bool
  pub extraction_queued : Bool

-- What the ledger is given: hashing, the blob store's reference, `Array.prototype.sort`, the clock,
-- the inline limit, the identifiers that this call is handed, and `admits`: whether the policy
-- `events_authorized` lets a request that is bound to this one scope read the event.
pub record LedgerOptions : Type 0 where
  pub sha256 : Bytes → ℕ
  pub link : LinkFields → ℕ
  pub blob_ref : Bytes → ℕ
  pub sort : List String → List String
  pub now : ℕ
  pub inline_payload_limit : ℕ
  pub next_event : ℕ
  pub next_scope : ℕ
  pub admits : ScopeRow → EventRow → Bool

abbrev pub same_list : List String → List String → Bool
same_list [] [] = true
same_list [] (y ∷ ys) = false
same_list (x ∷ xs) [] = false
same_list (x ∷ xs) (y ∷ ys) = x == y && same_list xs ys

-- The WHERE clause of `ensureScope`.
abbrev pub is_scope : ScopeInput → List String → ScopeRow → Bool
is_scope input purposes s =
    (s.tenant_id =? input.tenant)
    && s.project == input.project
    && s.user_id == input.user
    && s.agent_id == input.agent
    && s.session_id == input.session
    && same_list s.purpose purposes

abbrev pub binds_nothing : ScopeInput → Bool
binds_nothing input =
    not (is_some input.project)
    && not (is_some input.user)
    && not (is_some input.agent)
    && not (is_some input.session)
