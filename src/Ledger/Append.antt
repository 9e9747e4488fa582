-- ===== src/Ledger/Append.antt =====
-- `ensureScope`, `append` and `findByIdempotencyKey` of packages/ledger/src/ledger.ts. An error rolls
-- the transaction back, so the old state stays. Identifiers handed out are taken to be new. Once the
-- write scope is bound, every SELECT on events reads what row-level security admits; the unique index
-- on the key and the counter of the stream know all rows.
pub mod Effect
pub mod Answers
pub mod Laws
pub mod Linking
pub mod Verified
use verity_mem.Ledger.Tables.{
  StreamRow, OutboxRow, Participation, LedgerState, ScopeInput, EventAppendRequest, LedgerReceipt,
  LedgerOptions, same_list, is_scope, binds_nothing,
}
use verity_mem.Prelude.{
  ℕ, ◌-◌, String, Bool, true, false, not, ◌&&◌, ◌||◌, Option, none, some, List, [], ◌∷◌, any, find,
  filter, leb, length, is_some, unique, ◌=?◌, ◌==◌, string_eq, option_eq, nat_eq, if◌then◌else◌,
  suc,
}
use verity_mem.Contracts.Vocabulary.{OriginKind, Sensitivity, normal}
use verity_mem.Store.{ScopeRow}
use verity_mem.Ledger.Spans.{
  Bytes, LedgerResult, done, failed, LedgerError, idempotency_conflict, invalid_span,
  sequence_conflict, unbound_scope,
}
use verity_mem.Ledger.Chain.{EventRow, LinkFields, in_stream}

-- With `veritymem.ensure_scope` of migrations/0003_scope_and_chain.sql, which creates the row.
unfoldable pub ensure_scope :
    LedgerOptions → ScopeInput → LedgerState → LedgerResult (LedgerState × ScopeRow)
ensure_scope options input st =
    let purposes = options.sort (unique input.purpose) in
    let created : ScopeRow = record {
      scope_id = options.next_scope;
      tenant_id = input.tenant;
      project = input.project;
      user_id = input.user;
      agent_id = input.agent;
      session_id = input.session;
      purpose = purposes;
    } in
    elim (find (is_scope input purposes) st.scopes) [
      | some found ↦ done (st, found)
      | none ↦
          if binds_nothing input
          then failed unbound_scope
          else done (record st { scopes = created ∷ st.scopes }, created)
    ]

abbrev pub ensure_tenant : ℕ → LedgerState → LedgerState
ensure_tenant tenant st =
    if any (λ t. t =? tenant) st.tenants then st else record st { tenants = tenant ∷ st.tenants }

abbrev pub has_key : ℕ → String → EventRow → Bool
has_key tenant key e = (e.tenant_id =? tenant) && e.idempotency_key == some key

abbrev pub find_scope : List ScopeRow → ℕ → Option ScopeRow
find_scope scopes id = find (λ (s : ScopeRow). s.scope_id =? id) scopes

abbrev pub receipt_of : EventRow → ScopeRow → LedgerReceipt
receipt_of e scope = record {
  event_id = e.event_id;
  seq = e.seq;
  recorded_at = e.recorded_at;
  scope = scope;
  content_hash = e.content_hash;
  prev_hash = e.prev_hash;
  deduplicated = true;
  extraction_queued = true;
}

-- On the state as the request sees it.
unfoldable pub find_by_idempotency_key : LedgerState → ℕ → String → Option LedgerReceipt
find_by_idempotency_key st tenant key = elim (find (has_key tenant key) st.events) [
  | none ↦ none
  | some e ↦ elim (find_scope st.scopes e.scope_id) [
    | none ↦ none
    | some scope ↦ some (receipt_of e scope)
  ]
]

abbrev pub is_stream : ℕ → String → StreamRow → Bool
is_stream tenant stream s = (s.tenant_id =? tenant) && s.stream_id == stream

abbrev pub last_seq_of : ℕ → String → List StreamRow → ℕ
last_seq_of tenant stream [] = 0
last_seq_of tenant stream (s ∷ streams) =
    let later = last_seq_of tenant stream streams in
    if is_stream tenant stream s then s.last_seq else later

-- `INSERT INTO streams … ON CONFLICT … DO UPDATE SET last_seq = streams.last_seq + 1`.
unfoldable pub bump_stream : ℕ → String → List StreamRow → List StreamRow
bump_stream tenant stream [] = record { tenant_id = tenant; stream_id = stream; last_seq = 1 } ∷ []
bump_stream tenant stream (s ∷ streams) =
    let rest = bump_stream tenant stream streams in
    if is_stream tenant stream s then record s { last_seq = suc s.last_seq } ∷ streams else s ∷ rest

abbrev pub is_at : ℕ → String → ℕ → EventRow → Bool
is_at tenant stream seq e = in_stream tenant stream e && (e.seq =? seq)

abbrev pub hash_at : ℕ → String → ℕ → List EventRow → Option ℕ
hash_at tenant stream seq events = elim (find (is_at tenant stream seq) events) [
  | none ↦ none
  | some e ↦ some e.content_hash
]

abbrev pub or_default {ℓ} : {A : Type ℓ} → Option A → A → A
or_default none d = d
or_default (some a) d = a

-- `veritymem.record_participation`: ON CONFLICT DO NOTHING.
abbrev pub record_participation : ℕ → String → ℕ → List Participation → List Participation
record_participation tenant principal scope rows =
    if any
      (λ (p : Participation).
        (p.tenant_id =? tenant) && p.principal == principal && (p.scope_id =? scope))
      rows
    then rows
    else record { tenant_id = tenant; principal = principal; scope_id = scope } ∷ rows

module _ (options : LedgerOptions) where
  -- What a SELECT reads after `set_request_context` has bound the one scope of the write.
  abbrev pub seen : ScopeRow → LedgerState → LedgerState
  seen scope st = record st { events = filter (options.admits scope) st.events }

  -- The row that the INSERT writes.
  unfoldable pub event_for : EventAppendRequest → ScopeRow → ℕ → Option ℕ → EventRow
  event_for request scope seq prev =
      let hash = options.sha256 request.content in
      let inline = leb (length request.content) options.inline_payload_limit in
      record {
        event_id = options.next_event;
        stream_id = request.stream_id;
        seq = seq;
        tenant_id = request.scope.tenant;
        scope_id = scope.scope_id;
        origin = request.origin;
        actor_id = request.actor_id;
        occurred_at = request.occurred_at;
        recorded_at = options.now;
        payload = if inline then some request.content else none;
        payload_ref = if inline then none else some (options.blob_ref request.content);
        content_hash = hash;
        prev_hash = prev;
        link_hash = some (
            options.link (record {
              stream_id = request.stream_id;
              seq = seq;
              content_hash = hash;
              prev_hash = prev;
              actor_id = request.actor_id;
              occurred_at = request.occurred_at;
            }));
        chained = true;
        sensitivity = or_default request.sensitivity normal;
        idempotency_key = request.idempotency_key;
        media_type = or_default request.media_type "text/plain";
        byte_length = length request.content;
      }

  -- The unique index on `(tenant_id, idempotency_key)`; a NULL key never conflicts.
  abbrev pub key_taken : EventAppendRequest → List EventRow → Bool
  key_taken request events = elim request.idempotency_key [
    | none ↦ false
    | some key ↦ any (has_key request.scope.tenant key) events
  ]

  abbrev pub replay_of : EventAppendRequest → LedgerState → Option LedgerReceipt
  replay_of request st = elim request.idempotency_key [
    | none ↦ none
    | some key ↦ if key == "" then none else find_by_idempotency_key st request.scope.tenant key
  ]

  -- A stored event of the same key: the same content is answered by it, other content is refused.
  abbrev pub answer :
      EventAppendRequest
      → LedgerState
      → LedgerReceipt
      → Bool
      → LedgerResult (LedgerState × LedgerReceipt)
  answer request st receipt queued =
      if receipt.content_hash =? options.sha256 request.content
      then done (st, record receipt { extraction_queued = queued })
      else failed idempotency_conflict

  -- The participation and the outbox row, written after the event.
  abbrev pub committed :
      EventAppendRequest → String → LedgerState → ScopeRow → EventRow → LedgerState
  committed request principal st scope e = record st {
    streams = bump_stream request.scope.tenant request.stream_id st.streams;
    events = e ∷ st.events;
    participations =
        record_participation request.scope.tenant principal scope.scope_id st.participations;
    outbox =
        record {
          tenant_id = request.scope.tenant;
          event_id = e.event_id;
          scope_ids = scope.scope_id ∷ [];
          purposes = scope.purpose;
        }
        ∷ st.outbox;
  }

  -- From the allocation of the sequence number on. A lost race for the key has advanced the counter.
  unfoldable pub write_event :
      EventAppendRequest
      → String
      → LedgerState
      → ScopeRow
      → LedgerResult (LedgerState × LedgerReceipt)
  unfolding bump_stream event_for
  write_event request principal st scope =
      let seq = suc (last_seq_of request.scope.tenant request.stream_id st.streams) in
      let prev = hash_at request.scope.tenant request.stream_id (seq - 1) (seen scope st).events in
      let e = event_for request scope seq prev in
      if is_some request.expected_seq && not (request.expected_seq == some seq)
      then failed sequence_conflict
      else if key_taken request st.events
      then elim (replay_of request (seen scope st)) [
        | none ↦ failed idempotency_conflict
        | some winner ↦
            answer request
              (record st {
                streams = bump_stream request.scope.tenant request.stream_id st.streams;
              })
              winner false
      ]
      else done (
        committed request principal st scope e,
        record (receipt_of e scope) { deduplicated = false },
      )

  unfoldable pub append :
      EventAppendRequest → Option String → LedgerState → LedgerResult (LedgerState × LedgerReceipt)
  unfolding ensure_scope find_by_idempotency_key write_event
  append request principal st =
      if length request.content =? 0
      then failed invalid_span
      else elim (ensure_scope options request.scope (ensure_tenant request.scope.tenant st)) [
        | failed e ↦ failed e
        | done (scoped, scope) ↦ elim (replay_of request (seen scope scoped)) [
          | some receipt ↦ answer request scoped receipt true
          | none ↦ write_event request (or_default principal request.actor_id) scoped scope
        ]
      ]
