-- ===== src/Ledger/Append/Effect.antt =====
-- What a successful append has done, in the terms of the tables before and after it.
use verity_mem.Prelude.{
  ℕ, ◌≡◌, refl, sym, ap, subst, ◌∙◌, ◌⊎◌, inl, inr, String, Bool, true, false, ◌&&◌, Option, some,
  List, [], ◌∷◌, find, filter, arith, Bool-cases, Option-cases, ◌==◌, string_eq, suc,
  some-injective,
}
use verity_mem.Ledger.Spans.{done}
use verity_mem.Ledger.Chain.{EventRow}
use verity_mem.Ledger.Tables.{
  OutboxRow, LedgerState, LedgerOptions, LedgerReceipt, EventAppendRequest,
}
use verity_mem.Store.{ScopeRow}
use verity_mem.Ledger.Append.{
  key_taken, has_key, or_default, last_seq_of, hash_at, event_for, append, find_by_idempotency_key,
  find_scope, replay_of, seen, receipt_of,
}
use verity_mem.Ledger.Append.Linking.{bumped_same, next_event}
use verity_mem.Ledger.Append.Answers.{Bound, IsSameLog, Replayed, Committed, append-Answers}

find-filter :
    {A : Type 0} (p q : A → Bool) (xs : List A) → find p (filter q xs) ≡ find (λ x. q x && p x) xs
find-filter p q [] = refl
find-filter p q (x ∷ xs) = ground (arith, find-filter p q xs)

-- The stored event that a replay is answered by.
abbrev StoredFor : EventAppendRequest → LedgerState → LedgerReceipt → Type 0
StoredFor request st receipt =
    (key : String) × (e : EventRow) × (scope : ScopeRow) × (request.idempotency_key ≡ some key)
    × (find (has_key request.scope.tenant key) st.events ≡ some e)
    × (receipt ≡ receipt_of e scope)

replay_of-StoredFor :
    (options : LedgerOptions) (request : EventAppendRequest) (st : LedgerState)
    (receipt : LedgerReceipt)
    → replay_of options request st ≡ some receipt
    → StoredFor request st receipt
unfolding find_by_idempotency_key
replay_of-StoredFor options request st receipt h = elim (Option-cases request.idempotency_key) [
  | inl keyless ↦ absurd (cc (rw (replay_of, keyless) at h))
  | inr (key, keyed) ↦ elim (Bool-cases (key == "")) [
    | inl empty ↦ absurd (cc (rw (replay_of, keyed, empty) at h))
    | inr given ↦ elim (Option-cases (find (has_key request.scope.tenant key) st.events)) [
      | inl unseen ↦
          absurd (cc (rw (replay_of, keyed, given, find_by_idempotency_key, unseen) at h))
      | inr (e, stored) ↦ elim (Option-cases (find_scope st.scopes e.scope_id)) [
        | inl gone ↦
            absurd (cc (rw (replay_of, keyed, given, find_by_idempotency_key, stored, gone) at h))
        | inr (scope, there) ↦ (
          key,
          e,
          scope,
          keyed,
          stored,
          sym (
              some-injective
                (rw (replay_of, keyed, given, find_by_idempotency_key, stored, there) at h)),
        )
      ]
    ]
  ]
]

-- The row that queues the extraction of an event, bound to one scope.
abbrev pub queued_row : EventAppendRequest → ℕ → ScopeRow → OutboxRow
queued_row request event scope = record {
  tenant_id = request.scope.tenant;
  event_id = event;
  scope_ids = scope.scope_id ∷ [];
  purposes = scope.purpose;
}

module _ (options : LedgerOptions) (request : EventAppendRequest) (st st' : LedgerState)
    (r : LedgerReceipt) where
  -- The answer is a stored event of the tenant and of the key, which the bound scope can read and
  -- which has the content of the request; nothing was written.
  pub record IsReplay : Type 0 where
    pub key : String
    pub keyed : request.idempotency_key ≡ some key
    pub scoped : LedgerState
    pub scope : ScopeRow
    pub bound : Bound options request st scoped scope
    pub event : EventRow
    pub stored :
        find
          (λ (e : EventRow). options.admits scope e && has_key request.scope.tenant key e)
          st.events
        ≡ some event
    pub content : event.content_hash ≡ options.sha256 request.content
    pub event_id : r.event_id ≡ event.event_id
    pub seq : r.seq ≡ event.seq
    pub prev_hash : r.prev_hash ≡ event.prev_hash
    pub deduplicated : r.deduplicated ≡ true
    pub unwritten : IsSameLog st st'

  -- One event was put in front, with the next number of its stream and the hash of the event before
  -- it, as far as the scope can read it; its extraction is queued; the key was not taken.
  pub record IsAppended : Type 0 where
    pub scoped : LedgerState
    pub bound : Bound options request st scoped r.scope
    pub event : EventRow
    pub front : st'.events ≡ event ∷ st.events
    pub event_id : r.event_id ≡ event.event_id
    pub seq : r.seq ≡ event.seq
    pub number : event.seq ≡ suc (last_seq_of request.scope.tenant request.stream_id st.streams)
    pub counted : last_seq_of request.scope.tenant request.stream_id st'.streams ≡ event.seq
    pub tenant : event.tenant_id ≡ request.scope.tenant
    pub stream : event.stream_id ≡ request.stream_id
    pub scope : event.scope_id ≡ r.scope.scope_id
    pub content : event.content_hash ≡ options.sha256 request.content
    pub previous :
        event.prev_hash
        ≡ hash_at request.scope.tenant request.stream_id
            (last_seq_of request.scope.tenant request.stream_id st.streams)
            (filter (options.admits r.scope) st.events)
    pub queued : st'.outbox ≡ queued_row request r.event_id r.scope ∷ st.outbox
    pub deduplicated : r.deduplicated ≡ false
    pub free : key_taken options request st.events ≡ false

  Replayed-IsReplay :
      (scoped : LedgerState) (scope : ScopeRow)
      → Bound options request st scoped scope
      → IsSameLog st scoped
      → Replayed options request scoped scope st' r
      → IsReplay
  Replayed-IsReplay scoped scope fine same p =
      let (receipt, replay, kept, content, answer) = p in
      let (key, event, found, keyed, stored, value) =
        replay_of-StoredFor options request (seen options scope scoped) receipt replay in
      record {
        key = key;
        keyed = keyed;
        scoped = scoped;
        scope = scope;
        bound = fine;
        event = event;
        stored =
            ap
              (λ rows.
                find (λ e. options.admits scope e && has_key request.scope.tenant key e) rows)
              (sym same.0)
            ∙ sym (
                find-filter (has_key request.scope.tenant key) (options.admits scope) scoped.events)
            ∙ stored;
        content = ap (λ (x : LedgerReceipt). x.content_hash) (sym value) ∙ content;
        event_id =
            ap (λ (x : LedgerReceipt). x.event_id) answer
            ∙ ap (λ (x : LedgerReceipt). x.event_id) value;
        seq = ap (λ (x : LedgerReceipt). x.seq) answer ∙ ap (λ (x : LedgerReceipt). x.seq) value;
        prev_hash =
            ap (λ (x : LedgerReceipt). x.prev_hash) answer
            ∙ ap (λ (x : LedgerReceipt). x.prev_hash) value;
        deduplicated =
            ap (λ (x : LedgerReceipt). x.deduplicated) answer
            ∙ ap (λ (x : LedgerReceipt). x.deduplicated) value;
        unwritten = subst (IsSameLog st) (sym kept) same;
      }

  Committed-IsAppended :
      (who : String) (scoped : LedgerState) (scope : ScopeRow)
      → Bound options request st scoped scope
      → IsSameLog st scoped
      → Committed options request who scoped scope st' r
      → IsAppended
  unfolding event_for
  Committed-IsAppended who scoped scope fine same p =
      let e = next_event options request who scoped scope in
      let tenant = request.scope.tenant in
      let stream = request.stream_id in
      let own : r.scope ≡ scope = ap (λ (x : LedgerReceipt). x.scope) p.2 in
      let id : r.event_id ≡ options.next_event = ap (λ (x : LedgerReceipt). x.event_id) p.2 in
      let numbered = ap (λ rows. suc (last_seq_of tenant stream rows)) same.1 in
      record {
        scoped = scoped;
        bound = fine ∙ ap (λ x. done (scoped, x)) (sym own);
        event = e;
        front =
            ap (λ (x : LedgerState). x.events) p.1 ∙ ap (λ (rows : List EventRow). e ∷ rows) same.0;
        event_id = id;
        seq = ap (λ (x : LedgerReceipt). x.seq) p.2;
        number = numbered;
        counted =
            ap (λ (x : LedgerState). last_seq_of tenant stream x.streams) p.1
            ∙ bumped_same tenant stream scoped.streams;
        tenant = refl;
        stream = refl;
        scope = ap (λ (x : ScopeRow). x.scope_id) (sym own);
        content = refl;
        previous =
            ap (λ n. hash_at tenant stream n (filter (options.admits scope) scoped.events))
              (omega arith)
            ∙ ap
                (λ rows.
                  hash_at tenant stream (last_seq_of tenant stream rows)
                    (filter (options.admits scope) scoped.events))
                same.1
            ∙ ap
                (λ es.
                  hash_at tenant stream (last_seq_of tenant stream st.streams)
                    (filter (options.admits scope) es))
                same.0
            ∙ ap
                (λ (x : ScopeRow).
                  hash_at tenant stream (last_seq_of tenant stream st.streams)
                    (filter (options.admits x) st.events))
                (sym own);
        queued =
            ap (λ (x : LedgerState). x.outbox) p.1
            ∙ ap (λ rows. queued_row request options.next_event scope ∷ rows) same.2
            ∙ ap (λ n. queued_row request n scope ∷ st.outbox) (sym id)
            ∙ ap (λ x. queued_row request r.event_id x ∷ st.outbox) (sym own);
        deduplicated = ap (λ (x : LedgerReceipt). x.deduplicated) p.2;
        free = ap (key_taken options request) (sym same.0) ∙ p.0;
      }

  -- A successful append has done one of two things, in the scope that `ensureScope` found or created
  -- for the request. Either it was answered by a stored event of the same tenant and idempotency key
  -- that this scope can read, whose content hash is that of the request, and it left events, counters
  -- and outbox alone. Or no stored event has the key, and it put one event in front: of the request's
  -- stream and of that scope, with the hash of the request's content, numbered one after the stream's
  -- counter, which moves along, with the hash of the stream's event of the counter's number as far as
  -- that scope can read it, and with the outbox row of its extraction for that scope.
  pub append-Effect :
      (principal : Option String)
      → append options request principal st ≡ done (st', r)
      → IsReplay ⊎ IsAppended
  append-Effect principal h =
      let (scoped, scope, fine, same, answered) =
        append-Answers options request principal st st' r h in
      elim answered [
        | inl p ↦ inl (Replayed-IsReplay scoped scope fine same p)
        | inr p ↦
            inr (
              Committed-IsAppended (or_default principal request.actor_id) scoped scope fine same p)
      ]
