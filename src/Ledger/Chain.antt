-- ===== src/Ledger/Chain.antt =====
-- `verifyChain` of packages/ledger/src/ledger.ts. `link` is `sha256Bytes` of the canonical text of
-- six fields, a parameter of which nothing is assumed.
pub mod Laws
use verity_mem.Prelude.{
  ℕ, String, Bool, true, false, not, ◌&&◌, ◌||◌, Option, none, some, List, [], ◌∷◌, filter, leb,
  ltb, ◌=?◌, ◌==◌, string_eq, option_eq, nat_eq, if◌then◌else◌, suc,
}
use verity_mem.Contracts.Vocabulary.{OriginKind, Sensitivity}
use verity_mem.Ledger.Spans.{Bytes}

-- The columns of `events`.
pub record EventRow : Type 0 where
  pub event_id : ℕ
  pub stream_id : String
  pub seq : ℕ
  pub tenant_id : ℕ
  pub scope_id : ℕ
  pub origin : OriginKind
  pub actor_id : String
  pub occurred_at : ℕ
  pub recorded_at : ℕ
  pub payload : Option Bytes
  pub payload_ref : Option ℕ
  pub content_hash : ℕ
  pub prev_hash : Option ℕ
  pub link_hash : Option ℕ
  pub chained : Bool
  pub sensitivity : Sensitivity
  pub idempotency_key : Option String
  pub media_type : String
  pub byte_length : ℕ

-- What a link commits to.
pub record LinkFields : Type 0 where
  pub stream_id : String
  pub seq : ℕ
  pub content_hash : ℕ
  pub prev_hash : Option ℕ
  pub actor_id : String
  pub occurred_at : ℕ

abbrev pub link_fields : EventRow → LinkFields
link_fields e = record {
  stream_id = e.stream_id;
  seq = e.seq;
  content_hash = e.content_hash;
  prev_hash = e.prev_hash;
  actor_id = e.actor_id;
  occurred_at = e.occurred_at;
}

pub data ChainBreak : Type 0 where
  link_mismatch prev_mismatch : ChainBreak

pub record ChainReport : Type 0 where
  pub holds : Bool
  pub checked : ℕ
  pub broken_at_seq : Option ℕ
  pub reason : Option ChainBreak

abbrev pub in_stream : ℕ → String → EventRow → Bool
in_stream tenant stream e = (e.tenant_id =? tenant) && (e.stream_id == stream)

abbrev pub stream_of : ℕ → String → List EventRow → List EventRow
stream_of tenant stream events = filter (in_stream tenant stream) events

abbrev pub in_range : ℕ → Option ℕ → EventRow → Bool
in_range from none e = leb from e.seq
in_range from (some to) e = leb from e.seq && leb e.seq to

-- `ORDER BY seq ASC`.
unfoldable pub insert_by_seq : EventRow → List EventRow → List EventRow
insert_by_seq e [] = e ∷ []
insert_by_seq e (x ∷ xs) =
    let rest = insert_by_seq e xs in if leb e.seq x.seq then e ∷ x ∷ xs else x ∷ rest

unfoldable pub order_by_seq : List EventRow → List EventRow
unfolding insert_by_seq
order_by_seq [] = []
order_by_seq (e ∷ events) = insert_by_seq e (order_by_seq events)

unfoldable pub select_rows : ℕ → String → ℕ → Option ℕ → List EventRow → List EventRow
unfolding order_by_seq
select_rows tenant stream from to events =
    order_by_seq (filter (in_range from to) (stream_of tenant stream events))

abbrev pub broken : ℕ → EventRow → ChainBreak → ChainReport
broken checked row why = record {
  holds = false;
  checked = checked;
  broken_at_seq = some row.seq;
  reason = some why;
}

module _ (link : LinkFields → ℕ) where
  -- The loop, from the number of rows checked and the hash that the next row must name.
  unfoldable pub walk : ℕ → Option ℕ → List EventRow → ChainReport
  walk checked expected [] = record {
    holds = true;
    checked = checked;
    broken_at_seq = none;
    reason = none;
  }
  walk checked expected (row ∷ rows) =
      let rest = walk (suc checked) (some row.content_hash) rows in
      if not row.chained
      then rest
      else if not (row.link_hash == some (link (link_fields row)))
      then broken (suc checked) row link_mismatch
      else if not (expected == row.prev_hash)
      then broken (suc checked) row prev_mismatch
      else rest

  -- The first row of a walk that starts later is not checked: its own `prev_hash` is what the
  -- next row is compared with.
  unfoldable pub walk_from : ℕ → List EventRow → ChainReport
  unfolding walk
  walk_from from [] = walk 0 none []
  walk_from from (row ∷ rows) =
      if ltb 1 from then walk 1 row.prev_hash rows else walk 0 none (row ∷ rows)

  unfoldable pub verify_chain : ℕ → String → Option ℕ → Option ℕ → List EventRow → ChainReport
  unfolding walk_from select_rows
  verify_chain tenant stream from to events =
      let start : ℕ = elim from [ none ↦ 1 | some seq ↦ seq ] in
      walk_from start (select_rows tenant stream start to events)
