-- ===== src/Tests/LedgerRuns.antt =====
-- Runs of the span operations, of append and of the hash chain.
use verity_mem.Prelude.{◌≡◌, refl, ◌↔◌, ◌⊎◌, true, false, arith, [], ◌∷◌, ◌=?◌}
use verity_mem.Ledger.Spans.{verify_span, verified, write_span, done}
use verity_mem.Ledger.Spans.Laws.{write_span-verified}
use verity_mem.Prelude.{some, none}
use verity_mem.Contracts.Vocabulary.{OriginKind}
use verity_mem.Ledger.Spans.{LedgerResult, failed}
use verity_mem.Ledger.Chain.{
  EventRow, walk, walk_from, verify_chain, select_rows, order_by_seq, insert_by_seq,
}
use verity_mem.Ledger.Chain.Laws.{Holds, walk_from-holds_iff, walk_from-refuses}
use verity_mem.Ledger.Tables.{LedgerState, LedgerOptions, LedgerReceipt, EventAppendRequest}
use verity_mem.Ledger.Append.{
  append, write_event, event_for, bump_stream, ensure_scope, find_by_idempotency_key,
}
use verity_mem.Ledger.Append.Linking.{IsChained}
use verity_mem.Ledger.Append.Laws.{append-IsChained}
use verity_mem.Ledger.Append.Effect.{IsReplay, IsAppended, append-Effect}
use verity_mem.Ledger.Append.Verified.{IsChained-verify_chain}
use verity_mem.Tests.World.{digest, said, cited, cited_span, cited_row, home}

run_write : write_span digest 7 said cited [] ≡ done (cited_row ∷ [], cited_span)
unfolding write_span
run_write = refl

write_span-verified_example : verify_span digest cited_span (some said) ≡ verified cited_span.quote
write_span-verified_example =
    write_span-verified digest 7 said cited [] (cited_row ∷ []) cited_span refl run_write

abbrev options : LedgerOptions
options = record {
  sha256 = digest;
  link = λ fields. fields.seq;
  blob_ref = digest;
  sort = λ purposes. purposes;
  now = 900;
  inline_payload_limit = 8192;
  next_event = 1;
  next_scope = 1;
  admits = λ scope e. scope.tenant_id =? e.tenant_id;
}

abbrev greeting : EventAppendRequest
greeting = record {
  scope = record {
    tenant = 1;
    project = some "apollo";
    user = some "alice";
    agent = none;
    session = none;
    purpose = "coding" ∷ [];
  };
  stream_id = "chat";
  actor_id = "alice";
  origin = OriginKind.user;
  content = 104 ∷ 101 ∷ 121 ∷ [];
  occurred_at = 500;
  media_type = none;
  sensitivity = none;
  idempotency_key = some "k1";
  expected_seq = some 1;
}

abbrev empty_ledger : LedgerState
empty_ledger = record {
  tenants = [];
  scopes = [];
  streams = [];
  events = [];
  participations = [];
  outbox = [];
}

abbrev value_of : LedgerResult (LedgerState × LedgerReceipt) → LedgerState × LedgerReceipt
value_of (done p) = p
value_of (failed e) = (
  empty_ledger,
  record {
    event_id = 0;
    seq = 0;
    recorded_at = 0;
    scope = home;
    content_hash = 0;
    prev_hash = none;
    deduplicated = false;
    extraction_queued = false;
  },
)

abbrev appended : LedgerState × LedgerReceipt
appended = value_of (append options greeting none empty_ledger)

run_append : append options greeting none empty_ledger ≡ done (appended.0, appended.1)
unfolding append write_event event_for bump_stream ensure_scope find_by_idempotency_key
run_append = refl

-- The same request again is answered by the stored event.
run_replay : (value_of (append options greeting none appended.0)).1.deduplicated ≡ true
unfolding append write_event event_for bump_stream ensure_scope find_by_idempotency_key
run_replay = refl

empty-IsChained : IsChained options.link empty_ledger
empty-IsChained tenant stream = (tt, refl)

append-Effect_example :
    IsReplay options greeting empty_ledger appended.0 appended.1
    ⊎ IsAppended options greeting empty_ledger appended.0 appended.1
append-Effect_example =
    append-Effect options greeting empty_ledger appended.0 appended.1 none run_append

append-IsChained_example : IsChained options.link appended.0
append-IsChained_example =
    append-IsChained options greeting none empty_ledger appended.0 appended.1 empty-IsChained
      run_append tt

appended-IsChained : IsChained options.link appended.0
appended-IsChained =
    append-IsChained options greeting none empty_ledger appended.0 appended.1 empty-IsChained
      run_append tt

IsChained-verify_chain_example :
    (verify_chain options.link 1 "chat" none none appended.0.events).holds ≡ true
IsChained-verify_chain_example =
    IsChained-verify_chain options.link appended.0 1 "chat" appended-IsChained

-- Another user appends to the stream, from a scope that reads no event of the first: the new event
-- names no predecessor, and the chain no longer holds.
abbrev apart : LedgerOptions
apart = record options {
  next_event = 2;
  next_scope = 2;
  admits = λ scope e. scope.scope_id =? e.scope_id;
}

abbrev from_bob : EventAppendRequest
from_bob = record greeting {
  scope = record greeting.scope { user = some "bob" };
  actor_id = "bob";
  idempotency_key = none;
  expected_seq = some 2;
}

sibling_breaks_chain :
    (verify_chain options.link 1 "chat" none none
      (value_of (append apart from_bob none appended.0)).0.events).holds
    ≡ false
unfolding append write_event event_for bump_stream ensure_scope find_by_idempotency_key verify_chain
    select_rows order_by_seq insert_by_seq walk_from walk
sibling_breaks_chain = refl

abbrev first_event : EventRow
first_event = event_for options greeting home 1 none

abbrev second_event : EventRow
second_event = event_for options greeting home 2 (some 3)

walk_from-holds_iff_example :
    ((walk_from options.link 1 (first_event ∷ second_event ∷ [])).holds ≡ true)
    ↔ Holds options.link none (first_event ∷ second_event ∷ [])
walk_from-holds_iff_example = walk_from-holds_iff options.link (first_event ∷ second_event ∷ [])

-- A sound pair of events holds from the first and is refused from the second on.
sound_pair_holds : (walk_from options.link 1 (first_event ∷ second_event ∷ [])).holds ≡ true
unfolding walk_from walk event_for
sound_pair_holds = refl

walk_from-refuses_example :
    (walk_from options.link 2 (first_event ∷ second_event ∷ [])).holds ≡ false
unfolding event_for
walk_from-refuses_example =
    walk_from-refuses options.link 2 first_event second_event [] (omega arith) refl refl (λ e. cc e)
