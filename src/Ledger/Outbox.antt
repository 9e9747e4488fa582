-- ===== src/Ledger/Outbox.antt =====
-- The queue of packages/ledger/src/outbox.ts, with the functions of
-- migrations/0011_outbox_claim_functions.sql and migrations/0012_outbox_claim_tenant_scope.sql that
-- it calls. Instants are milliseconds.
pub mod Run
pub mod Laws
pub mod Rows
pub mod Reach
pub mod Drain
pub mod Counts
pub mod Budget
pub mod Ends
pub mod Again
use verity_mem.Ledger.Payload.{
  Payload, empty_payload, RawPayload, JsonParse, object_or_empty, parse_payload,
}
use verity_mem.Prelude.{
  ℕ, zero, suc, ◌+◌, ◌*◌, String, Bool, true, false, not, ◌&&◌, ◌||◌, Option, none, some, List, [],
  ◌∷◌, map, any, filter, length, is_empty, contains, take, sort_on, leb, ltb, ◌=?◌, ◌==◌, nat_eq,
  string_eq, is_some, if◌then◌else◌,
}

pub record QueueRow : Type 0 where
  pub outbox_id : ℕ
  pub tenant_id : ℕ
  pub kind : String
  pub payload : RawPayload
  pub attempts : ℕ
  pub max_attempts : ℕ
  pub available_at : ℕ
  pub locked_by : Option String
  pub locked_at : Option ℕ
  pub last_error : Option String
  pub completed_at : Option ℕ

pub record OutboxMessage : Type 0 where
  pub outbox_id : ℕ
  pub tenant_id : ℕ
  pub kind : String
  pub payload : Payload
  pub attempts : ℕ

pub record Binding : Type 0 where
  pub tenant : ℕ
  pub principal : String
  pub scope_ids : List String
  pub purposes : List String
  pub action : String

-- `Array.isArray(v) ? v.filter(string) : []`.
abbrev pub keep_strings : List (Option String) → List String
keep_strings [] = []
keep_strings (none ∷ rest) = keep_strings rest
keep_strings (some s ∷ rest) = s ∷ keep_strings rest

abbrev pub strings_of : Option (List (Option String)) → List String
strings_of none = []
strings_of (some values) = keep_strings values

-- `bindingFor`, which throws for `none`.
unfoldable pub binding_for : OutboxMessage → Option Binding
binding_for m =
    if is_empty (strings_of m.payload.scope_ids)
    then none
    else if is_empty (strings_of m.payload.purposes)
    then none
    else some (record {
      tenant = m.tenant_id;
      principal = "system:worker";
      scope_ids = strings_of m.payload.scope_ids;
      purposes = strings_of m.payload.purposes;
      action = "worker:process";
    })

-- The WHERE clause of `outbox_claim`.
abbrev pub serves : Option (List ℕ) → ℕ → Bool
serves none tenant = true
serves (some tenants) tenant = contains tenants tenant

abbrev pub is_claimable : ℕ → Option (List ℕ) → QueueRow → Bool
is_claimable now tenants r =
    not (is_some r.completed_at)
    && leb r.available_at now
    && ltb r.attempts r.max_attempts
    && serves tenants r.tenant_id

abbrev pub chosen_rows : ℕ → Option (List ℕ) → ℕ → List QueueRow → List QueueRow
chosen_rows now tenants limit rows =
    take limit (sort_on (λ (r : QueueRow). r.outbox_id) (filter (is_claimable now tenants) rows))

abbrev pub is_among : List QueueRow → QueueRow → Bool
is_among chosen r = any (λ (c : QueueRow). c.outbox_id =? r.outbox_id) chosen

-- The SET clause of the claim.
abbrev pub lock_row : String → ℕ → QueueRow → QueueRow
lock_row worker now r = record r {
  locked_by = some worker;
  locked_at = some now;
  attempts = suc r.attempts;
}

abbrev pub lock_chosen : String → ℕ → List QueueRow → QueueRow → QueueRow
lock_chosen worker now chosen r = if is_among chosen r then lock_row worker now r else r

abbrev pub message_of : JsonParse → QueueRow → OutboxMessage
message_of json r = record {
  outbox_id = r.outbox_id;
  tenant_id = r.tenant_id;
  kind = r.kind;
  payload = parse_payload json r.payload;
  attempts = r.attempts;
}

abbrev pub is_no_tenant : Option (List ℕ) → Bool
is_no_tenant none = false
is_no_tenant (some tenants) = is_empty tenants

-- `claim` with `outbox_claim`, which raises for `none`. The rows that RETURNING gives are listed
-- oldest first.
unfoldable pub claim :
    JsonParse
    → String
    → ℕ
    → ℕ
    → Option (List ℕ)
    → List QueueRow
    → Option (List QueueRow × List OutboxMessage)
unfolding parse_payload
claim json worker now limit tenants rows =
    let chosen = chosen_rows now tenants limit rows in
    if (limit =? 0) || worker == "" || is_no_tenant tenants
    then none
    else some (
      map (lock_chosen worker now chosen) rows,
      map (λ r. message_of json (lock_row worker now r)) chosen,
    )

-- `UPDATE outbox … WHERE outbox_id = … AND completed_at IS NULL`.
abbrev pub is_pending : ℕ → QueueRow → Bool
is_pending id r = (r.outbox_id =? id) && not (is_some r.completed_at)

abbrev pub complete_row : ℕ → QueueRow → QueueRow
complete_row now r = record r { completed_at = some now; locked_by = none; locked_at = none }

unfoldable pub complete : ℕ → ℕ → List QueueRow → List QueueRow
complete now id [] = []
complete now id (r ∷ rows) =
    (if is_pending id r then complete_row now r else r) ∷ complete now id rows

-- `least(300, power(2, least(attempts, 8)))`, in seconds.
abbrev pub least : ℕ → ℕ → ℕ
least a b = if leb a b then a else b

abbrev pub two_to : ℕ → ℕ
two_to zero = 1
two_to (suc n) = 2 * two_to n

unfoldable pub backoff : ℕ → ℕ
backoff attempts = least 300 (two_to (least attempts 8))

-- A text longer than 2000 characters is cut by a parameter of the model.
abbrev pub fail_row : ℕ → String → QueueRow → QueueRow
fail_row now error r = record r {
  last_error = some error;
  locked_by = none;
  locked_at = none;
  available_at = now + 1000 * backoff r.attempts;
}

unfoldable pub fail : ℕ → ℕ → String → List QueueRow → List QueueRow
unfolding backoff
fail now id error [] = []
fail now id error (r ∷ rows) =
    (if is_pending id r then fail_row now error r else r) ∷ fail now id error rows

-- `outbox_lag`.
unfoldable pub lag : Option ℕ → List QueueRow → ℕ
lag tenant rows = length (
    filter
      (λ (r : QueueRow).
        not (is_some r.completed_at) && elim tenant [ none ↦ true | some t ↦ r.tenant_id =? t ])
      rows)

-- What a handler asks for: an INSERT that leaves the other columns to their defaults.
pub record NewMessage : Type 0 where
  pub tenant_id : ℕ
  pub kind : String
  pub payload : RawPayload

abbrev pub new_row : ℕ → ℕ → NewMessage → QueueRow
new_row now id n = record {
  outbox_id = id;
  tenant_id = n.tenant_id;
  kind = n.kind;
  payload = n.payload;
  attempts = 0;
  max_attempts = 8;
  available_at = now;
  locked_by = none;
  locked_at = none;
  last_error = none;
  completed_at = none;
}

-- The table and the sequence behind `outbox_id`.
pub record Queue : Type 0 where
  pub rows : List QueueRow
  pub next_id : ℕ

abbrev pub enqueue : ℕ → NewMessage → Queue → Queue
enqueue now n q = record { rows = new_row now q.next_id n ∷ q.rows; next_id = suc q.next_id }

abbrev pub enqueue_all : ℕ → List NewMessage → Queue → Queue
enqueue_all now [] q = q
enqueue_all now (n ∷ rest) q = enqueue_all now rest (enqueue now n q)
