-- ===== src/Ledger/Outbox/Run.antt =====
-- The worker of packages/ledger/src/outbox.ts: the class OutboxWorker. A clock gives the instant of
-- each step of a batch.
use verity_mem.Prelude.{
  ℕ, zero, suc, ◌+◌, String, Bool, false, Option, none, some, List, [], ◌∷◌, length, is_empty, ◌=?◌,
  ◌==◌, string_eq, if◌then◌else◌,
}
use verity_mem.Ledger.Payload.{JsonParse}
use verity_mem.Ledger.Outbox.{
  OutboxMessage, Binding, Queue, NewMessage, claim, complete, fail, binding_for, enqueue_all,
}

-- What a handler does inside its transaction: it throws, and nothing is written, or it returns and
-- the rows that it adds to the queue are committed.
pub data Handled : Type 0 where
  threw : String → Handled
  returned : List NewMessage → Handled

-- A handler runs at an instant, in the context of a binding.
pub record OutboxProcessor : Type 0 where
  pub kind : String
  pub handle : ℕ → Binding → OutboxMessage → Handled

pub record OutboxWorker : Type 0 where
  pub id : String
  pub tenants : Option (List ℕ)
  pub processors : List OutboxProcessor

-- `Map.set`: a kind that is present keeps its place.
abbrev pub set_processor : OutboxProcessor → List OutboxProcessor → List OutboxProcessor
set_processor p [] = p ∷ []
set_processor p (q ∷ rest) =
    let later = set_processor p rest in if q.kind == p.kind then p ∷ rest else q ∷ later

unfoldable pub register : OutboxProcessor → OutboxWorker → OutboxWorker
register p w = record w { processors = set_processor p w.processors }

abbrev pub register_all : List OutboxProcessor → OutboxWorker → OutboxWorker
register_all [] w = w
register_all (p ∷ rest) w = register_all rest (register p w)

-- The constructor, which throws for `none`.
abbrev pub is_without_tenants : Option (List ℕ) → Bool
is_without_tenants none = false
is_without_tenants (some tenants) = is_empty tenants

unfoldable pub make_worker : String → List OutboxProcessor → Option (List ℕ) → Option OutboxWorker
make_worker id processors tenants =
    if is_without_tenants tenants
    then none
    else some (register_all processors (record { id = id; tenants = tenants; processors = [] }))

abbrev pub lookup : String → List OutboxProcessor → Option OutboxProcessor
lookup kind [] = none
lookup kind (p ∷ rest) = let later = lookup kind rest in if p.kind == kind then some p else later

-- The try block, up to the call of `complete`.
unfoldable pub handle_message : OutboxWorker → ℕ → OutboxMessage → Handled
handle_message w now m = elim (lookup m.kind w.processors) [
  | none ↦ threw "no processor registered for outbox kind"
  | some p ↦ elim (binding_for m) [
    | none ↦ threw "outbox message carries no scope or no purpose"
    | some binding ↦ p.handle now binding m
  ]
]

-- `Record<string, number>`, the keys in the order of their first use.
abbrev pub add_kind : String → ℕ → List (String × ℕ) → List (String × ℕ)
add_kind kind n [] = (kind, n) ∷ []
add_kind kind n ((k, count) ∷ rest) =
    let later = add_kind kind n rest in
    if k == kind then (k, count + n) ∷ rest else (k, count) ∷ later

abbrev pub add_kinds : List (String × ℕ) → List (String × ℕ) → List (String × ℕ)
add_kinds [] total = total
add_kinds ((kind, n) ∷ rest) total = add_kinds rest (add_kind kind n total)

pub record OutboxRunSummary : Type 0 where
  pub claimed : ℕ
  pub completed : ℕ
  pub failed : ℕ
  pub kinds : List (String × ℕ)

abbrev pub empty_summary : OutboxRunSummary
empty_summary = record { claimed = 0; completed = 0; failed = 0; kinds = [] }

-- What is written for one message.
unfoldable pub settle : ℕ → OutboxMessage → Handled → Queue → Queue
settle now m (threw error) q = record q { rows = fail now m.outbox_id error q.rows }
settle now m (returned added) q =
    let after = enqueue_all now added q in
    record after { rows = complete now m.outbox_id after.rows }

unfoldable pub count_outcome : OutboxMessage → Handled → OutboxRunSummary → OutboxRunSummary
count_outcome m (threw error) s = record s {
  failed = suc s.failed;
  kinds = add_kind m.kind 1 s.kinds;
}
count_outcome m (returned added) s = record s {
  completed = suc s.completed;
  kinds = add_kind m.kind 1 s.kinds;
}

-- The loop over the claimed messages; `step` counts them for the clock.
unfoldable pub process :
    OutboxWorker
    → (ℕ → ℕ)
    → ℕ
    → List OutboxMessage
    → Queue
    → OutboxRunSummary
    → Queue × OutboxRunSummary
unfolding handle_message settle count_outcome
process w clock step [] q s = (q, s)
process w clock step (m ∷ rest) q s =
    let outcome = handle_message w (clock step) m in
    process w clock (suc step) rest (settle (clock step) m outcome q) (count_outcome m outcome s)

unfoldable pub run_once :
    JsonParse → OutboxWorker → (ℕ → ℕ) → ℕ → Queue → Option (Queue × OutboxRunSummary)
unfolding claim process
run_once json w clock limit q = elim (claim json w.id (clock 0) limit w.tenants q.rows) [
  | none ↦ none
  | some (rows, messages) ↦ some (
      process w clock 1 messages (record q { rows = rows })
        (record empty_summary { claimed = length messages }))
]

unfoldable pub add_summary : OutboxRunSummary → OutboxRunSummary → OutboxRunSummary
add_summary total s = record {
  claimed = total.claimed + s.claimed;
  completed = total.completed + s.completed;
  failed = total.failed + s.failed;
  kinds = add_kinds s.kinds total.kinds;
}

-- `drain`: one `clock i` for each batch, `stopping i` what the flag holds before it.
unfoldable pub drain :
    JsonParse
    → OutboxWorker
    → (ℕ → ℕ → ℕ)
    → (ℕ → Bool)
    → ℕ
    → ℕ
    → ℕ
    → Queue
    → OutboxRunSummary
    → Option (Queue × OutboxRunSummary)
unfolding run_once add_summary
drain json w clock stopping size i zero q total = some (q, total)
drain json w clock stopping size i (suc batches) q total =
    if stopping i then some (q, total) else elim (run_once json w (clock i) size q) [
      | none ↦ none
      | some (after, s) ↦
          if s.claimed =? 0
          then some (after, add_summary total s)
          else drain json w clock stopping size (suc i) batches after (add_summary total s)
    ]
