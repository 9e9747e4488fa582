-- ===== src/Ledger/Outbox/Reach.antt =====
-- The queue under several workers: the calls of its four functions in any order, as a step relation
-- on the table, and what every such history keeps.
use verity_mem.Prelude.{
  ℕ, suc, ◌≡◌, ◌≢◌, refl, sym, ap, subst, ◌∙◌, String, Option, some, List, [], ◌∷◌, ◌++◌, All-map,
  All₂, All₂-trans, All₂-refl, All₂-All, arith,
}
use mathlib.Core.List.{append_assoc}
use verity_mem.Ledger.Payload.{JsonParse}
use verity_mem.Ledger.Outbox.{
  QueueRow, OutboxMessage, Queue, NewMessage, claim, complete, fail, enqueue, new_row,
}
use verity_mem.Ledger.Outbox.Laws.{claim-chosen}
use verity_mem.Ledger.Outbox.Rows.{
  IsLater, IsLater-refl, IsLater-trans, IsDistinct, IsRowOf, IsQueue, IsNext, complete-IsNext,
  fail-IsNext, claim-IsNext,
}

-- One call of a queue function by anybody, at any instant.
pub data Step (json : JsonParse) (q : Queue) : Queue → Type 0 where
  claims :
      (worker : String) (now limit : ℕ) (tenants : Option (List ℕ)) {rows : List QueueRow}
      {messages : List OutboxMessage}
      → claim json worker now limit tenants q.rows ≡ some (rows, messages)
      → Step json q (record q { rows = rows })
  completes : (now id : ℕ) → Step json q (record q { rows = complete now id q.rows })
  fails : (now id : ℕ) (error : String) → Step json q (record q { rows = fail now id error q.rows })
  enqueues : (now : ℕ) (n : NewMessage) → Step json q (enqueue now n q)

pub data Runs (json : JsonParse) (q : Queue) : Queue → Type 0 where
  stays : Runs json q q
  then_step : {r s : Queue} → Runs json q r → Step json r s → Runs json q s

-- The later table is the earlier one, row by row, behind the rows that were added.
pub record Grows (before after : List QueueRow) : Type 0 where
  pub added : List QueueRow
  pub kept : List QueueRow
  pub shape : after ≡ added ++ kept
  pub later : All₂ IsLater before kept

pub All₂-IsLater : (rows after : List QueueRow) → All₂ IsNext rows after → All₂ IsLater rows after
All₂-IsLater [] [] h = tt
All₂-IsLater [] (s ∷ after) h = absurd h
All₂-IsLater (r ∷ rows) [] h = absurd h
All₂-IsLater (r ∷ rows) (s ∷ after) h = (h.0.0, All₂-IsLater rows after h.1)

IsNext-IsRowOf : (next_id : ℕ) (r s : QueueRow) → IsNext r s → IsRowOf next_id r → IsRowOf next_id s
IsNext-IsRowOf next_id r s ((a, (b, (c, (d, (e, f))))), g) h =
    (omega (arith, h.0, a), ground (arith, e, g, h.1))

IsLater-IsDistinct :
    (rows after : List QueueRow) → All₂ IsLater rows after → IsDistinct rows → IsDistinct after
IsLater-IsDistinct [] [] h d = tt
IsLater-IsDistinct [] (s ∷ after) h d = absurd h
IsLater-IsDistinct (r ∷ rows) [] h d = absurd h
IsLater-IsDistinct (r ∷ rows) (s ∷ after) h d = (
  All₂-All IsLater (λ (x : QueueRow). x.outbox_id ≢ r.outbox_id)
      (λ (y : QueueRow). y.outbox_id ≢ s.outbox_id)
      (λ x y later away. let same = h.0.0 in let own = later.0 in ground arith) rows after h.1 d.0,
  IsLater-IsDistinct rows after h.1 d.1,
)

IsNext-IsQueue :
    (q : Queue) (after : List QueueRow)
    → All₂ IsNext q.rows after
    → IsQueue q
    → IsQueue (record q { rows = after })
IsNext-IsQueue q after h (rows, distinct) = (
  All₂-All IsNext (IsRowOf q.next_id) (IsRowOf q.next_id) (IsNext-IsRowOf q.next_id) q.rows after h
      rows,
  IsLater-IsDistinct q.rows after (All₂-IsLater q.rows after h) distinct,
)

enqueue-IsQueue : (now : ℕ) (n : NewMessage) (q : Queue) → IsQueue q → IsQueue (enqueue now n q)
enqueue-IsQueue now n q (rows, distinct) = (
  (
    (omega arith, omega arith),
    All-map (IsRowOf q.next_id) (IsRowOf (suc q.next_id)) (λ r h. (omega (arith, h.0), h.1)) q.rows
        rows,
  ),
  (
    All-map (IsRowOf q.next_id) (λ (s : QueueRow). s.outbox_id ≢ q.next_id)
        (λ r h. omega (arith, h.0)) q.rows rows,
    distinct,
  ),
)

Grows-rows : (rows after : List QueueRow) → All₂ IsNext rows after → Grows rows after
Grows-rows rows after h = record {
  added = [];
  kept = after;
  shape = refl;
  later = All₂-IsLater rows after h;
}

All₂-append :
    (xs ys zs : List QueueRow)
    → All₂ IsLater (xs ++ ys) zs
    → (us : List QueueRow) × ((vs : List QueueRow) × ((zs ≡ us ++ vs) × All₂ IsLater ys vs))
All₂-append [] ys zs h = ([], (zs, (refl, h)))
All₂-append (x ∷ xs) ys [] h = absurd h
All₂-append (x ∷ xs) ys (z ∷ zs) h =
    let (us, (vs, (shape, later))) = All₂-append xs ys zs h.1 in (z ∷ us, (vs, (cc, later)))

Grows-trans : {a b c : List QueueRow} → Grows a b → Grows b c → Grows a c
Grows-trans {a} {b} {c} g h =
    let start : All₂ IsLater (g.added ++ g.kept) h.kept =
      subst (λ rows. All₂ IsLater rows h.kept) g.shape h.later in
    let (us, (vs, (shape, later))) = All₂-append g.added g.kept h.kept start in
    record {
      added = h.added ++ us;
      kept = vs;
      shape = h.shape ∙ ap (λ rows. h.added ++ rows) shape ∙ sym (append_assoc h.added us vs);
      later = All₂-trans IsLater IsLater-trans a g.kept vs g.later later;
    }

Step-Grows :
    (json : JsonParse) {q r : Queue} → Step json q r → IsQueue q → IsQueue r × Grows q.rows r.rows
Step-Grows json {q} (claims worker now limit tenants {rows} {messages} h) good =
    let next : All₂ IsNext q.rows rows =
      subst (All₂ IsNext q.rows)
        (sym (claim-chosen json worker now limit tenants q.rows rows messages h).0)
        (claim-IsNext worker now limit tenants q.rows good.1) in
    (IsNext-IsQueue q rows next good, Grows-rows q.rows rows next)
Step-Grows json {q} (completes now id) good =
    let next = complete-IsNext now id q.rows in
    (
      IsNext-IsQueue q (complete now id q.rows) next good,
      Grows-rows q.rows (complete now id q.rows) next,
    )
Step-Grows json {q} (fails now id error) good =
    let next = fail-IsNext now id error q.rows in
    (
      IsNext-IsQueue q (fail now id error q.rows) next good,
      Grows-rows q.rows (fail now id error q.rows) next,
    )
Step-Grows json {q} (enqueues now n) good = (
  enqueue-IsQueue now n q good,
  record {
    added = new_row now q.next_id n ∷ [];
    kept = q.rows;
    shape = refl;
    later = All₂-refl IsLater IsLater-refl q.rows;
  },
)

-- Whatever several workers and writers do to the queue, in any order and at any instants: ids stay
-- unique, no row is attempted more often than its `max_attempts`, and every row is still there, with
-- its work unchanged and no fewer attempts, and exactly as it was if it had been completed.
pub history_keeps_queue :
    (json : JsonParse) {q r : Queue} → IsQueue q → Runs json q r → IsQueue r × Grows q.rows r.rows
history_keeps_queue json {q} good stays = (
  good,
  record { added = []; kept = q.rows; shape = refl; later = All₂-refl IsLater IsLater-refl q.rows },
)
history_keeps_queue json good (then_step run step) =
    let before = history_keeps_queue json good run in
    let after = Step-Grows json step before.0 in (after.0, Grows-trans before.1 after.1)
