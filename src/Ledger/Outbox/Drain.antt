-- ===== src/Ledger/Outbox/Drain.antt =====
-- What a run of the worker does to the queue.
use verity_mem.Prelude.{
  ℕ, zero, suc, ◌≡◌, sym, subst, inl, inr, Bool, some, List, [], ◌∷◌, length, ◌=?◌, string_eq,
  Bool-cases, Option-cases,
}
use verity_mem.Ledger.Payload.{JsonParse}
use verity_mem.Ledger.Outbox.{
  QueueRow, OutboxMessage, Queue, NewMessage, claim, enqueue, enqueue_all,
}
use verity_mem.Ledger.Outbox.Run.{
  Handled, threw, returned, OutboxWorker, OutboxRunSummary, handle_message, settle, count_outcome,
  process, run_once, empty_summary, add_summary, drain,
}
use verity_mem.Ledger.Outbox.Reach.{claims, completes, fails, enqueues, Runs, stays, then_step}

pub Runs-trans : {json : JsonParse} {a b c : Queue} → Runs json a b → Runs json b c → Runs json a c
Runs-trans run stays = run
Runs-trans run (then_step later step) = then_step (Runs-trans run later) step

pub enqueue_all-Runs :
    (json : JsonParse) (now : ℕ) (added : List NewMessage) (q : Queue)
    → Runs json q (enqueue_all now added q)
enqueue_all-Runs json now [] q = stays
enqueue_all-Runs json now (n ∷ rest) q =
    Runs-trans (then_step stays (enqueues now n)) (enqueue_all-Runs json now rest (enqueue now n q))

settle-Runs :
    (json : JsonParse) (now : ℕ) (m : OutboxMessage) (outcome : Handled) (q : Queue)
    → Runs json q (settle now m outcome q)
unfolding settle
settle-Runs json now m (threw error) q = then_step stays (fails now m.outbox_id error)
settle-Runs json now m (returned added) q =
    then_step (enqueue_all-Runs json now added q) (completes now m.outbox_id)

pub process-Runs :
    (json : JsonParse) (w : OutboxWorker) (clock : ℕ → ℕ) (step : ℕ) (messages : List OutboxMessage)
    (q : Queue) (s : OutboxRunSummary)
    → Runs json q (process w clock step messages q s).0
unfolding process
process-Runs json w clock step [] q s = stays
process-Runs json w clock step (m ∷ rest) q s =
    let outcome = handle_message w (clock step) m in
    Runs-trans (settle-Runs json (clock step) m outcome q) (
      process-Runs json w clock (suc step) rest (settle (clock step) m outcome q)
        (count_outcome m outcome s))

-- A run that returns: its claim, and the loop over what it claimed.
pub run_once-claim :
    (json : JsonParse) (w : OutboxWorker) (clock : ℕ → ℕ) (limit : ℕ) (q after : Queue)
    (s : OutboxRunSummary)
    → run_once json w clock limit q ≡ some (after, s)
    → (rows : List QueueRow) × ((messages : List OutboxMessage) × ((claim json w.id
              (clock 0)
              limit
              w.tenants
              q.rows
            ≡ some (rows, messages))
          × ((after, s)
              ≡ process w clock 1 messages
                  (record q { rows = rows })
                  (record empty_summary { claimed = length messages }))))
unfolding run_once
run_once-claim json w clock limit q after s h =
    elim (Option-cases (claim json w.id (clock 0) limit w.tenants q.rows)) [
      | inl raised ↦ absurd (cc (rw (raised, run_once) at h))
      | inr ((rows, messages), taken) ↦ (rows, (messages, (taken, cc (rw (taken, run_once) at h))))
    ]

pub run_once-Runs :
    (json : JsonParse) (w : OutboxWorker) (clock : ℕ → ℕ) (limit : ℕ) (q after : Queue)
    (s : OutboxRunSummary)
    → run_once json w clock limit q ≡ some (after, s)
    → Runs json q after
run_once-Runs json w clock limit q after s h =
    let (rows, (messages, (taken, shape))) = run_once-claim json w clock limit q after s h in
    let start = record empty_summary { claimed = length messages } in
    let moved = record q { rows = rows } in
    subst (λ (p : Queue × OutboxRunSummary). Runs json q p.0) (sym shape)
      (Runs-trans (then_step stays (claims w.id (clock 0) limit w.tenants taken))
        (process-Runs json w clock 1 messages moved start))

-- Draining the queue, whichever handlers run, does nothing to it but calls of the four queue
-- functions one after the other.
pub drain-Runs :
    (json : JsonParse) (w : OutboxWorker) (clock : ℕ → ℕ → ℕ) (stopping : ℕ → Bool)
    (size i batches : ℕ) (q after : Queue) (total s : OutboxRunSummary)
    → drain json w clock stopping size i batches q total ≡ some (after, s)
    → Runs json q after
unfolding drain
drain-Runs json w clock stopping size i zero q after total s h =
    let same : q ≡ after = cc h in subst (Runs json q) same stays
drain-Runs json w clock stopping size i (suc batches) q after total s h =
    elim (Bool-cases (stopping i)) [
      | inl stopped ↦ let same : q ≡ after = cc (rw stopped at h) in subst (Runs json q) same stays
      | inr going ↦ elim (Option-cases (run_once json w (clock i) size q)) [
        | inl raised ↦ absurd (cc (rw (going, raised) at h))
        | inr ((middle, part), ran) ↦
            let start = run_once-Runs json w (clock i) size q middle part ran in
            elim (Bool-cases (part.claimed =? 0)) [
              | inl empty ↦
                  let same : middle ≡ after = cc (rw (going, ran, empty) at h) in
                  subst (Runs json q) same start
              | inr more ↦ Runs-trans start (
                  drain-Runs json w clock stopping size (suc i) batches middle after
                    (add_summary total part) s (rw (going, ran, more) at h))
            ]
      ]
    ]
