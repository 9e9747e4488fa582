-- ===== src/Ledger/Outbox/Ends.antt =====
-- Why `drain` of packages/ledger/src/outbox.ts ends: the attempts that are left in the table.
use verity_mem.Prelude.{
  ℕ, zero, suc, ◌≤◌, ◌<◌, ◌≡◌, refl, ◌∙◌, inl, inr, ◌⊎◌, String, true, false, ◌||◌, Option, some,
  List, [], ◌∷◌, map, length, any, ◌=?◌, ◌==◌, string_eq, arith,
}
use verity_mem.Ledger.Payload.{JsonParse, parse_payload}
use verity_mem.Ledger.Outbox.{
  QueueRow, Queue, claim, chosen_rows, lock_chosen, is_claimable, is_no_tenant,
}
use verity_mem.Ledger.Outbox.Run.{
  OutboxWorker, OutboxRunSummary, process, run_once, empty_summary, add_summary, drain,
}
use verity_mem.Ledger.Outbox.Laws.{claimed_message}
use verity_mem.Ledger.Outbox.Rows.{IsDistinct, IsQueue}
use verity_mem.Ledger.Outbox.Reach.{history_keeps_queue}
use verity_mem.Ledger.Outbox.Counts.{process-IsCounted}
use verity_mem.Ledger.Outbox.Drain.{run_once-Runs}
use verity_mem.Ledger.Outbox.Budget.{
  budget, claim-budget, none_left, any-lock_nothing, IsQuiet, process-budget,
}

-- The database accepts the worker's claims.
abbrev pub IsServing : OutboxWorker → ℕ → Type 0
IsServing w size = ((w.id == "") ≡ false) × ((is_no_tenant w.tenants ≡ false) × (1 ≤ size))

claim-accepts :
    (json : JsonParse) (worker : String) (now limit : ℕ) (tenants : Option (List ℕ))
    (rows : List QueueRow)
    → ((limit =? 0) || worker == "" || is_no_tenant tenants) ≡ false
    → claim json worker now limit tenants rows
      ≡ some (
        map (lock_chosen worker now (chosen_rows now tenants limit rows)) rows,
        map (claimed_message json worker now) (chosen_rows now tenants limit rows),
      )
unfolding claim parse_payload
claim-accepts json worker now limit tenants rows off = rw off refl

-- The loop of a run over what its claim has taken.
batch : JsonParse → OutboxWorker → (ℕ → ℕ) → Queue → List QueueRow → Queue × OutboxRunSummary
batch json w clock q chosen =
    process w clock 1 (map (claimed_message json w.id (clock 0)) chosen)
      (record q { rows = map (lock_chosen w.id (clock 0) chosen) q.rows })
      (record empty_summary { claimed = length (map (claimed_message json w.id (clock 0)) chosen) })

run_once-batch :
    (json : JsonParse) (w : OutboxWorker) (clock : ℕ → ℕ) (size : ℕ) (q : Queue)
    → IsServing w size
    → run_once json w clock size q
      ≡ some (batch json w clock q (chosen_rows (clock 0) w.tenants size q.rows))
unfolding run_once batch
run_once-batch json w clock size q serving =
    let off : ((size =? 0) || w.id == "" || is_no_tenant w.tenants) ≡ false =
      ground (arith, serving.0, serving.1.0, serving.1.1) in
    rw (claim-accepts json w.id (clock 0) size w.tenants q.rows off, run_once) refl

-- One run: it either finds nothing to claim, or leaves fewer attempts.
batch-ends :
    (json : JsonParse) (w : OutboxWorker) (clock : ℕ → ℕ) (size : ℕ) (q : Queue)
    → IsServing w size
    → IsQuiet w
    → IsDistinct q.rows
    → (chosen : List QueueRow) → chosen_rows (clock 0) w.tenants size q.rows ≡ chosen
    → (((batch json w clock q chosen).1.claimed ≡ 0)
        × (any (is_claimable (clock 0) w.tenants) (batch json w clock q chosen).0.rows ≡ false))
      ⊎ ((((batch json w clock q chosen).1.claimed =? 0) ≡ false)
          × (budget (batch json w clock q chosen).0.rows < budget q.rows))
unfolding batch process
batch-ends json w clock size q serving quiet d [] e = inl (
  refl,
  any-lock_nothing (is_claimable (clock 0) w.tenants) w.id (clock 0) q.rows
      ∙ none_left (clock 0) size w.tenants q.rows serving.1.1 e,
)
batch-ends json w clock size q serving quiet d (c ∷ later) e =
    elim (claim-budget w.id (clock 0) size w.tenants q.rows d) [
      | inl nothing ↦ absurd (cc (e, nothing))
      | inr less ↦
          let spent : budget (map (lock_chosen w.id (clock 0) (c ∷ later)) q.rows) < budget q.rows =
            rw e at less in
          let taken = map (claimed_message json w.id (clock 0)) (c ∷ later) in
          let moved = record q { rows = map (lock_chosen w.id (clock 0) (c ∷ later)) q.rows } in
          let start = record empty_summary { claimed = length taken } in
          let count = (process-IsCounted w clock 1 taken moved start).0 in
          inr (
            ground (arith, count),
            omega (arith, spent, process-budget w clock 1 taken moved start quiet),
          )
    ]

-- With more batches than there are attempts left in the table, a worker that is not stopped, whose
-- claims the database accepts and whose handlers add nothing to the queue drains it: `drain`
-- returns, and at the instant of one of its claims no row that the worker serves is claimable any
-- more in the table that it leaves.
pub drain_ends :
    (json : JsonParse) (w : OutboxWorker) (clock : ℕ → ℕ → ℕ) (size i batches : ℕ) (q : Queue)
    (total : OutboxRunSummary)
    → IsServing w size
    → IsQuiet w
    → IsQueue q
    → budget q.rows < batches
    → (after : Queue) × ((s : OutboxRunSummary) × ((j : ℕ) × ((drain json w clock
                (λ k. false)
                size
                i
                batches
                q
                total
              ≡ some (after, s))
            × (any (is_claimable (clock j 0) w.tenants) after.rows ≡ false))))
unfolding drain
drain_ends json w clock size i zero q total serving quiet good enough =
    absurd (omega (arith, enough))
drain_ends json w clock size i (suc batches) q total serving quiet good enough =
    let chosen = chosen_rows (clock i 0) w.tenants size q.rows in
    let result = batch json w (clock i) q chosen in
    let ran : run_once json w (clock i) size q ≡ some (result.0, result.1) =
      run_once-batch json w (clock i) size q serving in
    elim (batch-ends json w (clock i) size q serving quiet good.1 chosen refl) [
      | inl (none_taken, clear) ↦
          let last : (result.1.claimed =? 0) ≡ true = ground (arith, none_taken) in
          (result.0, (add_summary total result.1, (i, (rw (ran, last) refl, clear))))
      | inr (more, less) ↦
          let kept =
            (history_keeps_queue json good
              (run_once-Runs json w (clock i) size q result.0 result.1 ran)).0 in
          let (after, (s, (j, (rest, clear)))) =
            drain_ends json w clock size (suc i) batches result.0 (add_summary total result.1)
              serving quiet kept (omega (arith, less, enough)) in
          (after, (s, (j, (rw (ran, more) rest, clear))))
    ]
