-- ===== src/Ledger/Outbox/Counts.antt =====
-- What a run of the worker reports: OutboxRunSummary of packages/ledger/src/outbox.ts.
use verity_mem.Prelude.{
  ℕ, zero, suc, ◌+◌, ◌*◌, ◌≤◌, ◌≡◌, refl, sym, subst, ◌∙◌, inl, inr, String, Bool, some, List, [],
  ◌∷◌, length, ◌=?◌, ◌==◌, string_eq, Bool-cases, Option-cases, arith,
}
use verity_mem.Ledger.Payload.{JsonParse}
use verity_mem.Ledger.Outbox.{OutboxMessage, Queue}
use verity_mem.Ledger.Outbox.Run.{
  Handled, threw, returned, OutboxWorker, OutboxRunSummary, handle_message, settle, count_outcome,
  process, run_once, add_kind, add_kinds, empty_summary, add_summary, drain,
}
use verity_mem.Ledger.Outbox.Laws.{claim_oldest_first}
use verity_mem.Ledger.Outbox.Drain.{run_once-claim}

abbrev pub kind_total : List (String × ℕ) → ℕ
kind_total [] = 0
kind_total ((k, n) ∷ rest) = n + kind_total rest

kind_total-add_kind :
    (kind : String) (n : ℕ) (kinds : List (String × ℕ))
    → kind_total (add_kind kind n kinds) ≡ n + kind_total kinds
kind_total-add_kind kind n [] = refl
kind_total-add_kind kind n ((k, c) ∷ rest) = elim (Bool-cases (k == kind)) [
  | inl same ↦ rw same (omega arith)
  | inr other ↦ rw other (omega (arith, kind_total-add_kind kind n rest))
]

kind_total-add_kinds :
    (kinds total : List (String × ℕ))
    → kind_total (add_kinds kinds total) ≡ kind_total kinds + kind_total total
kind_total-add_kinds [] total = omega arith
kind_total-add_kinds ((kind, n) ∷ rest) total =
    omega
      (arith, kind_total-add_kinds rest (add_kind kind n total), kind_total-add_kind kind n total)

-- The counts after some more messages.
abbrev pub IsCounted : OutboxRunSummary → ℕ → OutboxRunSummary → Type 0
IsCounted before more after =
    (after.claimed ≡ before.claimed)
    × ((after.completed + after.failed ≡ before.completed + before.failed + more)
        × (kind_total after.kinds ≡ kind_total before.kinds + more))

count_outcome-IsCounted :
    (m : OutboxMessage) (outcome : Handled) (s : OutboxRunSummary)
    → IsCounted s 1 (count_outcome m outcome s)
unfolding count_outcome
count_outcome-IsCounted m (threw error) s =
    (refl, (omega arith, omega (arith, kind_total-add_kind m.kind 1 s.kinds)))
count_outcome-IsCounted m (returned added) s =
    (refl, (omega arith, omega (arith, kind_total-add_kind m.kind 1 s.kinds)))

pub process-IsCounted :
    (w : OutboxWorker) (clock : ℕ → ℕ) (step : ℕ) (messages : List OutboxMessage) (q : Queue)
    (s : OutboxRunSummary)
    → IsCounted s (length messages) (process w clock step messages q s).1
unfolding process
process-IsCounted w clock step [] q s = (refl, (omega arith, omega arith))
process-IsCounted w clock step (m ∷ rest) q s =
    let outcome = handle_message w (clock step) m in
    let (a, (b, c)) = count_outcome-IsCounted m outcome s in
    let (a', (b', c')) =
      process-IsCounted w clock (suc step) rest (settle (clock step) m outcome q)
        (count_outcome m outcome s) in
    (a' ∙ a, (omega (arith, b, b'), omega (arith, c, c')))

-- Every message that was claimed is counted once: as completed or as failed, and under its kind.
abbrev pub IsBalanced : OutboxRunSummary → Type 0
IsBalanced s = (s.completed + s.failed ≡ s.claimed) × (kind_total s.kinds ≡ s.claimed)

run_once-IsBalanced :
    (json : JsonParse) (w : OutboxWorker) (clock : ℕ → ℕ) (limit : ℕ) (q after : Queue)
    (s : OutboxRunSummary)
    → run_once json w clock limit q ≡ some (after, s)
    → IsBalanced s × (s.claimed ≤ limit)
run_once-IsBalanced json w clock limit q after s h =
    let (rows, (messages, (taken, shape))) = run_once-claim json w clock limit q after s h in
    let start = record empty_summary { claimed = length messages } in
    let moved = record q { rows = rows } in
    let (a, (b, c)) = process-IsCounted w clock 1 messages moved start in
    let few =
      (claim_oldest_first json w.id (clock 0) limit w.tenants q.rows rows messages 0 taken).0 in
    subst (λ (p : Queue × OutboxRunSummary). IsBalanced p.1 × (p.1.claimed ≤ limit)) (sym shape)
      ((omega (arith, a, b), omega (arith, a, c)), omega (arith, a, few))

drain-IsBalanced :
    (json : JsonParse) (w : OutboxWorker) (clock : ℕ → ℕ → ℕ) (stopping : ℕ → Bool)
    (size i batches : ℕ) (q after : Queue) (total s : OutboxRunSummary)
    → IsBalanced total
    → drain json w clock stopping size i batches q total ≡ some (after, s)
    → IsBalanced s × (s.claimed ≤ total.claimed + batches * size)
unfolding drain add_summary
drain-IsBalanced json w clock stopping size i zero q after total s good h =
    let same : total ≡ s = cc h in
    subst (λ (x : OutboxRunSummary). IsBalanced x × (x.claimed ≤ total.claimed + 0 * size)) same
      (good, omega arith)
drain-IsBalanced json w clock stopping size i (suc batches) q after total s good h =
    elim (Bool-cases (stopping i)) [
      | inl stopped ↦
          let same : total ≡ s = cc (rw stopped at h) in
          subst
            (λ (x : OutboxRunSummary).
              IsBalanced x × (x.claimed ≤ total.claimed + suc batches * size))
            same (good, ground arith)
      | inr going ↦ elim (Option-cases (run_once json w (clock i) size q)) [
        | inl raised ↦ absurd (cc (rw (going, raised) at h))
        | inr ((middle, part), ran) ↦
            let (even, few) = run_once-IsBalanced json w (clock i) size q middle part ran in
            let sum = kind_total-add_kinds part.kinds total.kinds in
            let next : IsBalanced (add_summary total part) =
              (omega (arith, good.0, even.0), omega (arith, good.1, even.1, sum)) in
            elim (Bool-cases (part.claimed =? 0)) [
              | inl empty ↦
                  let same : add_summary total part ≡ s = cc (rw (going, ran, empty) at h) in
                  subst
                    (λ (x : OutboxRunSummary).
                      IsBalanced x × (x.claimed ≤ total.claimed + suc batches * size))
                    same (next, ground (arith, few))
              | inr more ↦
                  let (whole, bound) =
                    drain-IsBalanced json w clock stopping size (suc i) batches middle after
                      (add_summary total part) s next (rw (going, ran, more) at h) in
                  (whole, ground (arith, few, bound))
            ]
      ]
    ]

-- What `drain` reports adds up: every message that it claimed is counted once, as completed or as
-- failed, and once under its kind, and it claimed at most `batches * size` messages.
pub drain_counts :
    (json : JsonParse) (w : OutboxWorker) (clock : ℕ → ℕ → ℕ) (stopping : ℕ → Bool)
    (size batches : ℕ) (q after : Queue) (s : OutboxRunSummary)
    → drain json w clock stopping size 0 batches q empty_summary ≡ some (after, s)
    → (s.completed + s.failed ≡ s.claimed)
      × ((kind_total s.kinds ≡ s.claimed) × (s.claimed ≤ batches * size))
drain_counts json w clock stopping size batches q after s h =
    let (even, few) =
      drain-IsBalanced json w clock stopping size 0 batches q after empty_summary s (refl, refl)
        h in
    (even.0, (even.1, omega (arith, few)))
