-- ===== src/Tests/OutboxRuns.antt =====
-- Runs of the outbox worker on a queue of two messages, one of them of a kind that nobody handles.
use verity_mem.Prelude.{
  ℕ, ◌+◌, ◌*◌, ◌≤◌, ◌≡◌, refl, inl, inr, ◌⊎◌, String, true, false, Option, none, some, List, [],
  ◌∷◌, any, length, ◌==◌, string_eq, Bool-cases, Option-cases, All, arith,
}
use verity_mem.Ledger.Payload.{JsonParse, RawPayload, parse_payload}
use verity_mem.Ledger.Outbox.{
  QueueRow, OutboxMessage, Queue, claim, binding_for, complete, fail, backoff, is_claimable, serves,
}
use verity_mem.Ledger.Outbox.Run.{
  returned, OutboxProcessor, OutboxWorker, OutboxRunSummary, handle_message, settle, count_outcome,
  process, run_once, empty_summary, add_summary, drain, make_worker, register,
}
use verity_mem.Ledger.Outbox.Laws.{claim_oldest_first, has_claimable, has_message}
use verity_mem.Ledger.Outbox.Rows.{IsQueue}
use verity_mem.Ledger.Outbox.Reach.{
  Runs, stays, then_step, claims, completes, Grows, history_keeps_queue,
}
use verity_mem.Ledger.Outbox.Budget.{IsQuiet}
use verity_mem.Ledger.Outbox.Ends.{drain_ends}
use verity_mem.Ledger.Outbox.Again.{claimed_again, IsOpenAgain}

abbrev no_json : JsonParse
no_json text = none

abbrev queued : ℕ → String → ℕ → QueueRow
queued id kind attempts = record {
  outbox_id = id;
  tenant_id = 7;
  kind = kind;
  payload =
      RawPayload.object
        (record { scope_ids = some (some "s1" ∷ none ∷ []); purposes = some (some "ops" ∷ []) });
  attempts = attempts;
  max_attempts = 3;
  available_at = 0;
  locked_by = none;
  locked_at = none;
  last_error = none;
  completed_at = none;
}

abbrev two_rows : List QueueRow
two_rows = queued 2 "unknown" 1 ∷ queued 1 "extract.event" 0 ∷ []

abbrev two_messages : Queue
two_messages = record { rows = two_rows; next_id = 3 }

abbrev extractor : OutboxProcessor
extractor = record { kind = "extract.event"; handle = λ now binding m. returned [] }

abbrev worker : OutboxWorker
worker = record { id = "w1"; tenants = none; processors = extractor ∷ [] }

made_worker : make_worker "w1" (extractor ∷ extractor ∷ []) none ≡ some worker
unfolding make_worker register
made_worker = refl

refused_worker : make_worker "w1" (extractor ∷ []) (some []) ≡ none
unfolding make_worker
refused_worker = refl

abbrev clock : ℕ → ℕ → ℕ
clock i step = 1000 * i + step + 5

abbrev value_of {ℓ} : {A : Type ℓ} → A → Option A → A
value_of fallback none = fallback
value_of fallback (some a) = a

abbrev claimed : List QueueRow × List OutboxMessage
claimed = value_of ([], []) (claim no_json "w1" 5 1 none two_rows)

-- The older message is taken, although it stands behind the other.
claims_older : claim no_json "w1" 5 1 none two_rows ≡ some (claimed.0, claimed.1)
unfolding claim parse_payload
claims_older = refl

two_rows-IsQueue : IsQueue two_messages
two_rows-IsQueue =
    (((omega arith, omega arith), ((omega arith, omega arith), tt)), ((omega arith, tt), (tt, tt)))

claim_oldest_first_example :
    (length claimed.1 ≤ 1)
    × (All (λ (m : OutboxMessage). has_claimable 5 none m.outbox_id two_rows ≡ true) claimed.1
        × (All (λ (m : OutboxMessage). serves none m.tenant_id ≡ true) claimed.1
            × ((has_claimable 5 none 2 two_rows ≡ false)
                ⊎ (has_message 2 claimed.1 ≡ true)
                ⊎ ((length claimed.1 ≡ 1)
                    × All (λ (m : OutboxMessage). m.outbox_id ≤ 2) claimed.1))))
claim_oldest_first_example =
    claim_oldest_first no_json "w1" 5 1 none two_rows claimed.0 claimed.1 2 claims_older

claimed_again_example : All (IsOpenAgain 6 claimed.1) claimed.0
claimed_again_example =
    claimed_again no_json "w1" 5 6 1 none two_rows claimed.0 claimed.1 two_rows-IsQueue.1
      (omega arith) claims_older

-- The message is handed out twice before anybody completes it.
claimed_twice : length (value_of ([], []) (claim no_json "w2" 6 2 none claimed.0)).1 ≡ 2
unfolding claim parse_payload
claimed_twice = refl

abbrev after_claim : Queue
after_claim = record two_messages { rows = claimed.0 }

history : Runs no_json two_messages (record after_claim { rows = complete 9 1 claimed.0 })
history = then_step (then_step stays (claims "w1" 5 1 none claims_older)) (completes 9 1)

history_keeps_queue_example :
    IsQueue (record after_claim { rows = complete 9 1 claimed.0 })
    × Grows two_rows (complete 9 1 claimed.0)
history_keeps_queue_example = history_keeps_queue no_json two_rows-IsQueue history

worker-IsQuiet : IsQuiet worker
unfolding handle_message
worker-IsQuiet now m = elim (Bool-cases ("extract.event" == m.kind)) [
  | inr other ↦ inr ("no processor registered for outbox kind", rw (other, handle_message) refl)
  | inl known ↦ elim (Option-cases (binding_for m)) [
    | inl unbound ↦
        inr (
          "outbox message carries no scope or no purpose",
          rw (known, unbound, handle_message) refl,
        )
    | inr (binding, bound) ↦ inl (rw (known, bound, handle_message) refl)
  ]
]

drain_ends_example :
    (after : Queue) × ((s : OutboxRunSummary) × ((j : ℕ) × ((drain no_json worker clock
              (λ k. false)
              25
              0
              6
              two_messages
              empty_summary
            ≡ some (after, s))
          × (any (is_claimable (clock j 0) none) after.rows ≡ false))))
drain_ends_example =
    drain_ends no_json worker clock 25 0 6 two_messages empty_summary (refl, (refl, omega arith))
      worker-IsQuiet two_rows-IsQueue (omega arith)

abbrev drained : Queue × OutboxRunSummary
drained =
    value_of (two_messages, empty_summary)
      (drain no_json worker clock (λ k. false) 25 0 6 two_messages empty_summary)

drain_run :
    drain no_json worker clock (λ k. false) 25 0 6 two_messages empty_summary
    ≡ some (drained.0, drained.1)
unfolding drain run_once add_summary process handle_message settle count_outcome claim parse_payload
    binding_for complete fail backoff
drain_run = refl

-- One message is completed, and the other fails once and then waits for its backoff.
drain_summary : (drained.1.completed ≡ 1) × (drained.1.failed ≡ 1)
unfolding drain run_once add_summary process handle_message settle count_outcome claim parse_payload
    binding_for complete fail backoff
drain_summary = (refl, refl)

-- Eight attempts wait the longest.
longest_backoff : (backoff 8 ≡ 256) × (backoff 20 ≡ 256)
unfolding backoff
longest_backoff = (refl, refl)
