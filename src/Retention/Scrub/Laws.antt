-- ===== src/Retention/Scrub/Laws.antt =====
-- What the redaction of events does to each row, and that the chain does not notice it.
use verity_mem.Prelude.{
  ℕ, suc, ◌≡◌, refl, inl, inr, String, Bool, ◌&&◌, Option, none, some, List, [], ◌∷◌, map, filter,
  contains, nat_eq, string_eq, option_eq, if◌then◌else◌, Bool-cases, arith,
}
use verity_mem.Ledger.Chain.{
  EventRow, LinkFields, in_range, in_stream, stream_of, insert_by_seq, order_by_seq, select_rows,
  walk, walk_from, verify_chain,
}
use verity_mem.Retention.{StoredEvent, has_payload}
use verity_mem.Retention.Scrub.{redact_events}

abbrev pub rows_of : List StoredEvent → List EventRow
rows_of events = map (λ (e : StoredEvent). e.row) events

-- A row whose content is cleared when a test says so.
abbrev clear : (EventRow → Bool) → EventRow → EventRow
clear test e = if test e then record e { payload = none; payload_ref = none } else e

abbrev on_row : List ℕ → EventRow → Bool
on_row ids e = contains ids e.event_id && has_payload e

redact_events-rows :
    (now : ℕ) (ids : List ℕ) (events : List StoredEvent)
    → rows_of (redact_events now ids events) ≡ map (clear (on_row ids)) (rows_of events)
unfolding redact_events
redact_events-rows now ids [] = refl
redact_events-rows now ids (e ∷ events) = ground (arith, redact_events-rows now ids events)

module _ (test : EventRow → Bool) where
  clear-seq : (e : EventRow) → (clear test e).seq ≡ e.seq
  clear-seq e = ground arith

  clear-in_stream :
      (tenant : ℕ) (stream : String) (e : EventRow)
      → in_stream tenant stream (clear test e) ≡ in_stream tenant stream e
  clear-in_stream tenant stream e = ground arith

  filter-clear :
      (p : EventRow → Bool) (xs : List EventRow)
      → ((e : EventRow) → p (clear test e) ≡ p e)
      → filter p (map (clear test) xs) ≡ map (clear test) (filter p xs)
  filter-clear p [] same = refl
  filter-clear p (e ∷ xs) same = ground (arith, same e, filter-clear p xs same)

  in_range-clear :
      (from : ℕ) (to : Option ℕ) (e : EventRow)
      → in_range from to (clear test e) ≡ in_range from to e
  in_range-clear from none e = rw clear-seq refl
  in_range-clear from (some to) e = rw clear-seq refl

  insert-clear :
      (e : EventRow) (xs : List EventRow)
      → insert_by_seq (clear test e) (map (clear test) xs) ≡ map (clear test) (insert_by_seq e xs)
  unfolding insert_by_seq
  insert-clear e [] = refl
  insert-clear e (x ∷ xs) = ground (arith, clear-seq e, clear-seq x, insert-clear e xs)

  order-clear :
      (xs : List EventRow) → order_by_seq (map (clear test) xs) ≡ map (clear test) (order_by_seq xs)
  unfolding order_by_seq
  order-clear [] = refl
  order-clear (e ∷ xs) = rw (order_by_seq, order-clear xs) (insert-clear e (order_by_seq xs))

  select_rows-clear :
      (tenant : ℕ) (stream : String) (from : ℕ) (to : Option ℕ) (xs : List EventRow)
      → select_rows tenant stream from to (map (clear test) xs)
        ≡ map (clear test) (select_rows tenant stream from to xs)
  unfolding select_rows
  select_rows-clear tenant stream from to xs =
      let a = filter-clear (in_stream tenant stream) xs (clear-in_stream tenant stream) in
      let b =
        filter-clear (in_range from to) (stream_of tenant stream xs) (in_range-clear from to) in
      rw (a, b) (order-clear (filter (in_range from to) (stream_of tenant stream xs)))

  walk-clear :
      (link : LinkFields → ℕ) (n : ℕ) (expected : Option ℕ) (xs : List EventRow)
      → walk link n expected (map (clear test) xs) ≡ walk link n expected xs
  unfolding walk
  walk-clear link n expected [] = refl
  walk-clear link n expected (e ∷ xs) =
      let rest = walk-clear link (suc n) (some e.content_hash) xs in
      elim (Bool-cases (test e)) [ inl hit ↦ rw (hit, rest) refl | inr miss ↦ rw (miss, rest) refl ]

  walk_from-clear :
      (link : LinkFields → ℕ) (from : ℕ) (xs : List EventRow)
      → walk_from link from (map (clear test) xs) ≡ walk_from link from xs
  unfolding walk_from
  walk_from-clear link from [] = refl
  walk_from-clear link from (e ∷ xs) =
      let whole = walk-clear link 0 none (e ∷ xs) in
      let rest = walk-clear link 1 e.prev_hash xs in
      elim (Bool-cases (test e)) [ inl hit ↦ ground (arith, hit) | inr miss ↦ ground (arith, miss) ]

-- Verifying any stretch of any stream gives the same report before and after a redaction of events:
-- what it clears is not what the chain commits to.
pub redact_events-verify_chain :
    (link : LinkFields → ℕ) (tenant : ℕ) (stream : String) (from to : Option ℕ) (now : ℕ)
    (ids : List ℕ) (events : List StoredEvent)
    → verify_chain link tenant stream from to (rows_of (redact_events now ids events))
      ≡ verify_chain link tenant stream from to (rows_of events)
unfolding verify_chain
redact_events-verify_chain link tenant stream from to now ids events =
    let start : ℕ = elim from [ none ↦ 1 | some seq ↦ seq ] in
    let rows = redact_events-rows now ids events in
    let chosen = select_rows-clear (on_row ids) tenant stream start to (rows_of events) in
    rw (rows, chosen)
      (walk_from-clear (on_row ids) link start
        (select_rows tenant stream start to (rows_of events)))
