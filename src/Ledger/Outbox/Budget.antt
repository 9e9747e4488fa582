-- ===== src/Ledger/Outbox/Budget.antt =====
-- The attempts that are left in the table, and what each call spends of them.
use verity_mem.Prelude.{
  ℕ, zero, suc, ◌+◌, ◌-◌, ◌≤◌, ◌<◌, ◌≡◌, refl, sym, ap, ◌∙◌, inl, inr, ◌⊎◌, String, Bool, true,
  false, ◌&&◌, Option, List, [], ◌∷◌, map, length, any, filter, take, sort_on, ◌=?◌, string_eq,
  is_some, if◌then◌else◌, Bool-cases, All, All-map, All₂, arith, length-sort_on, any_mono,
}
use verity_mem.Ledger.Outbox.{
  QueueRow, OutboxMessage, Queue, complete, fail, chosen_rows, lock_chosen, is_claimable, is_among,
}
use verity_mem.Ledger.Outbox.Run.{
  Handled, threw, returned, OutboxWorker, OutboxRunSummary, handle_message, settle, count_outcome,
  process,
}
use verity_mem.Ledger.Outbox.Laws.{has_claimable, chosen-has_claimable}
use verity_mem.Ledger.Outbox.Rows.{
  IsLater, IsDistinct, IsNext, complete-IsNext, fail-IsNext, has_claimable-own,
  is_among-has_claimable,
}
use verity_mem.Ledger.Outbox.Reach.{All₂-IsLater}

-- The attempts that a row has left, and those that a table has.
abbrev pub attempts_left : QueueRow → ℕ
attempts_left r = if is_some r.completed_at then 0 else r.max_attempts - r.attempts

abbrev pub budget : List QueueRow → ℕ
budget [] = 0
budget (r ∷ rows) = attempts_left r + budget rows

IsLater-attempts_left : (r s : QueueRow) → IsLater r s → attempts_left s ≤ attempts_left r
IsLater-attempts_left r s (a, (b, (c, (d, (e, (f, inr same)))))) =
    omega (arith, ap attempts_left same)
IsLater-attempts_left r s (a, (b, (c, (d, (e, (f, inl pending)))))) = ground (arith, e, f, pending)

IsLater-budget : (rows after : List QueueRow) → All₂ IsLater rows after → budget after ≤ budget rows
IsLater-budget [] [] h = omega arith
IsLater-budget [] (s ∷ after) h = absurd h
IsLater-budget (r ∷ rows) [] h = absurd h
IsLater-budget (r ∷ rows) (s ∷ after) h =
    omega (arith, IsLater-attempts_left r s h.0, IsLater-budget rows after h.1)

IsNext-budget : (rows after : List QueueRow) → All₂ IsNext rows after → budget after ≤ budget rows
IsNext-budget rows after h = IsLater-budget rows after (All₂-IsLater rows after h)

-- A claim that takes a row spends an attempt.
lock_chosen-attempts_left :
    (worker : String) (now limit : ℕ) (tenants : Option (List ℕ)) (rows : List QueueRow)
    (r : QueueRow)
    → has_claimable now tenants r.outbox_id rows ≡ is_claimable now tenants r
    → (attempts_left (lock_chosen worker now (chosen_rows now tenants limit rows) r)
        < attempts_left r)
      ⊎ ((is_among (chosen_rows now tenants limit rows) r ≡ false)
          × (lock_chosen worker now (chosen_rows now tenants limit rows) r ≡ r))
lock_chosen-attempts_left worker now limit tenants rows r own =
    elim (Bool-cases (is_among (chosen_rows now tenants limit rows) r)) [
      | inl hit ↦
          let due : is_claimable now tenants r ≡ true =
            sym own ∙ is_among-has_claimable now limit tenants rows r.outbox_id hit in
          rw hit (inl (ground arith))
      | inr miss ↦ rw miss (inr (refl, refl))
    ]

map-budget :
    (hit : QueueRow → Bool) (f : QueueRow → QueueRow) (rows : List QueueRow)
    → All (λ r. (attempts_left (f r) < attempts_left r) ⊎ ((hit r ≡ false) × (f r ≡ r))) rows
    → (budget (map f rows) ≤ budget rows)
      × ((any hit rows ≡ false) ⊎ (budget (map f rows) < budget rows))
map-budget hit f [] h = (omega arith, inl refl)
map-budget hit f (r ∷ rows) h = let (le, cases) = map-budget hit f rows h.1 in go h.0 le cases
  where
    go :
        (attempts_left (f r) < attempts_left r) ⊎ ((hit r ≡ false) × (f r ≡ r))
        → budget (map f rows) ≤ budget rows
        → (any hit rows ≡ false) ⊎ (budget (map f rows) < budget rows)
        → (budget (map f (r ∷ rows)) ≤ budget (r ∷ rows))
          × ((any hit (r ∷ rows) ≡ false) ⊎ (budget (map f (r ∷ rows)) < budget (r ∷ rows)))
    go (inl less) le cases = (omega (arith, less, le), inr (omega (arith, less, le)))
    go (inr (miss, same)) le cases =
        let level : attempts_left (f r) ≡ attempts_left r = ap attempts_left same in
        (omega (arith, level, le), ground (arith, miss, level, le, cases))

pub claim-budget :
    (worker : String) (now limit : ℕ) (tenants : Option (List ℕ)) (rows : List QueueRow)
    → IsDistinct rows
    → (chosen_rows now tenants limit rows ≡ [])
      ⊎ (budget (map (lock_chosen worker now (chosen_rows now tenants limit rows)) rows)
          < budget rows)
claim-budget worker now limit tenants rows d =
    spend (chosen_rows now tenants limit rows) refl (chosen-has_claimable now limit tenants rows)
      (map-budget (is_among (chosen_rows now tenants limit rows))
        (lock_chosen worker now (chosen_rows now tenants limit rows)) rows
        (All-map
          (λ (r : QueueRow).
            has_claimable now tenants r.outbox_id rows ≡ is_claimable now tenants r)
          (λ r.
            (attempts_left (lock_chosen worker now (chosen_rows now tenants limit rows) r)
              < attempts_left r)
            ⊎ ((is_among (chosen_rows now tenants limit rows) r ≡ false)
                × (lock_chosen worker now (chosen_rows now tenants limit rows) r ≡ r)))
          (lock_chosen-attempts_left worker now limit tenants rows) rows
          (has_claimable-own now tenants rows d))).1
  where
    spend :
        (chosen : List QueueRow)
        → chosen_rows now tenants limit rows ≡ chosen
        → All (λ (r : QueueRow). has_claimable now tenants r.outbox_id rows ≡ true) chosen
        → (any (is_among (chosen_rows now tenants limit rows)) rows ≡ false)
          ⊎ (budget (map (lock_chosen worker now (chosen_rows now tenants limit rows)) rows)
              < budget rows)
        → (chosen_rows now tenants limit rows ≡ [])
          ⊎ (budget (map (lock_chosen worker now (chosen_rows now tenants limit rows)) rows)
              < budget rows)
    spend [] same held cases = inl same
    spend (c ∷ later) same held (inr less) = inr less
    spend (c ∷ later) same held (inl untouched) =
        let met : any (is_among (c ∷ later)) rows ≡ true =
          any_mono (λ (r : QueueRow). is_claimable now tenants r && (r.outbox_id =? c.outbox_id))
            (is_among (c ∷ later)) rows (λ r h. ground arith) held.0 in
        absurd (cc (met, rw same at untouched))

-- With nothing chosen there was nothing to claim, and nothing is written.
take-empty {ℓ} : {A : Type ℓ} (n : ℕ) (xs : List A) → 1 ≤ n → take n xs ≡ [] → length xs ≡ 0
take-empty zero xs one h = absurd (omega (arith, one))
take-empty (suc n) [] one h = refl
take-empty (suc n) (x ∷ xs) one h = absurd (cc h)

filter-empty {ℓ} :
    {A : Type ℓ} (p : A → Bool) (xs : List A) → length (filter p xs) ≡ 0 → any p xs ≡ false
filter-empty p [] h = refl
filter-empty p (x ∷ xs) h = ground (arith, filter-empty p xs)

pub none_left :
    (now limit : ℕ) (tenants : Option (List ℕ)) (rows : List QueueRow)
    → 1 ≤ limit
    → chosen_rows now tenants limit rows ≡ []
    → any (is_claimable now tenants) rows ≡ false
none_left now limit tenants rows one h =
    let key : QueueRow → ℕ = λ r. r.outbox_id in
    let eligible = filter (is_claimable now tenants) rows in
    filter-empty (is_claimable now tenants) rows
      (sym (length-sort_on key eligible) ∙ take-empty limit (sort_on key eligible) one h)

pub any-lock_nothing :
    (p : QueueRow → Bool) (worker : String) (now : ℕ) (rows : List QueueRow)
    → any p (map (lock_chosen worker now []) rows) ≡ any p rows
any-lock_nothing p worker now [] = refl
any-lock_nothing p worker now (r ∷ rows) = ground (arith, any-lock_nothing p worker now rows)

-- Handlers that add nothing to the queue.
abbrev pub IsQuiet : OutboxWorker → Type 0
IsQuiet w =
    (now : ℕ) (m : OutboxMessage)
    → (handle_message w now m ≡ returned [])
      ⊎ ((error : String) × (handle_message w now m ≡ threw error))

settle-budget :
    (now : ℕ) (m : OutboxMessage) (outcome : Handled) (q : Queue)
    → (outcome ≡ returned []) ⊎ ((error : String) × (outcome ≡ threw error))
    → budget (settle now m outcome q).rows ≤ budget q.rows
unfolding settle
settle-budget now m outcome q (inl e) = rw e (
    IsNext-budget q.rows (complete now m.outbox_id q.rows) (complete-IsNext now m.outbox_id q.rows))
settle-budget now m outcome q (inr (error, e)) = rw e (
    IsNext-budget q.rows (fail now m.outbox_id error q.rows)
      (fail-IsNext now m.outbox_id error q.rows))

pub process-budget :
    (w : OutboxWorker) (clock : ℕ → ℕ) (step : ℕ) (messages : List OutboxMessage) (q : Queue)
    (s : OutboxRunSummary)
    → IsQuiet w
    → budget (process w clock step messages q s).0.rows ≤ budget q.rows
unfolding process
process-budget w clock step [] q s quiet = omega arith
process-budget w clock step (m ∷ rest) q s quiet =
    let outcome = handle_message w (clock step) m in
    let next = settle (clock step) m outcome q in
    omega (
      arith,
      settle-budget (clock step) m outcome q (quiet (clock step) m),
      process-budget w clock (suc step) rest next (count_outcome m outcome s) quiet,
    )
