-- ===== src/Ledger/Outbox/Again.antt =====
-- What a claim keeps other workers from, and what it does not.
use verity_mem.Prelude.{
  ℕ, ◌≤◌, ◌≡◌, sym, ◌∙◌, inl, inr, ◌⊎◌, String, true, false, Option, none, some, List, [], ◌∷◌, map,
  Bool-cases, All, All-map, arith,
}
use verity_mem.Ledger.Payload.{JsonParse}
use verity_mem.Ledger.Outbox.{
  QueueRow, OutboxMessage, claim, chosen_rows, lock_chosen, is_claimable, is_among,
}
use verity_mem.Ledger.Outbox.Laws.{
  claim-chosen, has_claimable, has_message, any-message, claimed_message,
}
use verity_mem.Ledger.Outbox.Rows.{IsDistinct, has_claimable-own, is_among-has_claimable}

All-map_list {ℓ κ} :
    {A : Type ℓ} (P : A → Type κ) (f : A → A) (xs : List A)
    → All (λ x. P (f x)) xs
    → All P (map f xs)
All-map_list P f [] h = tt
All-map_list P f (x ∷ xs) h = (h.0, All-map_list P f xs h.1)

-- Among the messages with an attempt left, a row is there for the next claim.
abbrev pub IsOpenAgain : ℕ → List OutboxMessage → QueueRow → Type 0
IsOpenAgain later messages r =
    (has_message r.outbox_id messages ≡ false)
    ⊎ (r.max_attempts ≤ r.attempts)
    ⊎ (is_claimable later none r ≡ true)

lock_chosen-IsOpenAgain :
    (json : JsonParse) (worker : String) (now later limit : ℕ) (tenants : Option (List ℕ))
    (rows : List QueueRow) (r : QueueRow)
    → now ≤ later
    → has_claimable now tenants r.outbox_id rows ≡ is_claimable now tenants r
    → IsOpenAgain later
        (map (claimed_message json worker now) (chosen_rows now tenants limit rows))
        (lock_chosen worker now (chosen_rows now tenants limit rows) r)
lock_chosen-IsOpenAgain json worker now later limit tenants rows r le own =
    let chosen = chosen_rows now tenants limit rows in
    elim (Bool-cases (is_among (chosen_rows now tenants limit rows) r)) [
      | inl hit ↦
          let due : is_claimable now tenants r ≡ true =
            sym own ∙ is_among-has_claimable now limit tenants rows r.outbox_id hit in
          rw hit (ground (arith, le, due))
      | inr miss ↦ rw miss (inl (any-message json worker now r.outbox_id chosen ∙ miss))
    ]

-- The lock that a claim writes keeps nobody off: in the table that a claim leaves, every row that it
-- handed out and that has an attempt left can be claimed again at once, and at any later instant, by
-- a worker that serves every tenant.
pub claimed_again :
    (json : JsonParse) (worker : String) (now later limit : ℕ) (tenants : Option (List ℕ))
    (rows after : List QueueRow) (messages : List OutboxMessage)
    → IsDistinct rows
    → now ≤ later
    → claim json worker now limit tenants rows ≡ some (after, messages)
    → All (IsOpenAgain later messages) after
claimed_again json worker now later limit tenants rows after messages d le h =
    let (a, (m, one)) = claim-chosen json worker now limit tenants rows after messages h in
    rw (a, m)
      (All-map_list
        (IsOpenAgain later
          (map (claimed_message json worker now) (chosen_rows now tenants limit rows)))
        (lock_chosen worker now (chosen_rows now tenants limit rows)) rows
        (All-map
          (λ (r : QueueRow).
            has_claimable now tenants r.outbox_id rows ≡ is_claimable now tenants r)
          (λ (r : QueueRow).
            IsOpenAgain later
              (map (claimed_message json worker now) (chosen_rows now tenants limit rows))
              (lock_chosen worker now (chosen_rows now tenants limit rows) r))
          (λ r own. lock_chosen-IsOpenAgain json worker now later limit tenants rows r le own) rows
          (has_claimable-own now tenants rows d)))
