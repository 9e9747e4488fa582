-- ===== src/Ledger/Outbox/Laws.antt =====
-- What a claim takes from the queue, and what the queue functions keep.
use verity_mem.Prelude.{
  ℕ, ◌≤◌, ◌≡◌, refl, sym, ◌∙◌, inl, inr, ◌⊎◌, String, Bool, true, false, ◌&&◌, ◌||◌, Option, some,
  List, [], ◌∷◌, map, length, any, filter, take, drop, sort_on, ◌=?◌, ◌==◌, nat_eq, string_eq,
  Bool-cases, All, All-map, arith, any-take-drop, length-take-full, any-filter, any-All, All-filter,
  All-take, All-sort_on, any-sort_on, any-take, length-take-le, take-le-drop, sort_on-IsAscending,
  All-self,
}
use verity_mem.Ledger.Payload.{JsonParse, parse_payload}
use verity_mem.Ledger.Outbox.{
  QueueRow, OutboxMessage, claim, chosen_rows, lock_chosen, lock_row, is_claimable, is_no_tenant,
  message_of, serves,
}

-- The message of a claimed row.
abbrev pub claimed_message : JsonParse → String → ℕ → QueueRow → OutboxMessage
claimed_message json worker now r = message_of json (lock_row worker now r)

pub claim-chosen :
    (json : JsonParse) (worker : String) (now limit : ℕ) (tenants : Option (List ℕ))
    (rows after : List QueueRow) (messages : List OutboxMessage)
    → claim json worker now limit tenants rows ≡ some (after, messages)
    → (after ≡ map (lock_chosen worker now (chosen_rows now tenants limit rows)) rows)
      × ((messages ≡ map (claimed_message json worker now) (chosen_rows now tenants limit rows))
          × (1 ≤ limit))
unfolding claim parse_payload
claim-chosen json worker now limit tenants rows after messages h =
    elim (Bool-cases ((limit =? 0) || worker == "" || is_no_tenant tenants)) [
      | inl bad ↦ absurd (cc (rw bad at h))
      | inr ok ↦ let same = rw ok at h in (cc same, (cc same, ground arith))
    ]

abbrev pub has_row : ℕ → List QueueRow → Bool
has_row id rows = any (λ (r : QueueRow). r.outbox_id =? id) rows

abbrev pub has_message : ℕ → List OutboxMessage → Bool
has_message id messages = any (λ (m : OutboxMessage). m.outbox_id =? id) messages

-- Some row of this id is due, has attempts left and belongs to a tenant that is served.
abbrev pub has_claimable : ℕ → Option (List ℕ) → ℕ → List QueueRow → Bool
has_claimable now tenants id rows =
    any (λ (r : QueueRow). is_claimable now tenants r && (r.outbox_id =? id)) rows

module _ (json : JsonParse) (worker : String) (now : ℕ) where
  pub any-message :
      (id : ℕ) (rows : List QueueRow)
      → has_message id (map (claimed_message json worker now) rows) ≡ has_row id rows
  any-message id [] = refl
  any-message id (r ∷ rows) = ground (arith, any-message id rows)

  length-message :
      (rows : List QueueRow) → length (map (claimed_message json worker now) rows) ≡ length rows
  length-message [] = refl
  length-message (r ∷ rows) = ground (arith, length-message rows)

  All-message :
      (P : OutboxMessage → Type 0) (rows : List QueueRow)
      → All (λ r. P (claimed_message json worker now r)) rows
      → All P (map (claimed_message json worker now) rows)
  All-message P [] h = tt
  All-message P (r ∷ rows) h = (h.0, All-message P rows h.1)

pub chosen-IsClaimable :
    (now limit : ℕ) (tenants : Option (List ℕ)) (rows : List QueueRow)
    → All (λ r. is_claimable now tenants r ≡ true) (chosen_rows now tenants limit rows)
chosen-IsClaimable now limit tenants rows =
    All-take (λ r. is_claimable now tenants r ≡ true) limit
      (sort_on (λ (r : QueueRow). r.outbox_id) (filter (is_claimable now tenants) rows))
      (All-sort_on (λ (r : QueueRow). r.outbox_id) (λ r. is_claimable now tenants r ≡ true)
        (filter (is_claimable now tenants) rows) (All-filter (is_claimable now tenants) rows))

-- The id of a claimable row is taken, or the batch is full of ids that are not above it.
chosen_oldest :
    (now limit : ℕ) (tenants : Option (List ℕ)) (rows : List QueueRow) (id : ℕ)
    → has_claimable now tenants id rows ≡ true
    → has_row id (chosen_rows now tenants limit rows) ≡ false
    → (length (chosen_rows now tenants limit rows) ≡ limit)
      × All (λ (r : QueueRow). r.outbox_id ≤ id) (chosen_rows now tenants limit rows)
chosen_oldest now limit tenants rows id due missed =
    let key : QueueRow → ℕ = λ r. r.outbox_id in
    let test : QueueRow → Bool = λ r. r.outbox_id =? id in
    let eligible = filter (is_claimable now tenants) rows in
    let sorted = sort_on (λ (r : QueueRow). r.outbox_id) eligible in
    let held : any test sorted ≡ true =
      any-sort_on key test eligible ∙ any-filter test (is_claimable now tenants) rows ∙ due in
    let left : any test (drop limit sorted) ≡ true =
      ground (arith, any-take-drop test limit sorted, held, missed) in
    let low = take-le-drop key limit sorted (sort_on-IsAscending key eligible) in
    (
      length-take-full test limit sorted left,
      All-map (λ r. All (λ (y : QueueRow). r.outbox_id ≤ y.outbox_id) (drop limit sorted))
          (λ (r : QueueRow). r.outbox_id ≤ id)
          (λ r below.
            let witness =
              any-All (λ (y : QueueRow). r.outbox_id ≤ y.outbox_id) test (drop limit sorted) left
                below in
            ground (arith, witness.1))
          (take limit sorted) low,
    )

-- Every chosen id is one of a claimable row.
pub chosen-has_claimable :
    (now limit : ℕ) (tenants : Option (List ℕ)) (rows : List QueueRow)
    → All
        (λ (r : QueueRow). has_claimable now tenants r.outbox_id rows ≡ true)
        (chosen_rows now tenants limit rows)
chosen-has_claimable now limit tenants rows =
    let key : QueueRow → ℕ = λ r. r.outbox_id in
    let eligible = filter (is_claimable now tenants) rows in
    let sorted = sort_on (λ (r : QueueRow). r.outbox_id) eligible in
    All-map (λ (r : QueueRow). has_row r.outbox_id (take limit sorted) ≡ true)
      (λ (r : QueueRow). has_claimable now tenants r.outbox_id rows ≡ true)
      (λ r held.
        let test : QueueRow → Bool = λ y. y.outbox_id =? r.outbox_id in
        sym (any-filter test (is_claimable now tenants) rows)
        ∙ sym (any-sort_on key test eligible)
        ∙ any-take test limit sorted held)
      (take limit sorted)
      (All-self (λ (r y : QueueRow). y.outbox_id =? r.outbox_id) (λ r. ground arith)
        (take limit sorted))

oldest_cases :
    (json : JsonParse) (worker : String) (now limit : ℕ) (tenants : Option (List ℕ))
    (rows : List QueueRow) (id : ℕ)
    → (has_claimable now tenants id rows ≡ false)
      ⊎ (has_message id (map (claimed_message json worker now) (chosen_rows now tenants limit rows))
          ≡ true)
      ⊎ ((length (map (claimed_message json worker now) (chosen_rows now tenants limit rows))
            ≡ limit)
          × All
              (λ (m : OutboxMessage). m.outbox_id ≤ id)
              (map (claimed_message json worker now) (chosen_rows now tenants limit rows)))
oldest_cases json worker now limit tenants rows id =
    elim (Bool-cases (has_claimable now tenants id rows)) [
      | inr never ↦ inl never
      | inl due ↦ elim (Bool-cases (has_row id (chosen_rows now tenants limit rows))) [
        | inl taken ↦
            inr (inl (any-message json worker now id (chosen_rows now tenants limit rows) ∙ taken))
        | inr missed ↦
            let full = chosen_oldest now limit tenants rows id due missed in
            inr (
              inr (
                length-message json worker now (chosen_rows now tenants limit rows) ∙ full.0,
                All-message json worker now (λ (m : OutboxMessage). m.outbox_id ≤ id)
                    (chosen_rows now tenants limit rows) full.1,
              ))
      ]
    ]

-- A claim takes at most `limit` messages, each of a row that is due, has attempts left and is of a
-- tenant that the worker serves; and for every id, no such row has it, or it is taken, or the batch
-- is full of ids that are not above it: the oldest work comes first and none is passed over.
pub claim_oldest_first :
    (json : JsonParse) (worker : String) (now limit : ℕ) (tenants : Option (List ℕ))
    (rows after : List QueueRow) (messages : List OutboxMessage) (id : ℕ)
    → claim json worker now limit tenants rows ≡ some (after, messages)
    → (length messages ≤ limit)
      × (All (λ (m : OutboxMessage). has_claimable now tenants m.outbox_id rows ≡ true) messages
          × (All (λ (m : OutboxMessage). serves tenants m.tenant_id ≡ true) messages
              × ((has_claimable now tenants id rows ≡ false)
                  ⊎ (has_message id messages ≡ true)
                  ⊎ ((length messages ≡ limit)
                      × All (λ (m : OutboxMessage). m.outbox_id ≤ id) messages))))
claim_oldest_first json worker now limit tenants rows after messages id h =
    let all = claim-chosen json worker now limit tenants rows after messages h in
    let shape : messages
        ≡ map (claimed_message json worker now) (chosen_rows now tenants limit rows) =
      all.1.0 in
    rw shape (
      ground (
        arith,
        length-message json worker now (chosen_rows now tenants limit rows),
        length-take-le limit
            (sort_on (λ (r : QueueRow). r.outbox_id) (filter (is_claimable now tenants) rows)),
      ),
      (
        All-message json worker now
            (λ (m : OutboxMessage). has_claimable now tenants m.outbox_id rows ≡ true)
            (chosen_rows now tenants limit rows) (chosen-has_claimable now limit tenants rows),
        (
          All-message json worker now (λ (m : OutboxMessage). serves tenants m.tenant_id ≡ true)
              (chosen_rows now tenants limit rows)
              (All-map (λ r. is_claimable now tenants r ≡ true)
                (λ (r : QueueRow). serves tenants r.tenant_id ≡ true) (λ r due. ground arith)
                (chosen_rows now tenants limit rows) (chosen-IsClaimable now limit tenants rows)),
          oldest_cases json worker now limit tenants rows id,
        ),
      ),
    )
