-- ===== src/Ledger/Outbox/Rows.antt =====
-- What each function of the queue makes of a row.
use verity_mem.Prelude.{
  ℕ, suc, ◌≤◌, ◌<◌, ◌≡◌, ◌≢◌, refl, sym, subst, ◌∙◌, inl, inr, ◌⊎◌, String, Bool, true, false, ◌&&◌,
  Option, none, List, [], ◌∷◌, map, any, filter, sort_on, ◌=?◌, Bool-cases, All, All-map, All₂,
  arith, any-filter, any-sort_on, any-take,
}
use verity_mem.Ledger.Outbox.{
  QueueRow, Queue, complete, fail, chosen_rows, lock_chosen, is_claimable, is_pending, complete_row,
  backoff, is_among,
}
use verity_mem.Ledger.Outbox.Laws.{has_claimable, has_row}

-- What a row can become: the same work, no fewer attempts, and itself once it is completed.
abbrev pub IsLater : QueueRow → QueueRow → Type 0
IsLater r s =
    (s.outbox_id ≡ r.outbox_id)
    × ((s.tenant_id ≡ r.tenant_id)
        × ((s.kind ≡ r.kind)
            × ((s.payload ≡ r.payload)
                × ((s.max_attempts ≡ r.max_attempts)
                    × ((r.attempts ≤ s.attempts) × ((r.completed_at ≡ none) ⊎ (s ≡ r)))))))

pub IsLater-refl : (r : QueueRow) → IsLater r r
IsLater-refl r = (refl, (refl, (refl, (refl, (refl, (omega arith, inr refl))))))

pub IsLater-trans : (r s t : QueueRow) → IsLater r s → IsLater s t → IsLater r t
IsLater-trans r s t (a, (b, (c, (d, (e, (f, g)))))) (a', (b', (c', (d', (e', (f', g')))))) =
    (a' ∙ a, (b' ∙ b, (c' ∙ c, (d' ∙ d, (e' ∙ e, (omega (arith, f, f'), finished g g'))))))
  where
    finished :
        (r.completed_at ≡ none) ⊎ (s ≡ r)
        → (s.completed_at ≡ none) ⊎ (t ≡ s)
        → (r.completed_at ≡ none) ⊎ (t ≡ r)
    finished (inl pending) h = inl pending
    finished (inr same) (inr same') = inr (same' ∙ same)
    finished (inr same) (inl pending) =
        inl (subst (λ (x : QueueRow). x.completed_at ≡ none) same pending)

-- The primary key, and the bound on attempts.
abbrev pub IsDistinct : List QueueRow → Type 0
IsDistinct [] = Unit
IsDistinct (r ∷ rows) = All (λ (s : QueueRow). s.outbox_id ≢ r.outbox_id) rows × IsDistinct rows

abbrev pub IsRowOf : ℕ → QueueRow → Type 0
IsRowOf next_id r = (r.outbox_id < next_id) × (r.attempts ≤ r.max_attempts)

abbrev pub IsQueue : Queue → Type 0
IsQueue q = All (IsRowOf q.next_id) q.rows × IsDistinct q.rows

-- What one call makes of a row.
abbrev pub IsNext : QueueRow → QueueRow → Type 0
IsNext r s = IsLater r s × ((s.attempts ≡ r.attempts) ⊎ (s.attempts ≤ s.max_attempts))

All₂-map {ℓ} :
    {A : Type ℓ} (R : A → A → Type 0) (f : A → A) (xs : List A)
    → All (λ x. R x (f x)) xs
    → All₂ R xs (map f xs)
All₂-map R f [] h = tt
All₂-map R f (x ∷ xs) h = (h.0, All₂-map R f xs h.1)

complete_row-IsLater :
    (now : ℕ) (r : QueueRow) → r.completed_at ≡ none → IsLater r (complete_row now r)
complete_row-IsLater now r e = (refl, (refl, (refl, (refl, (refl, (omega arith, inl e))))))

pub complete-IsNext : (now id : ℕ) (rows : List QueueRow) → All₂ IsNext rows (complete now id rows)
unfolding complete
complete-IsNext now id [] = tt
complete-IsNext now id (r ∷ rows) = elim (Bool-cases (is_pending id r)) [
  | inl hit ↦
      let pending : r.completed_at ≡ none = ground arith in
      rw hit ((complete_row-IsLater now r pending, inl refl), complete-IsNext now id rows)
  | inr miss ↦ rw miss ((IsLater-refl r, inl refl), complete-IsNext now id rows)
]

pub fail-IsNext :
    (now id : ℕ) (error : String) (rows : List QueueRow) → All₂ IsNext rows (fail now id error rows)
unfolding fail backoff
fail-IsNext now id error [] = tt
fail-IsNext now id error (r ∷ rows) = elim (Bool-cases (is_pending id r)) [
  | inl hit ↦
      let pending : r.completed_at ≡ none = ground arith in
      rw hit (
        ((refl, (refl, (refl, (refl, (refl, (omega arith, inl pending)))))), inl refl),
        fail-IsNext now id error rows,
      )
  | inr miss ↦ rw miss ((IsLater-refl r, inl refl), fail-IsNext now id error rows)
]

-- A claim: under the key, a chosen id is that of the claimable row itself.
no_other :
    (p : QueueRow → Bool) (id : ℕ) (rows : List QueueRow)
    → All (λ (s : QueueRow). s.outbox_id ≢ id) rows
    → any (λ (s : QueueRow). p s && (s.outbox_id =? id)) rows ≡ false
no_other p id [] h = refl
no_other p id (r ∷ rows) h =
    let here : r.outbox_id ≢ id = h.0 in ground (arith, no_other p id rows h.1)

pub has_claimable-own :
    (now : ℕ) (tenants : Option (List ℕ)) (rows : List QueueRow)
    → IsDistinct rows
    → All
        (λ (r : QueueRow). has_claimable now tenants r.outbox_id rows ≡ is_claimable now tenants r)
        rows
has_claimable-own now tenants [] d = tt
has_claimable-own now tenants (r ∷ rows) d = (
  ground (arith, no_other (is_claimable now tenants) r.outbox_id rows d.0),
  own_rest rows d.0 (has_claimable-own now tenants rows d.1),
)
  where
    own_rest :
        (later : List QueueRow)
        → All (λ (s : QueueRow). s.outbox_id ≢ r.outbox_id) later
        → All
            (λ (s : QueueRow).
              has_claimable now tenants s.outbox_id rows ≡ is_claimable now tenants s)
            later
        → All
            (λ (s : QueueRow).
              has_claimable now tenants s.outbox_id (r ∷ rows) ≡ is_claimable now tenants s)
            later
    own_rest [] away h = tt
    own_rest (s ∷ later) away h =
        let apart : s.outbox_id ≢ r.outbox_id = away.0 in
        (ground (arith, h.0), own_rest later away.1 h.1)

pub is_among-has_claimable :
    (now limit : ℕ) (tenants : Option (List ℕ)) (rows : List QueueRow) (id : ℕ)
    → has_row id (chosen_rows now tenants limit rows) ≡ true
    → has_claimable now tenants id rows ≡ true
is_among-has_claimable now limit tenants rows id h =
    let test : QueueRow → Bool = λ y. y.outbox_id =? id in
    let eligible = filter (is_claimable now tenants) rows in
    sym (any-filter test (is_claimable now tenants) rows)
    ∙ sym (any-sort_on (λ (r : QueueRow). r.outbox_id) test eligible)
    ∙ any-take test limit (sort_on (λ (r : QueueRow). r.outbox_id) eligible) h

lock_chosen-IsNext :
    (worker : String) (now limit : ℕ) (tenants : Option (List ℕ)) (rows : List QueueRow)
    (r : QueueRow)
    → has_claimable now tenants r.outbox_id rows ≡ is_claimable now tenants r
    → IsNext r (lock_chosen worker now (chosen_rows now tenants limit rows) r)
lock_chosen-IsNext worker now limit tenants rows r own =
    elim (Bool-cases (is_among (chosen_rows now tenants limit rows) r)) [
      | inl hit ↦
          let due : is_claimable now tenants r ≡ true =
            sym own ∙ is_among-has_claimable now limit tenants rows r.outbox_id hit in
          let pending : r.completed_at ≡ none = ground arith in
          let more : suc r.attempts ≤ r.max_attempts = ground arith in
          rw hit ((refl, (refl, (refl, (refl, (refl, (omega arith, inl pending)))))), inr more)
      | inr miss ↦ rw miss (IsLater-refl r, inl refl)
    ]

pub claim-IsNext :
    (worker : String) (now limit : ℕ) (tenants : Option (List ℕ)) (rows : List QueueRow)
    → IsDistinct rows
    → All₂ IsNext rows (map (lock_chosen worker now (chosen_rows now tenants limit rows)) rows)
claim-IsNext worker now limit tenants rows d =
    All₂-map IsNext (lock_chosen worker now (chosen_rows now tenants limit rows)) rows (
      All-map
        (λ (r : QueueRow). has_claimable now tenants r.outbox_id rows ≡ is_claimable now tenants r)
        (λ r. IsNext r (lock_chosen worker now (chosen_rows now tenants limit rows) r))
        (lock_chosen-IsNext worker now limit tenants rows) rows
        (has_claimable-own now tenants rows d))
