-- ===== src/Retention/Scan/Laws.antt =====
-- A scan that counts nothing has seen every row that the request selects.
use verity_mem.Projections.{EmbeddingRow}
use verity_mem.Prelude.{
  ℕ, ◌≡◌, refl, inl, inr, String, Bool, false, ◌&&◌, List, [], ◌∷◌, find, filter, length, ◌=?◌,
  Bool-cases, Option-cases, All, All-map, arith, string_eq,
}
use verity_mem.Store.{ScopeRow, ClaimRow}
use verity_mem.Retention.{
  Selector, StoredEvent, RetentionTables, has_payload, joins, in_scope, selects_event,
  selects_claim,
}
use verity_mem.Retention.Revoke.{is_unrevoked}
use verity_mem.Retention.Scan.{
  is_of_user, joins_claim, survives_event, survives_claim, survives_embedding, scan_stores,
  total_matches,
}

length-filter_zero :
    {A : Type 0} (p : A → Bool) (xs : List A) → length (filter p xs) ≡ 0 → All (λ x. p x ≡ false) xs
length-filter_zero p [] h = tt
length-filter_zero p (x ∷ xs) h = elim (Bool-cases (p x)) [
  | inl hit ↦ absurd (omega (arith, rw hit at h))
  | inr miss ↦ (miss, length-filter_zero p xs (rw miss at h))
]

joins_mono :
    (scopes : List ScopeRow) (p q : ScopeRow → Bool) (id : ℕ)
    → ((s : ScopeRow) → q s ≡ false → p s ≡ false)
    → joins scopes q id ≡ false
    → joins scopes p id ≡ false
joins_mono scopes p q id down h =
    elim (Option-cases (find (λ (s : ScopeRow). s.scope_id =? id) scopes)) [
      | inl e ↦ rw (joins, e) refl
      | inr (s, e) ↦ rw (joins, e) (down s (rw (joins, e) at h))
    ]

in_scope_down :
    (selector : Selector) (s : ScopeRow)
    → is_of_user selector.user s ≡ false
    → in_scope selector s ≡ false
in_scope_down selector s h = ground arith

-- Rows that the request selects and that still hold what it asked to forget.
abbrev pub is_left_event : ℕ → Selector → List ScopeRow → StoredEvent → Bool
is_left_event tenant selector scopes e =
    selects_event tenant selector scopes e.row && has_payload e.row

abbrev pub is_left_claim : ℕ → Selector → List ScopeRow → ClaimRow → Bool
is_left_claim tenant selector scopes c = selects_claim tenant selector scopes c && is_unrevoked c

abbrev pub is_left_embedding : ℕ → Selector → List ScopeRow → List ClaimRow → EmbeddingRow → Bool
is_left_embedding tenant selector scopes claims e =
    (e.tenant_id =? tenant) && joins_claim claims (selects_claim tenant selector scopes) e.claim_id

module _ (tenant : ℕ) (selector : Selector) (scopes : List ScopeRow) where
  event_down :
      (e : StoredEvent)
      → survives_event tenant selector scopes e ≡ false
      → is_left_event tenant selector scopes e ≡ false
  unfolding selects_event
  event_down e h =
      let scope =
        joins_mono scopes (in_scope selector) (is_of_user selector.user) e.row.scope_id
          (in_scope_down selector) in
      elim (Bool-cases (joins scopes (is_of_user selector.user) e.row.scope_id)) [
        | inl mine ↦ ground arith
        | inr other ↦ let out = scope other in ground arith
      ]

  claim_down :
      (c : ClaimRow)
      → survives_claim tenant selector scopes c ≡ false
      → is_left_claim tenant selector scopes c ≡ false
  unfolding selects_claim
  claim_down c h =
      let scope =
        joins_mono scopes (in_scope selector) (is_of_user selector.user) c.scope_id
          (in_scope_down selector) in
      elim (Bool-cases (joins scopes (is_of_user selector.user) c.scope_id)) [
        | inl mine ↦ ground arith
        | inr other ↦ let out = scope other in ground arith
      ]

  selected_down :
      (c : ClaimRow)
      → joins scopes (is_of_user selector.user) c.scope_id ≡ false
      → selects_claim tenant selector scopes c ≡ false
  unfolding selects_claim
  selected_down c h =
      let out =
        joins_mono scopes (in_scope selector) (is_of_user selector.user) c.scope_id
          (in_scope_down selector) h in
      ground arith

  embedding_down :
      (claims : List ClaimRow) (e : EmbeddingRow)
      → survives_embedding tenant selector scopes claims e ≡ false
      → is_left_embedding tenant selector scopes claims e ≡ false
  embedding_down claims e h = elim (Bool-cases (e.tenant_id =? tenant)) [
    | inr other ↦ rw other refl
    | inl mine ↦ elim (Option-cases (find (λ (c : ClaimRow). c.claim_id =? e.claim_id) claims)) [
      | inl miss ↦ rw (mine, joins_claim, miss) refl
      | inr (c, hit) ↦
          rw (mine, joins_claim, hit) (selected_down c (rw (mine, joins_claim, hit) at h))
    ]
  ]

-- What the request selects of the tables, when nothing of it is left.
pub record IsForgotten (tenant : ℕ) (selector : Selector) (t : RetentionTables) : Type 0 where
  pub events : All (λ e. is_left_event tenant selector t.database.scopes e ≡ false) t.events
  pub claims :
      All (λ c. is_left_claim tenant selector t.database.scopes c ≡ false) t.database.claims
  pub embeddings :
      All
        (λ e. is_left_embedding tenant selector t.database.scopes t.database.claims e ≡ false)
        t.claim_embeddings

-- A scan whose seven counts add up to nothing leaves no row that the request selects.
pub scan_stores-IsForgotten :
    (lower : String → String) (tenant now : ℕ) (selector : Selector) (blobs : ℕ)
    (t : RetentionTables)
    → total_matches (scan_stores lower tenant now selector blobs t) ≡ 0
    → IsForgotten tenant selector t
unfolding scan_stores total_matches
scan_stores-IsForgotten lower tenant now selector blobs t h =
    let scopes = t.database.scopes in
    let claims = t.database.claims in
    let no_events : length (filter (survives_event tenant selector scopes) t.events) ≡ 0 =
      omega (arith, h) in
    let no_claims : length (filter (survives_claim tenant selector scopes) claims) ≡ 0 =
      omega (arith, h) in
    let no_embeddings : length
          (filter (survives_embedding tenant selector scopes claims) t.claim_embeddings)
        ≡ 0 =
      omega (arith, h) in
    record {
      events =
          All-map _ _ (event_down tenant selector scopes) t.events
            (length-filter_zero _ t.events no_events);
      claims =
          All-map _ _ (claim_down tenant selector scopes) claims
            (length-filter_zero _ claims no_claims);
      embeddings =
          All-map _ _ (embedding_down tenant selector scopes claims) t.claim_embeddings
            (length-filter_zero _ t.claim_embeddings no_embeddings);
    }
