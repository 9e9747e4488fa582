-- ===== src/Projections/Laws.antt =====
-- Projecting a claim again changes nothing, and a claim that stopped being believed is not found.
use verity_mem.Prelude.{
  ℕ, ◌≡◌, refl, inl, inr, String, Bool, true, false, not, ◌||◌, some, List, [], ◌∷◌, any, filter,
  find, ◌=?◌, nat_eq, string_eq, Bool-cases, All, arith, find-true,
}
use verity_mem.Store.{ClaimRow}
use verity_mem.Ledger.Chain.{EventRow}
use verity_mem.Projections.{
  EmbeddingRow, EntityRow, ProjectionTables, ProjectionRuntime, is_projected, deindex_claim,
  insert_new, insert_each, project_row, project_claim, count_new, ProjectionAnswer,
}

module _ {A : Type 0} (same : A → A → Bool) (own : (x : A) → same x x ≡ true)
    (make : String → A) where
  insert_each-keeps :
      (p : A → Bool) (names : List String) (rows : List A)
      → any p rows ≡ true
      → any p (insert_each same make names rows) ≡ true
  unfolding insert_each
  insert_each-keeps p [] rows h = h
  insert_each-keeps p (name ∷ names) rows h =
      insert_each-keeps p names (insert_new same (make name) rows) (ground arith)

  insert_each-has :
      (names : List String) (rows : List A)
      → All (λ name. any (same (make name)) (insert_each same make names rows) ≡ true) names
  unfolding insert_each
  insert_each-has [] rows = tt
  insert_each-has (name ∷ names) rows = (
    insert_each-keeps (same (make name)) names (insert_new same (make name) rows)
        (ground (arith, own (make name))),
    insert_each-has names (insert_new same (make name) rows),
  )

  insert_each-present :
      (names : List String) (rows : List A)
      → All (λ name. any (same (make name)) rows ≡ true) names
      → insert_each same make names rows ≡ rows
  unfolding insert_each
  insert_each-present [] rows h = refl
  insert_each-present (name ∷ names) rows h = rw h.0 (insert_each-present names rows h.1)

  count_new-present :
      (names : List String) (rows : List A)
      → All (λ name. any (same (make name)) rows ≡ true) names
      → count_new same make names rows ≡ 0
  unfolding count_new
  count_new-present [] rows h = refl
  count_new-present (name ∷ names) rows h = ground (arith, h.0, count_new-present names rows h.1)

  pub count_new-twice :
      (names : List String) (rows : List A)
      → count_new same make names (insert_each same make names rows) ≡ 0
  count_new-twice names rows =
      count_new-present names (insert_each same make names rows) (insert_each-has names rows)

  pub insert_each-twice :
      (names : List String) (rows : List A)
      → insert_each same make names (insert_each same make names rows)
        ≡ insert_each same make names rows
  insert_each-twice names rows =
      insert_each-present names (insert_each same make names rows) (insert_each-has names rows)

-- The tables and the reason of an answer, with no new entity.
abbrev pub answered_again :
    ProjectionTables × ProjectionAnswer → ProjectionTables × ProjectionAnswer
answered_again (p, answer) = (p, record answer { entities = 0 })

-- Whether retrieval can find a claim, of whatever tenant.
abbrev pub is_found : ℕ → ProjectionTables → Bool
is_found id p =
    any (λ (e : EmbeddingRow). e.claim_id =? id) p.claim_embeddings
    || any (λ (e : EntityRow). e.claim_id =? id) p.claim_entities

any-dropped : {A : Type 0} (p : A → Bool) (xs : List A) → any p (filter (λ x. not (p x)) xs) ≡ false
any-dropped p [] = refl
any-dropped p (x ∷ xs) = ground (arith, any-dropped p xs)

-- After a claim of the store was projected, it can be found only when its status is accepted or
-- disputed: whatever the projections held of a claim that is no longer believed is gone.
pub project_claim-found :
    (rt : ProjectionRuntime) (records : Bool) (events : List EventRow) (claims : List ClaimRow)
    (c : ClaimRow) (id : ℕ) (p : ProjectionTables)
    → find (λ (x : ClaimRow). x.claim_id =? id) claims ≡ some c
    → is_found id (project_claim rt records events claims id p).0 ≡ true
    → is_projected c.status ≡ true
unfolding project_claim deindex_claim
project_claim-found rt records events claims c id p hit found =
    elim (Bool-cases (is_projected c.status)) [
      | inl on ↦ on
      | inr off ↦
          let own = find-true (λ (x : ClaimRow). x.claim_id =? id) claims hit in
          let same : c.claim_id ≡ id = ground arith in
          let a = any-dropped (λ (e : EmbeddingRow). e.claim_id =? id) p.claim_embeddings in
          let b = any-dropped (λ (e : EntityRow). e.claim_id =? id) p.claim_entities in
          let seen = rw (project_claim, hit, project_row, off, same, a, b) at found in
          absurd (cc seen)
    ]
