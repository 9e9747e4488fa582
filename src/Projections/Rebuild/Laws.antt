-- ===== src/Projections/Rebuild/Laws.antt =====
-- What the dense projection of a tenant holds after a rebuild.
use verity_mem.Prelude.{
  ℕ, suc, ◌+◌, ◌≡◌, refl, ◌∙◌, inl, inr, Bool, true, false, not, ◌&&◌, ◌||◌, some, List, [], ◌∷◌,
  any, filter, find, length, ◌=?◌, nat_eq, if◌then◌else◌, any-sort_on, any-filter, All-sort_on,
  All-filter, All-kept, find-IsUnique, IsUnique, Bool-cases, Option-cases, All, arith, is_some,
  All-zip,
}
use verity_mem.Store.{ClaimRow}
use verity_mem.Ledger.Chain.{EventRow}
use verity_mem.Projections.{
  EmbeddingRow, ProjectionTables, ProjectionRuntime, is_projected, upsert_embedding,
  write_projection, projection_text, project_row, project_claim,
}
use verity_mem.Projections.Rebuild.{
  DigestRow, is_success, is_wanted, wanted_claims, truncated, project_each, rebuild_projections,
}

-- The tenant's dense projection holds a vector of the claim.
abbrev pub is_indexed : ℕ → ℕ → EmbeddingRow → Bool
is_indexed tenant id e = (e.claim_id =? id) && (e.tenant_id =? tenant)

abbrev pub has_index : ℕ → ℕ → ProjectionTables → Bool
has_index tenant id p = any (is_indexed tenant id) p.claim_embeddings

any-upsert :
    (tenant id : ℕ) (row : EmbeddingRow) (rows : List EmbeddingRow)
    → row.tenant_id ≡ tenant
    → any (is_indexed tenant id) (upsert_embedding row rows)
      ≡ ((row.claim_id =? id) || any (is_indexed tenant id) rows)
unfolding upsert_embedding
any-upsert tenant id row [] own = ground arith
any-upsert tenant id row (e ∷ rows) own = ground (arith, any-upsert tenant id row rows own)

module _ (rt : ProjectionRuntime) (events : List EventRow) (claims : List ClaimRow)
    (tenant id : ℕ) where
  -- A claim that a rebuild projects: it is the claim asked for, and there is a vector for it.
  abbrev pub is_vectored : ClaimRow → Bool
  is_vectored c = (c.claim_id =? id) && is_some (rt.embed (projection_text rt c))

  project_row-index :
      (c : ClaimRow) (p : ProjectionTables)
      → is_wanted tenant c ≡ true
      → has_index tenant id (project_row rt false events c p).0
        ≡ (is_vectored c || has_index tenant id p)
  unfolding project_row write_projection
  project_row-index c p wanted =
      let on : is_projected c.status ≡ true = ground arith in
      let own : c.tenant_id ≡ tenant = ground arith in
      elim (Option-cases (rt.embed (projection_text rt c))) [
        | inl empty ↦ rw (project_row, on, empty) (ground arith)
        | inr (vector, full) ↦
            rw (project_row, on, full)
              (any-upsert tenant id _ p.claim_embeddings own ∙ ground arith)
      ]

  abbrev Standing : ClaimRow → Type 0
  Standing c =
      (find (λ (x : ClaimRow). x.claim_id =? c.claim_id) claims ≡ some c)
      × (is_wanted tenant c ≡ true)

  project_each-index :
      (rows : List ClaimRow) (p : ProjectionTables) (done skipped aliases : ℕ)
      → All Standing rows
      → has_index tenant id (project_each rt events claims rows p done skipped aliases).0
        ≡ (any is_vectored rows || has_index tenant id p)
  unfolding project_each project_claim
  project_each-index [] p done skipped aliases h = refl
  project_each-index (c ∷ rows) p done skipped aliases h =
      let step : project_claim rt false events claims c.claim_id p
          ≡ project_row rt false events c p =
        rw (project_claim, h.0.0) refl in
      let here = project_row-index c p h.0.1 in
      let rest =
        project_each-index rows (project_claim rt false events claims c.claim_id p).0
          (if is_success (project_claim rt false events claims c.claim_id p).1.reason
            then suc done
            else done)
          (if is_success (project_claim rt false events claims c.claim_id p).1.reason
            then skipped
            else suc skipped)
          (aliases + (project_claim rt false events claims c.claim_id p).1.entities) h.1 in
      let held : has_index tenant id (project_claim rt false events claims c.claim_id p).0
          ≡ (is_vectored c || has_index tenant id p) =
        rw step here in
      ground (arith, rest, held)

truncated-index :
    (tenant id : ℕ) (rows : List EmbeddingRow)
    → any (is_indexed tenant id) (filter (λ (e : EmbeddingRow). not (e.tenant_id =? tenant)) rows)
      ≡ false
truncated-index tenant id [] = refl
truncated-index tenant id (e ∷ rows) = ground (arith, truncated-index tenant id rows)

abbrev pub claim_id_of : ClaimRow → ℕ
claim_id_of c = c.claim_id

any-vectored :
    (rt : ProjectionRuntime) (events : List EventRow) (tenant id : ℕ) (claims all : List ClaimRow)
    → any (is_vectored rt events all tenant id) (wanted_claims tenant claims)
      ≡ any (λ c. is_wanted tenant c && is_vectored rt events all tenant id c) claims
unfolding wanted_claims
any-vectored rt events tenant id claims all =
    any-sort_on claim_id_of (is_vectored rt events all tenant id) (filter (is_wanted tenant) claims)
    ∙ any-filter (is_vectored rt events all tenant id) (is_wanted tenant) claims

wanted_claims-Standing :
    (tenant : ℕ) (claims : List ClaimRow)
    → IsUnique claim_id_of claims
    → All
        (λ (c : ClaimRow).
          (find (λ (x : ClaimRow). x.claim_id =? c.claim_id) claims ≡ some c)
          × (is_wanted tenant c ≡ true))
        (wanted_claims tenant claims)
unfolding wanted_claims
wanted_claims-Standing tenant claims unique_ids =
    All-sort_on claim_id_of _ (filter (is_wanted tenant) claims) (
      All-zip _ _ (filter (is_wanted tenant) claims)
        (All-kept _ (is_wanted tenant) claims (find-IsUnique claim_id_of claims unique_ids))
        (All-filter (is_wanted tenant) claims))

-- A rebuild from scratch depends on the claims alone: afterwards the tenant's dense projection holds
-- a vector of a claim exactly when the claim is the tenant's, is accepted or disputed, and the
-- backend has a vector for its text, whatever the projection held before. `claim_id` is a key.
pub rebuild_projections-index :
    (rt : ProjectionRuntime) (events : List EventRow) (claims : List ClaimRow)
    (digest : List DigestRow → ℕ) (tenant id : ℕ) (p : ProjectionTables)
    → IsUnique claim_id_of claims
    → has_index tenant id (rebuild_projections rt events claims digest tenant true p).0
      ≡ any (λ c. is_wanted tenant c && is_vectored rt events claims tenant id c) claims
unfolding rebuild_projections
rebuild_projections-index rt events claims digest tenant id p unique_ids =
    let rows = wanted_claims tenant claims in
    let loop =
      project_each-index rt events claims tenant id rows (truncated tenant p) 0 0 0
        (wanted_claims-Standing tenant claims unique_ids) in
    let clean = truncated-index tenant id p.claim_embeddings in
    ground (arith, loop, clean, any-vectored rt events tenant id claims claims)

project_each-counts :
    (rt : ProjectionRuntime) (events : List EventRow) (claims rows : List ClaimRow)
    (p : ProjectionTables) (done skipped aliases : ℕ)
    → (project_each rt events claims rows p done skipped aliases).1.0
        + (project_each rt events claims rows p done skipped aliases).1.1
      ≡ length rows + done + skipped
unfolding project_each
project_each-counts rt events claims [] p done skipped aliases = omega arith
project_each-counts rt events claims (c ∷ rows) p done skipped aliases =
    let step = project_claim rt false events claims c.claim_id p in
    elim (Bool-cases (is_success step.1.reason)) [
      | inl hit ↦
          let rest =
            project_each-counts rt events claims rows step.0 (suc done) skipped
              (aliases + step.1.entities) in
          rw (project_each, hit) (omega (arith, rest))
      | inr miss ↦
          let rest =
            project_each-counts rt events claims rows step.0 done (suc skipped)
              (aliases + step.1.entities) in
          rw (project_each, miss) (omega (arith, rest))
    ]

-- A rebuild accounts for every claim that it reads: each is projected or skipped.
pub rebuild_projections-counts :
    (rt : ProjectionRuntime) (events : List EventRow) (claims : List ClaimRow)
    (digest : List DigestRow → ℕ) (tenant : ℕ) (truncate : Bool) (p : ProjectionTables)
    → (rebuild_projections rt events claims digest tenant truncate p).1.claims_projected
        + (rebuild_projections rt events claims digest tenant truncate p).1.claims_skipped
      ≡ (rebuild_projections rt events claims digest tenant truncate p).1.claims_seen
unfolding rebuild_projections
rebuild_projections-counts rt events claims digest tenant truncate p =
    project_each-counts rt events claims (wanted_claims tenant claims)
      (if truncate then truncated tenant p else p) 0 0 0
    ∙ omega arith
