-- ===== src/Projections/Rebuild.antt =====
-- `rebuildProjections` of packages/retrieval/src/projections.ts. The digest of the rows that it reads
-- back is a parameter.
pub mod Laws
use verity_mem.Prelude.{
  ℕ, zero, suc, ◌+◌, String, Bool, true, false, not, ◌&&◌, ◌||◌, Option, none, some, List, [], ◌∷◌,
  any, filter, find, length, leb, ◌=?◌, nat_eq, if◌then◌else◌, sort_on,
}
use verity_mem.Store.{ClaimRow}
use verity_mem.Ledger.Chain.{EventRow}
use verity_mem.Projections.{
  EmbeddingRow, EntityRow, VersionRow, ProjectionTables, ProjectionRuntime, ProjectionReason,
  projected, claim_not_found, no_vector, status_not_projected, is_projected, record_version,
  greatest, projection_text, origin_seq, entity_names, project_claim,
}

-- A row that is read back for the digest.
pub record DigestRow : Type 0 where
  pub claim_id : ℕ
  pub model_id : String
  pub text : String

pub record RebuildReport : Type 0 where
  pub claims_seen : ℕ
  pub claims_projected : ℕ
  pub claims_skipped : ℕ
  pub entities_written : ℕ
  pub digest : ℕ
  pub rows : ℕ

-- The SELECT of the claims to project.
abbrev pub is_wanted : ℕ → ClaimRow → Bool
is_wanted tenant c = (c.tenant_id =? tenant) && is_projected c.status

unfoldable pub wanted_claims : ℕ → List ClaimRow → List ClaimRow
unfolding is_projected
wanted_claims tenant claims =
    sort_on (λ (c : ClaimRow). c.claim_id) (filter (is_wanted tenant) claims)

abbrev pub truncated : ℕ → ProjectionTables → ProjectionTables
truncated tenant p = record p {
  claim_embeddings = filter (λ (e : EmbeddingRow). not (e.tenant_id =? tenant)) p.claim_embeddings;
  claim_entities = filter (λ (e : EntityRow). not (e.tenant_id =? tenant)) p.claim_entities;
}

abbrev pub is_success : ProjectionReason → Bool
is_success projected = true
is_success _ = false

-- The rows that the dense projection of a tenant holds, joined with their claims.
abbrev pub digest_row : ProjectionRuntime → List ClaimRow → EmbeddingRow → List DigestRow
digest_row rt claims e = elim (find (λ (c : ClaimRow). c.claim_id =? e.claim_id) claims) [
  | none ↦ []
  | some c ↦
      record { claim_id = e.claim_id; model_id = e.model_id; text = projection_text rt c } ∷ []
]

abbrev pub read_back : ProjectionRuntime → List ClaimRow → List EmbeddingRow → List DigestRow
read_back rt claims [] = []
read_back rt claims (e ∷ rows) =
    let rest = read_back rt claims rows in
    elim (digest_row rt claims e) [ [] ↦ rest | (d ∷ ds) ↦ d ∷ rest ]

module _ (rt : ProjectionRuntime) (events : List EventRow) (claims : List ClaimRow) where
  -- The loop over the claims, with the numbers projected, skipped, and of new aliases.
  unfoldable pub project_each :
      List ClaimRow → ProjectionTables → ℕ → ℕ → ℕ → ProjectionTables × (ℕ × ℕ × ℕ)
  unfolding project_claim
  project_each [] p done skipped aliases = (p, (done, skipped, aliases))
  project_each (c ∷ rows) p done skipped aliases =
      let (p', answer) = project_claim rt false events claims c.claim_id p in
      project_each rows p' (if is_success answer.reason then suc done else done)
        (if is_success answer.reason then skipped else suc skipped) (aliases + answer.entities)

  -- `claims.rows.reduce(…)`.
  abbrev pub highest : List ClaimRow → ℕ
  highest [] = 0
  highest (c ∷ rows) = greatest (origin_seq rt events c) (highest rows)

  unfoldable pub rebuild_projections :
      (List DigestRow → ℕ) → ℕ → Bool → ProjectionTables → ProjectionTables × RebuildReport
  unfolding project_each wanted_claims record_version
  rebuild_projections digest tenant truncate p =
      let rows = wanted_claims tenant claims in
      let start = if truncate then truncated tenant p else p in
      let (p', counts) = project_each rows start 0 0 0 in
      let version : VersionRow = record {
        tenant_id = tenant;
        model_version = rt.model_id;
        ledger_watermark = highest rows;
      } in
      let held =
        sort_on (λ (e : EmbeddingRow). e.claim_id)
          (filter (λ (e : EmbeddingRow). e.tenant_id =? tenant) p'.claim_embeddings) in
      let read = read_back rt claims held in
      (
        record p' { projection_versions = record_version version p'.projection_versions },
        record {
          claims_seen = length rows;
          claims_projected = counts.0;
          claims_skipped = counts.1;
          entities_written = counts.2;
          digest = digest read;
          rows = length read;
        },
      )
