-- ===== src/Projections.antt =====
-- packages/retrieval/src/projections.ts: the dense and the entity projection of claims, kept by the
-- worker and rebuilt from the claims. The constant columns `source` and `confidence` are left out.
pub mod Laws
pub mod Rebuild
use verity_mem.Prelude.{
  ℕ, ◌+◌, ◌*◌, String, Bool, true, false, not, ◌&&◌, ◌||◌, Option, none, some, List, [], ◌∷◌, map,
  any, filter, find, length, unique, is_empty, leb, ◌=?◌, ◌==◌, nat_eq, string_eq, if◌then◌else◌,
  sort_on, is_some,
}
use verity_mem.Contracts.Vocabulary.{ClaimStatus, accepted, disputed}
use verity_mem.Store.{Value, null, text, scalar, composite, ClaimRow}
use verity_mem.Ledger.Chain.{EventRow}

pub record EmbeddingRow : Type 0 where
  pub claim_id : ℕ
  pub tenant_id : ℕ
  pub embedding : List ℕ
  pub model_id : String

pub record AliasRow : Type 0 where
  pub tenant_id : ℕ
  pub alias : String
  pub canonical : String

pub record EntityRow : Type 0 where
  pub tenant_id : ℕ
  pub canonical : String
  pub claim_id : ℕ

-- A row of `projection_versions` for the dense projection; the code version is a constant.
pub record VersionRow : Type 0 where
  pub tenant_id : ℕ
  pub model_version : String
  pub ledger_watermark : ℕ

pub record ProjectionTables : Type 0 where
  pub claim_embeddings : List EmbeddingRow
  pub entity_aliases : List AliasRow
  pub claim_entities : List EntityRow
  pub projection_versions : List VersionRow

-- What the code calls: methods of `String`, the template of three words with its whitespace
-- collapsed, and the embedding backend, of which nothing is assumed.
pub record ProjectionRuntime : Type 0 where
  pub trim : String → String
  pub to_lower : String → String
  pub length : String → ℕ
  pub collapsed : String → String → String → String
  pub embed : String → Option (List ℕ)
  pub model_id : String

unfoldable pub is_projected : ClaimStatus → Bool
is_projected accepted = true
is_projected disputed = true
is_projected _ = false

-- `deindexClaim`, on the two tables it deletes from.
unfoldable pub deindex_claim :
    ℕ → List EmbeddingRow × List EntityRow → List EmbeddingRow × List EntityRow
deindex_claim claim (embeddings, entities) = (
  filter (λ (e : EmbeddingRow). not (e.claim_id =? claim)) embeddings,
  filter (λ (e : EntityRow). not (e.claim_id =? claim)) entities,
)

-- `INSERT INTO claim_embeddings … ON CONFLICT (claim_id) DO UPDATE`.
unfoldable pub upsert_embedding : EmbeddingRow → List EmbeddingRow → List EmbeddingRow
upsert_embedding row [] = row ∷ []
upsert_embedding row (e ∷ rows) =
    let rest = upsert_embedding row rows in
    if e.claim_id =? row.claim_id then row ∷ rows else e ∷ rest

-- `ON CONFLICT (tenant_id, alias, canonical) DO NOTHING`.
abbrev pub is_alias : AliasRow → AliasRow → Bool
is_alias a b = (a.tenant_id =? b.tenant_id) && a.alias == b.alias && a.canonical == b.canonical

-- `ON CONFLICT (tenant_id, canonical, claim_id) DO UPDATE`, of columns that are constant.
abbrev pub is_entity : EntityRow → EntityRow → Bool
is_entity a b =
    (a.tenant_id =? b.tenant_id) && a.canonical == b.canonical && (a.claim_id =? b.claim_id)

-- The rows of a statement, one after the other: a row whose key is taken is not written.
unfoldable pub insert_new : {A : Type 0} → (A → A → Bool) → A → List A → List A
insert_new same row rows = if any (same row) rows then rows else row ∷ rows

unfoldable pub insert_each :
    {A : Type 0} → (A → A → Bool) → (String → A) → List String → List A → List A
unfolding insert_new
insert_each same make [] rows = rows
insert_each same make (name ∷ names) rows =
    insert_each same make names (insert_new same (make name) rows)

-- How many of the rows a statement writes: its `rowCount` under DO NOTHING.
unfoldable pub count_new : {A : Type 0} → (A → A → Bool) → (String → A) → List String → List A → ℕ
unfolding insert_new
count_new same make [] rows = 0
count_new same make (name ∷ names) rows =
    (if any (same (make name)) rows then 0 else 1)
    + count_new same make names (insert_new same (make name) rows)

abbrev pub alias_of : ℕ → String → AliasRow
alias_of tenant name = record { tenant_id = tenant; alias = name; canonical = name }

unfoldable pub insert_aliases : ℕ → List String → List AliasRow → List AliasRow
unfolding insert_each
insert_aliases tenant names rows = insert_each is_alias (alias_of tenant) names rows

unfoldable pub insert_entities : ℕ → ℕ → List String → List EntityRow → List EntityRow
unfolding insert_each
insert_entities tenant claim names rows =
    insert_each is_entity
      (λ (name : String). record { tenant_id = tenant; canonical = name; claim_id = claim }) names
      rows

-- `GREATEST(projection_versions.ledger_watermark, EXCLUDED.ledger_watermark)`.
abbrev pub greatest : ℕ → ℕ → ℕ
greatest a b = if leb a b then b else a

-- `recordProjectionVersion`.
unfoldable pub record_version : VersionRow → List VersionRow → List VersionRow
record_version row [] = row ∷ []
record_version row (v ∷ rows) =
    let rest = record_version row rows in
    if v.tenant_id =? row.tenant_id
    then record row { ledger_watermark = greatest v.ledger_watermark row.ledger_watermark } ∷ rows
    else v ∷ rest

pub data ProjectionReason : Type 0 where
  claim_not_found no_vector projected : ProjectionReason
  status_not_projected : ClaimStatus → ProjectionReason

-- What `projectClaim` answers; `projected` is whether the reason is.
pub record ProjectionAnswer : Type 0 where
  pub reason : ProjectionReason
  pub entities : ℕ

abbrev pub unprojected : ProjectionReason → ProjectionAnswer
unprojected reason = record { reason = reason; entities = 0 }

module _ (rt : ProjectionRuntime) where
  -- `canonicalize(claim.object ?? null)` for what is not a string.
  abbrev pub object_text : Value → String
  object_text null = "null"
  object_text (text s) = s
  object_text (scalar s) = s
  object_text (composite s) = s

  abbrev pub projection_text : ClaimRow → String
  projection_text c = rt.trim (rt.collapsed c.subject c.predicate (object_text c.object))

  abbrev pub name_of : String → List String
  name_of value = if rt.length (rt.trim value) =? 0 then [] else rt.to_lower (rt.trim value) ∷ []

  -- The candidates of `projectEntities`, of the subject and then of the object.
  abbrev pub object_names : Value → List String
  object_names (text s) = if leb (rt.length (rt.trim s)) 200 then name_of s else []
  object_names _ = []

  abbrev pub both_names : List String → List String → List String
  both_names [] ys = ys
  both_names (x ∷ xs) ys = x ∷ both_names xs ys

  unfoldable pub entity_names : ClaimRow → List String
  entity_names c = unique (both_names (name_of c.subject) (object_names c.object))

  -- `LEFT JOIN events`, with `COALESCE(e.seq, 0)`.
  abbrev pub origin_seq : List EventRow → ClaimRow → ℕ
  origin_seq events c = elim (find (λ (e : EventRow). e.event_id =? c.origin_event_id) events) [
    | none ↦ 0
    | some e ↦ e.seq
  ]

  -- The writes for a claim with a vector.
  unfoldable pub write_projection :
      Bool → List EventRow → ClaimRow → List ℕ → ProjectionTables → ProjectionTables
  unfolding upsert_embedding insert_aliases insert_entities record_version entity_names
  write_projection records events c vector p =
      let names = entity_names c in
      let version : VersionRow = record {
        tenant_id = c.tenant_id;
        model_version = rt.model_id;
        ledger_watermark = origin_seq events c;
      } in
      record {
        claim_embeddings =
            upsert_embedding
              (record {
                claim_id = c.claim_id;
                tenant_id = c.tenant_id;
                embedding = vector;
                model_id = rt.model_id;
              })
              p.claim_embeddings;
        entity_aliases = insert_aliases c.tenant_id names p.entity_aliases;
        claim_entities = insert_entities c.tenant_id c.claim_id names p.claim_entities;
        projection_versions =
            if records then record_version version p.projection_versions else p.projection_versions;
      }

  abbrev pub without_claim : ℕ → ProjectionTables → ProjectionTables
  without_claim claim p =
      let (embeddings, entities) = deindex_claim claim (p.claim_embeddings, p.claim_entities) in
      record p { claim_embeddings = embeddings; claim_entities = entities }

  -- What `projectEntities` returns: the aliases that were not in the dictionary.
  unfoldable pub new_entities : ClaimRow → ProjectionTables → ℕ
  unfolding count_new entity_names
  new_entities c p = count_new is_alias (alias_of c.tenant_id) (entity_names c) p.entity_aliases

  -- `projectClaim` on the row that was found.
  unfoldable pub project_row :
      Bool → List EventRow → ClaimRow → ProjectionTables → ProjectionTables × ProjectionAnswer
  unfolding write_projection deindex_claim is_projected new_entities
  project_row records events c p =
      if is_projected c.status
      then elim (rt.embed (projection_text c)) [
        | none ↦ (p, unprojected no_vector)
        | some vector ↦ (
          write_projection records events c vector p,
          record { reason = projected; entities = new_entities c p },
        )
      ]
      else (without_claim c.claim_id p, unprojected (status_not_projected c.status))

  unfoldable pub project_claim :
      Bool
      → List EventRow
      → List ClaimRow
      → ℕ
      → ProjectionTables
      → ProjectionTables × ProjectionAnswer
  unfolding project_row
  project_claim records events claims id p =
      elim (find (λ (c : ClaimRow). c.claim_id =? id) claims) [
        | none ↦ (p, unprojected claim_not_found)
        | some c ↦ project_row records events c p
      ]
