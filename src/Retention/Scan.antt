-- ===== src/Retention/Scan.antt =====
-- The residual scans of `runForget` in packages/retrieval/src/retention.ts. They filter by the user
-- and the actor of the request only, as the statements do.
pub mod Laws
use verity_mem.Projections.{EmbeddingRow, AliasRow, EntityRow}
use verity_mem.Prelude.{
  ℕ, ◌+◌, String, Bool, true, false, not, ◌&&◌, ◌||◌, Option, none, some, List, [], ◌∷◌, find,
  filter, length, contains, is_empty, ◌=?◌, ◌==◌, nat_eq, string_eq, if◌then◌else◌,
}
use verity_mem.Contracts.Vocabulary.{ClaimStatus}
use verity_mem.Store.{ScopeRow, ClaimRow}
use verity_mem.Retention.{
  Selector, StoredEvent, TraceRow, RetentionTables, null_or, has_payload, joins,
}
use verity_mem.Retention.Scrub.{name_or, names_alias, in_window}
use verity_mem.Retention.Revoke.{is_unrevoked}

pub record ScanCount : Type 0 where
  pub store : String
  pub matches : ℕ

abbrev pub is_of_user : Option String → ScopeRow → Bool
is_of_user user s = null_or user s.user_id

-- `JOIN claims c ON c.claim_id = …` with a condition on `c`.
abbrev pub joins_claim : List ClaimRow → (ClaimRow → Bool) → ℕ → Bool
joins_claim claims p id = elim (find (λ (c : ClaimRow). c.claim_id =? id) claims) [
  | none ↦ false
  | some c ↦ p c
]

abbrev pub survives_event : ℕ → Selector → List ScopeRow → StoredEvent → Bool
survives_event tenant selector scopes e =
    (e.row.tenant_id =? tenant)
    && has_payload e.row
    && joins scopes (is_of_user selector.user) e.row.scope_id
    && null_or selector.actor_id (some e.row.actor_id)

abbrev pub survives_claim : ℕ → Selector → List ScopeRow → ClaimRow → Bool
survives_claim tenant selector scopes c =
    (c.tenant_id =? tenant) && is_unrevoked c && joins scopes (is_of_user selector.user) c.scope_id

abbrev pub survives_embedding : ℕ → Selector → List ScopeRow → List ClaimRow → EmbeddingRow → Bool
survives_embedding tenant selector scopes claims e =
    (e.tenant_id =? tenant)
    && joins_claim claims (λ c. joins scopes (is_of_user selector.user) c.scope_id) e.claim_id

-- `$3::text IS NULL OR c.subject = $3 OR ce.canonical = lower($3)`.
abbrev pub names_subject : (String → String) → Option String → ClaimRow → EntityRow → Bool
names_subject lower none c e = true
names_subject lower (some v) c e = c.subject == v || e.canonical == lower v

abbrev pub survives_entity :
    (String → String) → ℕ → Selector → List ScopeRow → List ClaimRow → EntityRow → Bool
survives_entity lower tenant selector scopes claims e =
    (e.tenant_id =? tenant)
    && joins_claim claims
        (λ c.
          joins scopes (is_of_user selector.user) c.scope_id
          && names_subject lower selector.subject c e)
        e.claim_id

abbrev pub survives_trace : ℕ → ℕ → TraceRow → Bool
survives_trace tenant now t =
    in_window tenant now t && (not (is_empty t.candidates) || not (is_empty t.returned))

-- `blobs.physical`: the deleted refs that the store still holds, or, of a store that cannot delete,
-- every reference removed.
abbrev pub survivors : List ℕ → List ℕ → List ℕ
survivors present deleted = filter (contains present) deleted

abbrev pub count {ℓ} : {A : Type ℓ} → String → (A → Bool) → List A → ScanCount
count store p rows = record { store = store; matches = length (filter p rows) }

unfoldable pub scan_stores :
    (String → String) → ℕ → ℕ → Selector → ℕ → RetentionTables → List ScanCount
scan_stores lower tenant now selector blobs t =
    let scopes = t.database.scopes in
    let claims = t.database.claims in
    count "events.payload" (survives_event tenant selector scopes) t.events
    ∷ count "claims.content" (survives_claim tenant selector scopes) claims
    ∷ count "claim_embeddings" (survives_embedding tenant selector scopes claims) t.claim_embeddings
    ∷ count "entity_aliases" (names_alias lower tenant (name_or selector.user selector.subject))
        t.entity_aliases
    ∷ count "claim_entities" (survives_entity lower tenant selector scopes claims) t.claim_entities
    ∷ record { store = "blobs.physical"; matches = blobs }
    ∷ count "query_traces" (survives_trace tenant now) t.query_traces
    ∷ []

unfoldable pub total_matches : List ScanCount → ℕ
total_matches [] = 0
total_matches (s ∷ scans) = s.matches + total_matches scans
