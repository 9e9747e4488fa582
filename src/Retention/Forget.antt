-- ===== src/Retention/Forget.antt =====
-- `runForget` and `forget` of packages/retrieval/src/retention.ts: scrub, reclaim, scan, and the job
-- that is recorded. Instants are milliseconds; `lower` is the database's function, a parameter.
pub mod Laws
pub mod Verified
use verity_mem.Projections.{EmbeddingRow, AliasRow, EntityRow}
use verity_mem.Prelude.{
  ℕ, zero, suc, ◌+◌, String, Bool, true, false, not, ◌&&◌, ◌||◌, Option, none, some, List, [], ◌∷◌,
  ◌++◌, map, any, filter, length, keys_of, unique, contains, is_empty, is_some, ◌=?◌, nat_eq,
  if◌then◌else◌,
}
use verity_mem.Contracts.ReasonCodes.{
  retention_ledger_preserved, retention_residual_matches, retention_verified,
}
use verity_mem.Store.{ClaimRow, Database, Result, ok, err, ◌>>=◌}
use verity_mem.Retention.{
  RetentionMode, Selector, ForgetRequest, StoredEvent, TraceRow, RetentionTables, has_payload,
  event_key, claim_key, affected_events, affected_claims,
}
use verity_mem.Retention.Blobs.{BlobStore, BlobOutcome, names_ref, reclaim_blobs}
use verity_mem.Retention.Scrub.{
  refs_of, is_redactable, redact_events, deindexed_claims, deindex_all, name_or, names_alias,
  in_window, clear_traces,
}
use verity_mem.Retention.Revoke.{revoke_claims}
use verity_mem.Retention.Scan.{ScanCount, survivors, scan_stores, total_matches}

pub record StoreOutcome : Type 0 where
  pub store : String
  pub rows_affected : ℕ

pub record ForgetManifest : Type 0 where
  pub job_id : ℕ
  pub mode : RetentionMode
  pub reason : String
  pub stores : List StoreOutcome
  pub blobs : BlobOutcome
  pub claims_affected : ℕ
  pub events_redacted : ℕ
  pub started_at : ℕ
  pub completed_at : ℕ
  pub residual_scan : List ScanCount
  pub residual_matches : ℕ
  pub notes : List String

pub data RetentionStatus : Type 0 where
  pending running scanning verified failed : RetentionStatus

pub record RetentionJob : Type 0 where
  pub job_id : ℕ
  pub subject_or_scope : Selector
  pub mode : RetentionMode
  pub reason : String
  pub status : RetentionStatus
  pub stores_touched : List String
  pub manifest : ForgetManifest
  pub residual_matches : ℕ
  pub created_at : ℕ
  pub updated_at : ℕ
  pub verified_at : Option ℕ

-- What the dependencies hand to one call: the clock's two readings, `now()` of the transaction, the
-- job's identifier and the first of the decisions'.
pub record ForgetClock : Type 0 where
  pub started_at : ℕ
  pub completed_at : ℕ
  pub now : ℕ
  pub job_id : ℕ
  pub next_decision : ℕ

abbrev pub mode_of : ForgetRequest → RetentionMode
mode_of request = elim request.mode [ none ↦ RetentionMode.redact | some m ↦ m ]

module _ (B : BlobStore) (lower : String → String) (clock : ForgetClock)
    (request : ForgetRequest) where
  -- Phase one on the tables, the claims' rows excepted: every mode of the enumeration scrubs.
  unfoldable pub scrub : RetentionTables → RetentionTables
  unfolding affected_events affected_claims deindex_all
  scrub t =
      let events = keys_of event_key (affected_events request t) in
      let claims = keys_of claim_key (affected_claims request t) in
      let cited = keys_of claim_key (
        deindexed_claims request.tenant_id events t.database.claim_evidence t.evidence_spans
          t.database.claims) in
      let (embeddings, entities) = deindex_all cited (t.claim_embeddings, t.claim_entities) in
      let name = name_or request.subject_or_scope.user request.subject_or_scope.subject in
      record t {
        events = redact_events clock.now events t.events;
        claim_embeddings = embeddings;
        entity_aliases =
            filter (λ (a : AliasRow). not (names_alias lower request.tenant_id name a))
              t.entity_aliases;
        claim_entities = filter (λ (e : EntityRow). not (contains claims e.claim_id)) entities;
        query_traces = clear_traces request.tenant_id clock.now t.query_traces;
      }

  -- The rows that each statement of phase one changed, by store.
  unfoldable pub stores_of : RetentionTables → ℕ → BlobOutcome → List StoreOutcome
  unfolding affected_events affected_claims deindex_all
  stores_of t revoked blobs =
      let events = keys_of event_key (affected_events request t) in
      let claims = keys_of claim_key (affected_claims request t) in
      let cited = keys_of claim_key (
        deindexed_claims request.tenant_id events t.database.claim_evidence t.evidence_spans
          t.database.claims) in
      let (embeddings, entities) = deindex_all cited (t.claim_embeddings, t.claim_entities) in
      let name = name_or request.subject_or_scope.user request.subject_or_scope.subject in
      record {
        store = "events.payload";
        rows_affected = length (filter (is_redactable events) t.events);
      }
      ∷ record { store = "claim_embeddings"; rows_affected = length cited }
      ∷ record { store = "claims"; rows_affected = revoked }
      ∷ record {
        store = "entity_aliases";
        rows_affected = length (filter (names_alias lower request.tenant_id name) t.entity_aliases);
      }
      ∷ record {
        store = "claim_entities";
        rows_affected = length (filter (λ (e : EntityRow). contains claims e.claim_id) entities);
      }
      ∷ record {
        store = "query_traces";
        rows_affected = length (filter (in_window request.tenant_id clock.now) t.query_traces);
      }
      ∷ record { store = "events.blobs"; rows_affected = blobs.references_removed }
      ∷ []

  -- The refs that the tenant's events name after the redaction.
  abbrev pub still_named : RetentionTables → ℕ → Bool
  still_named t ref = any (λ (e : StoredEvent). names_ref request.tenant_id ref e.row) t.events

  abbrev pub physical_matches : BlobOutcome → B.State → ℕ
  physical_matches blobs objects =
      if B.supports_deletion
      then length (survivors (B.sweep objects) blobs.refs_deleted)
      else blobs.references_removed

  abbrev pub notes_of : RetentionTables → ℕ → List String
  notes_of t residual =
      (if is_empty (affected_events request t) && is_empty (affected_claims request t)
        then "nothing in scope matched this retention request; nothing was changed" ∷ []
        else [])
      ++ (if B.supports_deletion
          then []
          else "the configured blob store cannot physically delete, so its objects are counted as residual. A verified erase is not possible against an append-only store."
            ∷ [])
      ++ retention_ledger_preserved ∷ elim residual [
        | zero ↦ retention_verified ∷ []
        | suc n ↦
            retention_residual_matches
            ∷ "a non-zero residual count means the job is not verified; the surviving rows are named per store and must be addressed before the deletion can be reported as complete"
            ∷ []
      ]

  pub record Forgotten : Type 0 where
    pub tables : RetentionTables
    pub objects : B.State
    pub manifest : ForgetManifest

  -- What is left to do once the claims are revoked.
  unfoldable pub reclaim_and_scan : RetentionTables → B.State → Database × ℕ → Forgotten
  unfolding affected_events
  reclaim_and_scan t objects (db, revoked) =
      let after = record (scrub t) { database = db } in
      let (blobs, objects') =
        reclaim_blobs B (still_named after) (refs_of (affected_events request t)) objects in
      let scans =
        scan_stores lower request.tenant_id clock.now request.subject_or_scope
          (physical_matches blobs objects') after in
      let residual = total_matches scans in
      record {
        tables = after;
        objects = objects';
        manifest = record {
          job_id = clock.job_id;
          mode = mode_of request;
          reason = request.reason;
          stores = stores_of t revoked blobs;
          blobs = blobs;
          claims_affected = revoked;
          events_redacted = length (affected_events request t);
          started_at = clock.started_at;
          completed_at = clock.completed_at;
          residual_scan = scans;
          residual_matches = residual;
          notes = notes_of t residual;
        };
      }

  -- The approver stands as the reason, to which the code puts `retention:` in front.
  unfoldable pub run_forget : RetentionTables → B.State → Result Forgotten
  unfolding affected_claims
  run_forget t objects = do
    done ←
        revoke_claims clock.now request.reason clock.next_decision
          (keys_of claim_key (affected_claims request t)) t.database
    ok (reclaim_and_scan t objects done)

  unfoldable pub job_of : ForgetManifest → RetentionJob
  job_of m = record {
    job_id = clock.job_id;
    subject_or_scope = request.subject_or_scope;
    mode = mode_of request;
    reason = request.reason;
    status = if m.residual_matches =? 0 then verified else failed;
    stores_touched = map (λ (s : StoreOutcome). s.store) m.stores;
    manifest = m;
    residual_matches = m.residual_matches;
    created_at = clock.started_at;
    updated_at = m.completed_at;
    verified_at = if m.residual_matches =? 0 then some m.completed_at else none;
  }

  -- `forget`, up to the job that `recordJob` inserts.
  unfoldable pub forget : RetentionTables → B.State → Result (RetentionJob × Forgotten)
  unfolding run_forget job_of
  forget t objects = do done ← run_forget t objects; ok (job_of done.manifest, done)
