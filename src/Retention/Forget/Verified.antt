-- ===== src/Retention/Forget/Verified.antt =====
-- What the status of a job stands for, which objects survive it, and that the ledger still testifies.
use verity_mem.Prelude.{
  ℕ, ◌≡◌, refl, sym, subst, inl, inr, String, Bool, true, false, not, ◌&&◌, Option, none, some,
  List, [], ◌∷◌, map, any, contains, IsUnique, nat_eq, string_eq, ◌=?◌, Bool-cases, All, arith,
}
use verity_mem.Store.{ScopeRow, Database, ok}
use verity_mem.Ledger.Chain.{LinkFields, verify_chain}
use verity_mem.Retention.{
  Selector, ForgetRequest, StoredEvent, RetentionTables, has_payload, joins, event_key, claim_key,
  selects_event, affected_events,
}
use verity_mem.Retention.Blobs.{BlobStore, IsLawful, names_ref}
use verity_mem.Retention.Blobs.Laws.{reclaim_blobs-keeps}
use verity_mem.Retention.Scrub.{refs_of}
use verity_mem.Retention.Scrub.Laws.{rows_of, redact_events-verify_chain}
use verity_mem.Retention.Scan.Laws.{IsForgotten, scan_stores-IsForgotten}
use verity_mem.Retention.Forget.{
  ForgetClock, RetentionJob, verified, Forgotten, scrub, reclaim_and_scan, job_of, forget,
}
use verity_mem.Retention.Forget.Laws.{forget-done, forget_event, forget-changes, scrub-events}

abbrev selected_event : ForgetRequest → List ScopeRow → StoredEvent → Bool
selected_event request scopes e =
    selects_event request.tenant_id request.subject_or_scope scopes e.row

-- An event of the tenant that names a ref and that the request does not select.
abbrev pub holds_ref : ForgetRequest → List ScopeRow → ℕ → StoredEvent → Bool
holds_ref request scopes ref e =
    names_ref request.tenant_id ref e.row
    && not (selects_event request.tenant_id request.subject_or_scope scopes e.row)

any-kept :
    (now : ℕ) (request : ForgetRequest) (scopes : List ScopeRow) (ref : ℕ)
    (events : List StoredEvent)
    → any (holds_ref request scopes ref) events ≡ true
    → any
        (λ (e : StoredEvent). names_ref request.tenant_id ref e.row)
        (map (forget_event now request scopes) events)
      ≡ true
any-kept now request scopes ref [] h = h
any-kept now request scopes ref (e ∷ events) h =
    elim (Bool-cases (holds_ref request scopes ref e)) [
      | inl here ↦
          let out : selected_event request scopes e ≡ false = ground arith in
          let own : names_ref request.tenant_id ref e.row ≡ true = ground arith in
          rw out (ground arith)
      | inr later ↦ let rest = any-kept now request scopes ref events (ground arith) in ground arith
    ]

cleared_payload :
    (now : ℕ) (request : ForgetRequest) (scopes : List ScopeRow) (e : StoredEvent)
    → (selected_event request scopes e && has_payload (forget_event now request scopes e).row)
      ≡ false
cleared_payload now request scopes e = elim (Bool-cases (selected_event request scopes e)) [
  | inr out ↦ rw out refl
  | inl chosen ↦ elim (Bool-cases (has_payload e.row)) [
    | inl full ↦ rw (chosen, full) refl
    | inr empty ↦ rw (chosen, empty) empty
  ]
]

module _ (B : BlobStore) (lower : String → String) (clock : ForgetClock) (request : ForgetRequest)
    (t : RetentionTables) (objects : B.State) where
  scanned :
      (d : Database × ℕ)
      → (reclaim_and_scan B lower clock request t objects d).manifest.residual_matches ≡ 0
      → IsForgotten request.tenant_id request.subject_or_scope
          (reclaim_and_scan B lower clock request t objects d).tables
  unfolding reclaim_and_scan
  scanned d h =
      scan_stores-IsForgotten lower request.tenant_id clock.now request.subject_or_scope _ _ h

  -- The refs that a forget operation detaches, and those that the tenant's events name afterwards.
  kept_objects :
      (d : Database × ℕ) (ref : ℕ)
      → IsLawful B
      → any
          (λ (e : StoredEvent). names_ref request.tenant_id ref e.row)
          (scrub B lower clock request t).events
        ≡ true
      → contains (B.sweep (reclaim_and_scan B lower clock request t objects d).objects) ref
        ≡ contains (B.sweep objects) ref
  unfolding reclaim_and_scan
  kept_objects d ref law live =
      reclaim_blobs-keeps B _ law (refs_of (affected_events request t)) objects ref (rw live refl)

module _ (B : BlobStore) (lower : String → String) (clock : ForgetClock) (request : ForgetRequest)
    (t : RetentionTables) (objects : B.State) (job : RetentionJob)
    (f : Forgotten B lower clock request)
    (done : forget B lower clock request t objects ≡ ok (job, f)) where
  verified-zero : job.status ≡ verified → f.manifest.residual_matches ≡ 0
  unfolding job_of
  verified-zero h =
      let (d, (went, (value, whole))) = forget-done B lower clock request t objects job f done in
      elim (Bool-cases (f.manifest.residual_matches =? 0)) [
        | inl nil ↦ ground arith
        | inr left ↦ absurd (ground (arith, whole, left, h))
      ]

  -- A job that is reported as verified has left nothing that its request selects: no event of the
  -- scope and actor with content, no claim of the scope and subject that is not revoked, and no
  -- embedding of such a claim.
  pub forget-IsForgotten :
      job.status ≡ verified → IsForgotten request.tenant_id request.subject_or_scope f.tables
  forget-IsForgotten h =
      let (d, (went, (value, whole))) = forget-done B lower clock request t objects job f done in
      subst
        (λ (x : Forgotten B lower clock request).
          IsForgotten request.tenant_id request.subject_or_scope x.tables)
        (sym value) (scanned B lower clock request t objects d (rw value at (verified-zero h)))

  -- With a store that meets the contract and event ids that are unique, an object that an event of the
  -- request's own tenant names, one that the request does not select, is in the store after forgetting
  -- exactly when it was before, also when a selected event named the same bytes. Nothing is said of
  -- objects that only events of other tenants name.
  pub forget-keeps_shared :
      (ref : ℕ)
      → IsLawful B
      → IsUnique event_key t.events
      → any (holds_ref request t.database.scopes ref) t.events ≡ true
      → contains (B.sweep f.objects) ref ≡ contains (B.sweep objects) ref
  forget-keeps_shared ref law unique_ids shared =
      let (d, (went, (value, whole))) = forget-done B lower clock request t objects job f done in
      let kept = any-kept clock.now request t.database.scopes ref t.events shared in
      let live = rw (← scrub-events B lower clock request t unique_ids) at kept in
      rw value (kept_objects B lower clock request t objects d ref law live)

  -- After a forget operation every stretch of every stream verifies as it did before.
  pub forget-verify_chain :
      (link : LinkFields → ℕ) (tenant : ℕ) (stream : String) (from to : Option ℕ)
      → verify_chain link tenant stream from to (rows_of f.tables.events)
        ≡ verify_chain link tenant stream from to (rows_of t.events)
  unfolding scrub reclaim_and_scan
  forget-verify_chain link tenant stream from to =
      let (d, (went, (value, whole))) = forget-done B lower clock request t objects job f done in
      rw value (redact_events-verify_chain link tenant stream from to clock.now _ t.events)

-- A request that names nothing but a subject.
abbrev pub of_subject : String → Selector
of_subject subject = record {
  project = none;
  user = none;
  agent = none;
  session = none;
  actor_id = none;
  subject = some subject;
}

abbrev pub is_tenant_content : ℕ → List ScopeRow → StoredEvent → Bool
is_tenant_content tenant scopes e =
    (e.row.tenant_id =? tenant) && joins scopes (λ s. true) e.row.scope_id && has_payload e.row

subject_clears_event :
    (now : ℕ) (request : ForgetRequest) (subject : String) (scopes : List ScopeRow)
    (e : StoredEvent)
    → request.subject_or_scope ≡ of_subject subject
    → is_tenant_content request.tenant_id scopes (forget_event now request scopes e) ≡ false
unfolding selects_event
subject_clears_event now request subject scopes e named = rw named (ground arith)

All-map_of :
    {A : Type 0} (P : A → Type 0) (g : A → A)
    → ((x : A) → P (g x))
    → (xs : List A) → All P (map g xs)
All-map_of P g every [] = tt
All-map_of P g every (x ∷ xs) = (every x, All-map_of P g every xs)

-- A request that names only a subject clears the content of every event of the tenant, of whatever
-- subject, user or project: the conditions on events do not look at the subject.
pub forget-subject_clears_tenant :
    (B : BlobStore) (lower : String → String) (clock : ForgetClock) (request : ForgetRequest)
    (subject : String) (t : RetentionTables) (objects : B.State) (job : RetentionJob)
    (f : Forgotten B lower clock request)
    → request.subject_or_scope ≡ of_subject subject
    → IsUnique event_key t.events
    → IsUnique claim_key t.database.claims
    → forget B lower clock request t objects ≡ ok (job, f)
    → All (λ e. is_tenant_content request.tenant_id t.database.scopes e ≡ false) f.tables.events
forget-subject_clears_tenant B lower clock request subject t objects job f named one two done =
    let (events, claims) = forget-changes B lower clock request t objects job f one two done in
    rw events (
      All-map_of _ (forget_event clock.now request t.database.scopes)
        (λ e. subject_clears_event clock.now request subject t.database.scopes e named) t.events)
