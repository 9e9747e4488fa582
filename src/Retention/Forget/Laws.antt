-- ===== src/Retention/Forget/Laws.antt =====
-- What a forget operation that returns has done, and when it returns.
use verity_mem.Prelude.{
  ℕ, ◌≡◌, refl, ◌∙◌, inl, inr, String, Bool, true, ◌&&◌, List, [], ◌∷◌, map, all, filter, contains,
  keys_of, keys-filter, IsUnique, nat_eq, string_eq, if◌then◌else◌, All, none, some,
}
use verity_mem.Store.{ScopeRow, ClaimRow, Database, ok, Result-cases, ok_injective}
use verity_mem.Store.Update.{with_status}
use verity_mem.Contracts.Vocabulary.{ClaimStatus}
use verity_mem.Retention.{
  ForgetRequest, StoredEvent, RetentionTables, has_payload, event_key, claim_key, selects_event,
  selects_claim, affected_events, affected_claims,
}
use verity_mem.Retention.Blobs.{BlobStore}
use verity_mem.Retention.Scrub.{redact_events}
use verity_mem.Retention.Revoke.{is_unrevoked, closing, revoke_claims}
use verity_mem.Retention.Revoke.Laws.{is_due, revoke_claims-claims}
use verity_mem.Retention.Revoke.Total.{is_ok, is_closable, IsFresh, revoke_claims-ok}
use verity_mem.Retention.Forget.{
  ForgetClock, RetentionJob, Forgotten, scrub, reclaim_and_scan, run_forget, job_of, forget,
}

-- A selection by key does to the rows what the test itself would do.
map-keys :
    {A : Type 0} (key : A → ℕ) (p : A → Bool) (f : (A → Bool) → A → A) (xs : List A)
    → ((t u : A → Bool) (x : A) → t x ≡ u x → f t x ≡ f u x)
    → (ids : List ℕ) → All (λ x. contains ids (key x) ≡ p x) xs
    → map (f (λ x. contains ids (key x))) xs ≡ map (f p) xs
map-keys key p f [] local ids h = refl
map-keys key p f (x ∷ xs) local ids h =
    let here = local (λ y. contains ids (key y)) p x h.0 in
    cc (here, map-keys key p f xs local ids h.1)

-- An event without its content: the columns that the chain commits to stay, and so does the instant
-- of an earlier redaction.
abbrev pub emptied : ℕ → StoredEvent → StoredEvent
emptied now e = record {
  row = record e.row { payload = none; payload_ref = none };
  redacted_at = elim e.redacted_at [ none ↦ some now | some at ↦ some at ];
}

-- The event and the claim that a request leaves.
abbrev pub redact_if : ℕ → (StoredEvent → Bool) → StoredEvent → StoredEvent
redact_if now test e = if test e && has_payload e.row then emptied now e else e

abbrev pub forget_event : ℕ → ForgetRequest → List ScopeRow → StoredEvent → StoredEvent
forget_event now request scopes e =
    redact_if now (λ x. selects_event request.tenant_id request.subject_or_scope scopes x.row) e

abbrev pub revoke_if : ℕ → (ClaimRow → Bool) → ClaimRow → ClaimRow
revoke_if now test c =
    if test c && is_unrevoked c then with_status c ClaimStatus.revoked (closing now c) else c

abbrev pub forget_claim : ℕ → ForgetRequest → List ScopeRow → ClaimRow → ClaimRow
forget_claim now request scopes c =
    revoke_if now (selects_claim request.tenant_id request.subject_or_scope scopes) c

redact_events-map :
    (now : ℕ) (ids : List ℕ) (events : List StoredEvent)
    → redact_events now ids events
      ≡ map (redact_if now (λ (e : StoredEvent). contains ids (event_key e))) events
unfolding redact_events
redact_events-map now ids [] = refl
redact_events-map now ids (e ∷ events) = cc (redact_events-map now ids events)

redact_if-local :
    (now : ℕ) (t u : StoredEvent → Bool) (e : StoredEvent)
    → t e ≡ u e
    → redact_if now t e ≡ redact_if now u e
redact_if-local now t u e h = rw h refl

revoke_if-local :
    (now : ℕ) (t u : ClaimRow → Bool) (c : ClaimRow)
    → t c ≡ u c
    → revoke_if now t c ≡ revoke_if now u c
revoke_if-local now t u c h = rw h refl

module _ (B : BlobStore) (lower : String → String) (clock : ForgetClock) (request : ForgetRequest)
    (t : RetentionTables) where
  abbrev pub Revocations : Database × ℕ → Type 0
  Revocations d =
      revoke_claims clock.now request.reason clock.next_decision
        (keys_of claim_key (affected_claims request t)) t.database
      ≡ ok d

  pub forget-done :
      (objects : B.State) (job : RetentionJob) (f : Forgotten B lower clock request)
      → forget B lower clock request t objects ≡ ok (job, f)
      → (d : Database × ℕ) × (Revocations d
          × ((f ≡ reclaim_and_scan B lower clock request t objects d)
              × (job ≡ job_of B lower clock request f.manifest)))
  unfolding forget run_forget
  forget-done objects job f h =
      elim (Result-cases (
        revoke_claims clock.now request.reason clock.next_decision
          (keys_of claim_key (affected_claims request t)) t.database)) [
            | inr (e, threw) ↦ absurd (cc (rw (forget, run_forget, threw) at h))
            | inl (d, went) ↦
                let both = ok_injective (rw (forget, run_forget, went) at h) in
                (d, (went, (cc both, cc both)))
          ]

  pub scrub-events :
      IsUnique event_key t.events
      → (scrub B lower clock request t).events
        ≡ map (forget_event clock.now request t.database.scopes) t.events
  unfolding scrub affected_events
  scrub-events unique_ids =
      let p = λ (x : StoredEvent).
        selects_event request.tenant_id request.subject_or_scope t.database.scopes x.row in
      let ids = keys_of event_key (filter p t.events) in
      redact_events-map clock.now ids t.events
      ∙ map-keys event_key p (redact_if clock.now) t.events (redact_if-local clock.now) ids
          (keys-filter event_key p t.events unique_ids)

  revoked-claims :
      (d : Database × ℕ)
      → IsUnique claim_key t.database.claims
      → Revocations d
      → d.0.claims ≡ map (forget_claim clock.now request t.database.scopes) t.database.claims
  unfolding affected_claims
  revoked-claims d unique_ids went =
      let p = selects_claim request.tenant_id request.subject_or_scope t.database.scopes in
      let ids = keys_of claim_key (filter p t.database.claims) in
      revoke_claims-claims clock.now request.reason clock.next_decision ids t.database d went
      ∙ map-keys claim_key p (revoke_if clock.now) t.database.claims (revoke_if-local clock.now) ids
          (keys-filter claim_key p t.database.claims unique_ids)

  pub after-events :
      (objects : B.State) (d : Database × ℕ)
      → (reclaim_and_scan B lower clock request t objects d).tables.events
        ≡ (scrub B lower clock request t).events
  unfolding reclaim_and_scan
  after-events objects d = refl

  after-claims :
      (objects : B.State) (d : Database × ℕ)
      → (reclaim_and_scan B lower clock request t objects d).tables.database.claims ≡ d.0.claims
  unfolding reclaim_and_scan
  after-claims objects d = refl

  -- A forget operation that returns has cleared the content of every event that the request selects
  -- and revoked every claim that it selects and that was not revoked yet, and has left every other
  -- event and claim, of this tenant and of the others, as it was. `event_id` and `claim_id` are keys_of.
  pub forget-changes :
      (objects : B.State) (job : RetentionJob) (f : Forgotten B lower clock request)
      → IsUnique event_key t.events
      → IsUnique claim_key t.database.claims
      → forget B lower clock request t objects ≡ ok (job, f)
      → (f.tables.events ≡ map (forget_event clock.now request t.database.scopes) t.events)
        × (f.tables.database.claims
            ≡ map (forget_claim clock.now request t.database.scopes) t.database.claims)
  forget-changes objects job f one two h =
      let (d, (went, (value, whole))) = forget-done objects job f h in
      (
        rw value (after-events objects d ∙ scrub-events one),
        rw value (after-claims objects d ∙ revoked-claims d two went),
      )

  -- With decision identifiers that no row has yet, a forget operation returns exactly when each
  -- selected claim that is not revoked yet may go to revoked and keeps an interval that is not empty.
  pub forget-returns :
      (objects : B.State)
      → IsFresh clock.next_decision t.database.decisions
      → is_ok (forget B lower clock request t objects)
        ≡ all
            (λ c.
              if is_due (keys_of claim_key (affected_claims request t)) c
              then is_closable clock.now c
              else true)
            t.database.claims
  unfolding forget run_forget
  forget-returns objects fresh =
      let ids = keys_of claim_key (affected_claims request t) in
      let value =
        revoke_claims-ok clock.now request.reason clock.next_decision ids t.database fresh in
      elim (Result-cases
        (revoke_claims clock.now request.reason clock.next_decision ids t.database)) [
          | inr (e, threw) ↦ rw (forget, run_forget, threw) (rw threw at value)
          | inl (d, went) ↦ rw (forget, run_forget, went) (rw went at value)
        ]
