-- ===== src/Tests/ForgetRuns.antt =====
-- A forget operation on a small tenant, and corrections of its claim.
use verity_mem.Prelude.{
  ℕ, ◌≡◌, refl, true, false, not, ◌&&◌, String, none, some, List, [], ◌∷◌, map, any, all, All,
  keys_of, contains, nat_eq, if◌then◌else◌, ◌=?◌, arith,
}
use verity_mem.Contracts.Vocabulary.{OriginKind, Sensitivity}
use verity_mem.Store.{ClaimRow, DecisionRow, Database, ok}
use verity_mem.Ledger.Chain.{EventRow, verify_chain}
use verity_mem.Retention.{
  selects_event, Selector, ForgetRequest, RetentionTables, affected_claims, claim_key,
}
use verity_mem.Retention.Blobs.{reclaim_blobs}
use verity_mem.Retention.Blobs.Memory.{
  Blob, memory_store, memory_store-IsLawful, delete_blob, sweep_blobs,
}
use verity_mem.Retention.Scrub.Laws.{rows_of}
use verity_mem.Retention.Revoke.{revoke_claims}
use verity_mem.Retention.Revoke.Laws.{is_due}
use verity_mem.Retention.Revoke.Total.{is_ok, is_closable}
use verity_mem.Retention.Scan.{total_matches, scan_stores}
use verity_mem.Retention.Scrub.{redact_events, deindexed_claims, clear_traces}
use verity_mem.Retention.Scan.Laws.{IsForgotten}
use verity_mem.Retention.Forget.{
  ForgetClock, RetentionJob, verified, Forgotten, reclaim_and_scan, scrub, job_of, forget,
}
use verity_mem.Retention.Forget.Laws.{forget_event, forget_claim, forget-changes, forget-returns}
use verity_mem.Retention.Forget.Verified.{
  of_subject, holds_ref, is_tenant_content, forget-IsForgotten, forget-keeps_shared,
  forget-verify_chain, forget-subject_clears_tenant,
}
use verity_mem.Retention.Correct.{
  Correction, CorrectionRel, is_refused, correct_claim, correct_claim-ok,
}
use verity_mem.Store.Triggers.{update_error, valid_claim_transition, is_decided, decisive_outcome}
use verity_mem.Store.Update.{update_claims}
use verity_mem.Tests.World.{home, stored, cited_row, value_or}

abbrev mine : EventRow
mine = record {
  event_id = 1;
  stream_id = "chat";
  seq = 1;
  tenant_id = 1;
  scope_id = 1;
  origin = OriginKind.user;
  actor_id = "alice";
  occurred_at = 500;
  recorded_at = 600;
  payload = none;
  payload_ref = some 4;
  content_hash = 4;
  prev_hash = none;
  link_hash = none;
  chained = false;
  sensitivity = Sensitivity.normal;
  idempotency_key = none;
  media_type = "text/plain";
  byte_length = 4;
}

-- Another actor's event with the same bytes.
abbrev shared : EventRow
shared = record mine { event_id = 2; seq = 2; actor_id = "bob" }

abbrev tables : RetentionTables
tables = record {
  database = stored;
  events =
      record { row = mine; redacted_at = none } ∷ record { row = shared; redacted_at = none } ∷ [];
  evidence_spans = cited_row ∷ [];
  claim_embeddings =
      record { claim_id = 1; tenant_id = 1; embedding = 3 ∷ []; model_id = "m" } ∷ [];
  entity_aliases = [];
  claim_entities = [];
  query_traces = [];
}

abbrev clock : ForgetClock
clock = record { started_at = 900; completed_at = 902; now = 901; job_id = 1; next_decision = 5 }

abbrev anyone : Selector
anyone = record {
  project = none;
  user = none;
  agent = none;
  session = none;
  actor_id = none;
  subject = none;
}

abbrev request_of : Selector → ForgetRequest
request_of selector = record {
  tenant_id = 1;
  subject_or_scope = selector;
  mode = none;
  reason = "asked";
}

abbrev of_alice : ForgetRequest
of_alice = request_of (record anyone { actor_id = some "alice" })

abbrev of_user : ForgetRequest
of_user = request_of (record anyone { user = some "alice" })

abbrev of_other : ForgetRequest
of_other = request_of (of_subject "user:carol")

abbrev objects : List Blob
objects = record { digest = 4; bytes = 1 ∷ [] } ∷ []

abbrev lower : String → String
lower s = s

abbrev revoked_in : ForgetRequest → Database × ℕ
revoked_in request =
    value_or
      (revoke_claims clock.now request.reason clock.next_decision
        (keys_of claim_key (affected_claims request tables)) tables.database)
      (tables.database, 0)

abbrev after : (request : ForgetRequest) → Forgotten memory_store lower clock request
after request =
    reclaim_and_scan memory_store lower clock request tables objects (revoked_in request)

abbrev job : ForgetRequest → RetentionJob
job request = job_of memory_store lower clock request (after request).manifest

alice_forgotten :
    forget memory_store lower clock of_alice tables objects ≡ ok (job of_alice, after of_alice)
unfolding forget reclaim_and_scan revoke_claims affected_claims update_claims update_error
    valid_claim_transition is_decided decisive_outcome
alice_forgotten = refl

user_forgotten :
    forget memory_store lower clock of_user tables objects ≡ ok (job of_user, after of_user)
unfolding forget reclaim_and_scan revoke_claims affected_claims update_claims update_error
    valid_claim_transition is_decided decisive_outcome
user_forgotten = refl

other_forgotten :
    forget memory_store lower clock of_other tables objects ≡ ok (job of_other, after of_other)
unfolding forget reclaim_and_scan revoke_claims affected_claims update_claims update_error
    valid_claim_transition is_decided decisive_outcome
other_forgotten = refl

-- Forgetting a user is verified here: both events are in the user's scope.
user_verified : (job of_user).status ≡ verified
unfolding forget reclaim_and_scan revoke_claims affected_claims update_claims update_error
    valid_claim_transition is_decided decisive_outcome total_matches scan_stores scrub redact_events
    deindexed_claims reclaim_blobs delete_blob sweep_blobs clear_traces
user_verified = refl

forget-changes_example :
    ((after of_alice).tables.events ≡ map (forget_event 901 of_alice (home ∷ [])) tables.events)
    × ((after of_alice).tables.database.claims
        ≡ map (forget_claim 901 of_alice (home ∷ [])) stored.claims)
forget-changes_example =
    forget-changes memory_store lower clock of_alice tables objects (job of_alice) (after of_alice)
      (refl, (refl, tt)) (refl, tt) alice_forgotten

forget-returns_example :
    is_ok (forget memory_store lower clock of_alice tables objects)
    ≡ all
        (λ c.
          if is_due (keys_of claim_key (affected_claims of_alice tables)) c
          then is_closable 901 c
          else true)
        stored.claims
forget-returns_example =
    forget-returns memory_store lower clock of_alice tables objects (omega arith, tt)

forget-IsForgotten_example :
    IsForgotten 1 (record anyone { user = some "alice" }) (after of_user).tables
forget-IsForgotten_example =
    forget-IsForgotten memory_store lower clock of_user tables objects (job of_user) (after of_user)
      user_forgotten user_verified

-- Bob's event names the bytes that Alice's event named.
shared_held : any (holds_ref of_alice (home ∷ []) 4) tables.events ≡ true
unfolding selects_event
shared_held = refl

forget-keeps_shared_example :
    contains (sweep_blobs (after of_alice).objects) 4 ≡ contains (sweep_blobs objects) 4
forget-keeps_shared_example =
    forget-keeps_shared memory_store lower clock of_alice tables objects (job of_alice)
      (after of_alice) alice_forgotten 4 memory_store-IsLawful (refl, (refl, tt)) shared_held

forget-verify_chain_example :
    verify_chain (λ f. f.seq) 1 "chat" none none (rows_of (after of_alice).tables.events)
    ≡ verify_chain (λ f. f.seq) 1 "chat" none none (mine ∷ shared ∷ [])
forget-verify_chain_example =
    forget-verify_chain memory_store lower clock of_alice tables objects (job of_alice)
      (after of_alice) alice_forgotten (λ f. f.seq) 1 "chat" none none

forget-subject_clears_tenant_example :
    All (λ e. is_tenant_content 1 (home ∷ []) e ≡ false) (after of_other).tables.events
forget-subject_clears_tenant_example =
    forget-subject_clears_tenant memory_store lower clock of_other "user:carol" tables objects
      (job of_other) (after of_other) refl (refl, (refl, tt)) (refl, tt) other_forgotten

abbrev contradiction : Correction
contradiction = record {
  tenant_id = 1;
  principal = "alice";
  claim_id = 1;
  rel = CorrectionRel.contradicts;
  new_valid_to = none;
  reason_codes = [];
}

correct_claim-ok_example : is_ok (correct_claim 901 5 contradiction stored ([], [])) ≡ (
    not (any (is_refused 901 contradiction stored.decisions) stored.claims)
    && (any (λ (c : ClaimRow). c.claim_id =? 1) stored.claims
        && not (any (λ (d : DecisionRow). d.decision_id =? 5) stored.decisions)))
correct_claim-ok_example = correct_claim-ok 901 5 contradiction stored ([], [])

-- A claim that was accepted without a review cannot be corrected as contradicted.
contradiction_fails : is_ok (correct_claim 901 5 contradiction stored ([], [])) ≡ false
unfolding correct_claim update_claims update_error valid_claim_transition is_decided
    decisive_outcome
contradiction_fails = refl
