-- ===== src/Gate/Evaluate/Writes.antt =====
-- The rows that a successful `evaluate` has written: the statements it ran, in one record.
use verity_mem.Prelude.{
  ◌≡◌, sym, ap, subst, ◌∙◌, String, Bool, true, false, List, ◌∷◌, arith, Bool-cases, inl, inr,
  if◌then◌else◌,
}
use mathlib.Core.Path.{subst₂}
use verity_mem.Store.{ScopeRow, ClaimRow, Database, ok, Result-cases, ok_injective}
use verity_mem.Contracts.Vocabulary.{DecisionOutcome}
use verity_mem.Claims.Lifecycle.{insert_decision_row}
use verity_mem.Gate.Conflict.{ConflictHit}
use verity_mem.Gate.Evidence.{CandidateForGate, GateEvidenceVerdict}
use verity_mem.Gate.Persist.{insert_claim, insert_decision, supersede}
use verity_mem.Gate.Evaluate.{
  GateDependencies, GateResult, read_scope, holds_belief, writes_claim, conflicts_of, facts_of,
  result_of, row_for, decision_for, write_claim, record_decision, persist, evaluate,
}

-- The claim table after `insertClaim`.
abbrev pub ClaimsAfter : Database → List ConflictHit → ClaimRow → Bool → List ClaimRow → Type 0
ClaimsAfter db conflicts row believed rows =
    (if believed
      then supersede db.decisions row.claim_id row.valid_from conflicts (row ∷ db.claims)
      else ok (row ∷ db.claims))
    ≡ ok rows

pub insert_claim-rows :
    (db db' : Database) (c : CandidateForGate) (conflicts : List ConflictHit) (row : ClaimRow)
    (believed : Bool)
    → insert_claim db c conflicts row believed ≡ ok db'
    → ClaimsAfter db conflicts row believed db'.claims
unfolding insert_claim
insert_claim-rows db db' c conflicts row false h = ground arith
insert_claim-rows db db' c conflicts row true h =
    elim (Result-cases
      (supersede db.decisions row.claim_id row.valid_from conflicts (row ∷ db.claims))) [
        | inr (e, bad) ↦ ground arith
        | inl (rows, fine) ↦ ground arith
      ]

pub insert_claim-decisions :
    (db db' : Database) (c : CandidateForGate) (conflicts : List ConflictHit) (row : ClaimRow)
    (believed : Bool)
    → insert_claim db c conflicts row believed ≡ ok db'
    → db'.decisions ≡ db.decisions
unfolding insert_claim
insert_claim-decisions db db' c conflicts row false h = ground arith
insert_claim-decisions db db' c conflicts row true h =
    elim (Result-cases
      (supersede db.decisions row.claim_id row.valid_from conflicts (row ∷ db.claims))) [
        | inr (e, bad) ↦ ground arith
        | inl (rows, fine) ↦ ground arith
      ]

module _ (deps : GateDependencies) (db db' : Database) (c : CandidateForGate) (r : GateResult) where
  -- `evaluate` has read both scopes, decided by its facts, and persisted that outcome.
  pub record Evaluates : Type 0 where
    pub requested : ScopeRow
    pub event : ScopeRow
    pub requested_read : read_scope db c.requested_scope_id ≡ ok requested
    pub event_read : read_scope db c.event_scope_id ≡ ok event
    pub result : r ≡ result_of deps c (facts_of deps db c requested event)
    pub written :
        persist deps db c r.outcome r.reason_codes (conflicts_of deps db c) r.evidence ≡ ok db'

  persisted :
      (requested event : ScopeRow)
      → read_scope db c.requested_scope_id ≡ ok requested
      → read_scope db c.event_scope_id ≡ ok event
      → evaluate deps db c ≡ ok (db', r)
      → Evaluates
  unfolding evaluate
  persisted requested event requested_read event_read h =
      let r' : GateResult = result_of deps c (facts_of deps db c requested event) in
      elim (Result-cases
        (persist deps db c r'.outcome r'.reason_codes (conflicts_of deps db c) r'.evidence)) [
          | inr (e, bad) ↦ cc (rw (requested_read, event_read, bad) at h)
          | inl (db'', fine) ↦
              let both : ok (db'', r') ≡ ok (db', r) = rw (requested_read, event_read, fine) at h in
              let pair : (db'', r') ≡ (db', r) = ok_injective both in
              record {
                requested = requested;
                event = event;
                requested_read = requested_read;
                event_read = event_read;
                result = sym (ap (λ (p : Database × GateResult). p.1) pair);
                written =
                    subst₂
                      (λ (x : Database) (y : GateResult).
                        persist deps db c y.outcome y.reason_codes (conflicts_of deps db c)
                          y.evidence
                        ≡ ok x)
                      (ap (λ (p : Database × GateResult). p.0) pair)
                      (ap (λ (p : Database × GateResult). p.1) pair) fine;
              }
        ]

  pub evaluate-Evaluates : evaluate deps db c ≡ ok (db', r) → Evaluates
  unfolding evaluate
  evaluate-Evaluates h = elim (Result-cases (read_scope db c.requested_scope_id)) [
    | inr (e, bad) ↦ cc (rw (bad, evaluate) at h)
    | inl (requested, requested_read) ↦ elim (Result-cases (read_scope db c.event_scope_id)) [
      | inr (e, bad) ↦ cc (rw (requested_read, bad, evaluate) at h)
      | inl (event, event_read) ↦ persisted requested event requested_read event_read h
    ]
  ]

module _ (deps : GateDependencies) (db db' : Database) (c : CandidateForGate)
    (outcome : DecisionOutcome) (codes : List String) (conflicts : List ConflictHit)
    (evidence : List GateEvidenceVerdict) where
  -- Both tables after `persist`.
  pub record Persists : Type 0 where
    pub decided : db'.decisions ≡ decision_for deps c outcome codes evidence ∷ db.decisions
    pub believed :
        writes_claim outcome ≡ true
        → ClaimsAfter db conflicts (row_for deps c outcome) (holds_belief outcome) db'.claims
    pub unwritten : writes_claim outcome ≡ false → db'.claims ≡ db.claims

  decided_last :
      (mid : Database)
      → record_decision deps mid c outcome codes evidence ≡ ok db'
      → (db'.decisions ≡ decision_for deps c outcome codes evidence ∷ mid.decisions)
        × (db'.claims ≡ mid.claims)
  unfolding record_decision insert_decision insert_decision_row
  decided_last mid h = ground arith

  written_first :
      (mid : Database)
      → write_claim deps db c outcome conflicts ≡ ok mid
      → writes_claim outcome ≡ true
      → insert_claim db c conflicts (row_for deps c outcome) (holds_belief outcome) ≡ ok mid
  unfolding write_claim
  written_first mid h on = rw on at h

  unwritten_first :
      (mid : Database)
      → write_claim deps db c outcome conflicts ≡ ok mid
      → writes_claim outcome ≡ false
      → mid ≡ db
  unfolding write_claim
  unwritten_first mid h off = sym (ok_injective (rw off at h))

  decisions_first :
      (mid : Database)
      → write_claim deps db c outcome conflicts ≡ ok mid
      → mid.decisions ≡ db.decisions
  decisions_first mid h = elim (Bool-cases (writes_claim outcome)) [
    | inl on ↦
        insert_claim-decisions db mid c conflicts (row_for deps c outcome) (holds_belief outcome)
          (written_first mid h on)
    | inr off ↦ ap (λ (d : Database). d.decisions) (unwritten_first mid h off)
  ]

  pub persist-Persists : persist deps db c outcome codes conflicts evidence ≡ ok db' → Persists
  unfolding persist
  persist-Persists h = elim (Result-cases (write_claim deps db c outcome conflicts)) [
    | inr (e, bad) ↦ cc (rw bad at h)
    | inl (mid, fine) ↦
        let (d, e) = decided_last mid (rw fine at h) in
        record {
          decided =
              d
              ∙ ap (λ ds. decision_for deps c outcome codes evidence ∷ ds)
                  (decisions_first mid fine);
          believed = λ on.
              subst (ClaimsAfter db conflicts (row_for deps c outcome) (holds_belief outcome))
                (sym e)
                (insert_claim-rows db mid c conflicts (row_for deps c outcome)
                  (holds_belief outcome) (written_first mid fine on));
          unwritten = λ off. e ∙ ap (λ (x : Database). x.claims) (unwritten_first mid fine off);
        }
  ]
