-- ===== src/Gate/Evaluate/Belief.antt =====
-- What stands behind a claim that an evaluation has made accepted.
use verity_mem.Prelude.{◌≡◌, refl, sym, ap, ◌∙◌, ◌⊎◌, inl, inr, true, some, List, ◌∷◌, arith}
use verity_mem.Contracts.Vocabulary.{ClaimStatus, DecisionOutcome, accept, accept_limited_scope}
use verity_mem.Store.{ScopeRow, ClaimRow, Database, ok}
use verity_mem.Gate.Scope.Laws.{IsWithin, IsWithin-refl, scope_containment-contained_iff}
use verity_mem.Gate.Decide.{decide_outcome, establish}
use verity_mem.Gate.Evidence.{CandidateForGate}
use verity_mem.Gate.Evaluate.{
  GateDependencies, GateResult, holds_belief, accepted_scope, read_scope, facts_of, row_for,
  claim_for, evaluate,
}
use verity_mem.Gate.Evaluate.Outcome.{decide_outcome-eq-accept_iff, decide_outcome-eq-limited_iff}
use verity_mem.Gate.Evaluate.Writes.{evaluate-Evaluates}
use verity_mem.Gate.Evaluate.Promotion.{evaluate-frame}
use verity_mem.Gate.Evaluate.Grounds.{IsWellGrounded, supported-IsWellGrounded}

belief_cases :
    (o : DecisionOutcome) → holds_belief o ≡ true → (o ≡ accept) ⊎ (o ≡ accept_limited_scope)
belief_cases o h = ground arith

module _ (deps : GateDependencies) (db db' : Database) (c : CandidateForGate) (r : GateResult) where
  -- The scope that an outcome gives the claim is the event's, or keeps within it.
  abbrev IsPlaced : ScopeRow → DecisionOutcome → Type 0
  IsPlaced event o =
      (scope : ScopeRow) × (read_scope db (accepted_scope c o) ≡ ok scope) × IsWithin scope event

  -- The newest row of the claims is the candidate's statement, accepted, in a scope that keeps within
  -- the scope of the event; and the candidate has grounds for it.
  pub record IsGrounded : Type 0 where
    pub row : ClaimRow
    pub earlier : List ClaimRow
    pub written : db'.claims ≡ row ∷ earlier
    pub named : r.claim_id ≡ some row.claim_id
    pub accepted : row.status ≡ ClaimStatus.accepted
    pub subject : row.subject ≡ c.subject
    pub predicate : row.predicate ≡ c.predicate
    pub object : row.object ≡ c.object
    pub authority : row.authority ≡ c.authority
    pub event : ScopeRow
    pub scope : ScopeRow
    pub event_read : read_scope db c.event_scope_id ≡ ok event
    pub scope_read : read_scope db row.scope_id ≡ ok scope
    pub within : IsWithin scope event
    pub grounds : IsWellGrounded deps db c

  module _ (requested event : ScopeRow)
      (requested_read : read_scope db c.requested_scope_id ≡ ok requested)
      (event_read : read_scope db c.event_scope_id ≡ ok event) where
    decided_grounds :
        (o : DecisionOutcome)
        → decide_outcome (facts_of deps db c requested event) ≡ o
        → (o ≡ accept) ⊎ (o ≡ accept_limited_scope)
        → IsWellGrounded deps db c × IsPlaced event o
    unfolding establish
    decided_grounds o decided (inl e) =
        let k =
          (decide_outcome-eq-accept_iff (facts_of deps db c requested event)).0 (decided ∙ e) in
        (
          supported-IsWellGrounded deps db c requested event k.0 k.1,
          (
            requested,
            ap (λ x. read_scope db (accepted_scope c x)) e ∙ requested_read,
            (scope_containment-contained_iff requested event).0 k.2,
          ),
        )
    decided_grounds o decided (inr e) =
        let k =
          (decide_outcome-eq-limited_iff (facts_of deps db c requested event)).0 (decided ∙ e) in
        (
          supported-IsWellGrounded deps db c requested event k.0 k.1,
          (event, ap (λ x. read_scope db (accepted_scope c x)) e ∙ event_read, IsWithin-refl event),
        )

  -- When a successful evaluation accepts the candidate, in full or at a limited scope, the newest row
  -- of the claims is named by the result and states the candidate's subject, predicate, object and
  -- authority with status accepted; the scope that this row carries is stored and keeps within the
  -- stored scope of the event, in every dimension and in its purposes. Some cited span supports the
  -- candidate, and every one that does verifies against the events; the quotes entail the statement
  -- with a score of at least the policy's floor; the authority is one of those that the policy
  -- accepts; none of the conflicts found is a contradiction; and neither the kind, the sensitivity,
  -- nor instruction-like content of an external origin holds the candidate back.
  pub evaluate-IsGrounded :
      evaluate deps db c ≡ ok (db', r) → holds_belief r.outcome ≡ true → IsGrounded
  evaluate-IsGrounded h believed =
      let e = evaluate-Evaluates deps db db' c r h in
      let decided = sym (ap (λ (x : GateResult). x.outcome) e.result) in
      let (grounds, (scope, scope_read, within)) =
        decided_grounds e.requested e.event e.requested_read e.event_read r.outcome decided
          (belief_cases r.outcome believed) in
      elim (evaluate-frame deps db db' c r h).1 [
        | inl (off, kept) ↦ absurd (ground (arith, off, believed))
        | inr (on, new) ↦ record {
          row = row_for deps c r.outcome;
          earlier = new.0;
          written = new.1;
          named =
              ap (λ (x : GateResult). x.claim_id) e.result
              ∙ ap (claim_for deps c) decided
              ∙ rw (claim_for, on) refl;
          accepted = rw believed refl;
          subject = refl;
          predicate = refl;
          object = refl;
          authority = refl;
          event = e.event;
          scope = scope;
          event_read = e.event_read;
          scope_read = scope_read;
          within = within;
          grounds = grounds;
        }
      ]
