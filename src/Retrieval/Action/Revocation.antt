-- ===== src/Retrieval/Action/Revocation.antt =====
-- A withdrawal between the query and the action changes the answer of the action gate.
use verity_mem.Prelude.{
  ℕ, String, ◌≡◌, ◌≢◌, sym, ap, ◌∙◌, true, false, Option, some, List, [], ◌∷◌, All, All₂, contains,
  nat_eq, arith, find-true, find-All, =?_iff, Bool-cases, subst, inl, inr, ◌=?◌,
}
use verity_mem.Contracts.Vocabulary.{ClaimStatus, ActionRisk, UseDecision, deny}
use verity_mem.Claims.Use.{evaluate_use}
use verity_mem.Claims.Use.Laws.{evaluate_use-eq-deny_iff, IsDeniable}
use verity_mem.Claims.Lifecycle.{StatusChange, DecisionContext, apply_status}
use verity_mem.Claims.Lifecycle.Laws.{Changed, apply_status-Changed}
use verity_mem.Store.{ClaimRow, Database, ok}
use verity_mem.Ledger.Spans.{Bytes, LedgerEvent, SpanRow}
use verity_mem.Retrieval.Reads.{find_claim}
use verity_mem.Retrieval.Action.{ActionGateRequest, is_permitted, use_input, evaluate_action}
use verity_mem.Retrieval.Action.Laws.{IsCleared, evaluate_action-allowed_iff}

abbrev HasStatus : StatusChange → ClaimRow → Type 0
HasStatus change row = row.claim_id ≡ change.claim_id → row.status ≡ change.status

Changed-HasStatus :
    (at : ℕ) (change : StatusChange) (rows rows' : List ClaimRow)
    → All₂ (Changed at change) rows rows'
    → All (HasStatus change) rows'
Changed-HasStatus at change [] [] h = tt
Changed-HasStatus at change [] (b ∷ rows') h = absurd h
Changed-HasStatus at change (a ∷ rows) [] h = absurd h
Changed-HasStatus at change (a ∷ rows) (b ∷ rows') h =
    (row_status h.0, Changed-HasStatus at change rows rows' h.1)
  where
    row_status : Changed at change a b → HasStatus change b
    row_status (inl k) same = absurd (k.0 (sym (ap (λ (r : ClaimRow). r.claim_id) k.1) ∙ same))
    row_status (inr k) same = ap (λ (r : ClaimRow). r.status) k.2

found_status :
    (at : ℕ) (db db' : Database) (change : StatusChange) (context : DecisionContext)
    (claim : ClaimRow)
    → apply_status at db change context ≡ ok db'
    → find_claim db'.claims change.claim_id ≡ some claim
    → claim.status ≡ change.status
found_status at db db' change context claim h seen =
    find-All (HasStatus change) (λ (c : ClaimRow). c.claim_id =? change.claim_id) db'.claims
      (Changed-HasStatus at change db.claims db'.claims
        (apply_status-Changed at db db' change context h))
      seen (ground (arith, find-true _ db'.claims seen))

denied_permitted : (risk : ActionRisk) (d : UseDecision) → d ≡ deny → is_permitted risk d ≡ false
denied_permitted risk d e = ground arith

withdrawn-IsDeniable :
    (sha256 : Bytes → ℕ) (events : List LedgerEvent) (spans : List SpanRow) (now : ℕ)
    (system visible : Database) (request : ActionGateRequest) (claim : ClaimRow)
    → claim.status ≢ ClaimStatus.accepted
    → claim.status ≢ ClaimStatus.disputed
    → IsDeniable (use_input sha256 events spans now system visible request claim)
unfolding use_input
withdrawn-IsDeniable sha256 events spans now system visible request claim a d = inl (a, d)

All-contains : (P : ℕ → Type 0) (ids : List ℕ) (id : ℕ) → All P ids → contains ids id ≡ true → P id
All-contains P [] id h on = absurd (cc on)
All-contains P (x ∷ ids) id h on = elim (Bool-cases (x =? id)) [
  | inl same ↦ let e : x ≡ id = (=?_iff x id).0 same in subst P e h.0
  | inr off ↦ All-contains P ids id h.1 (rw off at on)
]

-- Once `applyStatus` has moved a claim to a status that is neither accepted nor disputed, an action
-- that names the claim is refused at every risk, whatever the events, the spans, the time and the
-- rest of the request are.
pub apply_status-blocks :
    (at : ℕ) (db db' : Database) (change : StatusChange) (context : DecisionContext)
    → (change.status ≢ ClaimStatus.accepted) × (change.status ≢ ClaimStatus.disputed)
    → apply_status at db change context ≡ ok db'
    → (sha256 : Bytes → ℕ) (events : List LedgerEvent) (spans : List SpanRow) (now : ℕ)
      (system : Database) (policy_version : Option String) (request : ActionGateRequest)
    → contains request.claim_ids change.claim_id ≡ true
    → (evaluate_action sha256 events spans now system db' policy_version request).allowed ≡ false
apply_status-blocks at db db' change context gone h sha256 events spans now system v request named =
    elim (Bool-cases (evaluate_action sha256 events spans now system db' v request).allowed) [
      | inr off ↦ off
      | inl on ↦
          let cleared =
            (evaluate_action-allowed_iff sha256 events spans now system db' request v).0 on in
          let c =
            All-contains (IsCleared sha256 events spans now system db' request) request.claim_ids
              change.claim_id cleared named in
          let status = found_status at db db' change context c.claim h c.seen in
          let input = use_input sha256 events spans now system db' request c.claim in
          let denied = (evaluate_use-eq-deny_iff input).1 (
            withdrawn-IsDeniable sha256 events spans now system db' request c.claim
              (λ e. gone.0 (sym status ∙ e)) (λ e. gone.1 (sym status ∙ e))) in
          let refused = denied_permitted request.action_risk (evaluate_use input).decision denied in
          absurd (cc (refused, c.permitted))
    ]
