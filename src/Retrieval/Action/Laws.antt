-- ===== src/Retrieval/Action/Laws.antt =====
-- What the action gate lets through.
use verity_mem.Prelude.{
  ℕ, String, ◌*◌, ◌≤◌, ◌≡◌, ◌≢◌, refl, ◌↔◌, true, false, Option, some, List, [], ◌∷◌, any, All,
  All-map, arith, Option-cases, inl, inr, is_empty,
}
use verity_mem.Contracts.Vocabulary.{ActionRisk, UseDecision, usable}
use verity_mem.Contracts.Policy.{risk_to_max_evidence_age_days}
use verity_mem.Claims.Use.{evaluate_use, age_in_days}
use verity_mem.Claims.Use.Laws.{IsReliable, evaluate_use-eq-usable_iff}
use verity_mem.Store.{ClaimRow, Database}
use verity_mem.Ledger.Spans.{Bytes, LedgerEvent, SpanRow}
use verity_mem.Retrieval.Reads.{find_claim}
use verity_mem.Retrieval.Action.{
  ActionGateRequest, ActionGateVerdict, ClaimEntry, is_permitted, denial_codes, use_input,
  judge_claim, judge_claims, weakest_decision, decisions_of, evaluate_action,
}

not_denied :
    (risk : ActionRisk) (d : UseDecision) (age : ℕ)
    → is_empty (denial_codes risk d age) ≡ true
    → (is_permitted risk d ≡ true) × (age ≤ 100 * risk_to_max_evidence_age_days risk)
unfolding denial_codes
not_denied risk d age h = ground arith

denied_not :
    (risk : ActionRisk) (d : UseDecision) (age : ℕ)
    → is_permitted risk d ≡ true
    → age ≤ 100 * risk_to_max_evidence_age_days risk
    → is_empty (denial_codes risk d age) ≡ true
unfolding denial_codes
denied_not risk d age h k = ground arith

pub weakest_decision-ne-usable : (ds : List UseDecision) → weakest_decision ds ≢ usable
unfolding weakest_decision
weakest_decision-ne-usable ds h = ground arith

only_usable :
    (risk : ActionRisk) (d : UseDecision)
    → risk ≢ ActionRisk.low
    → is_permitted risk d ≡ true
    → d ≡ usable
only_usable risk d risky h = ground arith

module _ (sha256 : Bytes → ℕ) (events : List LedgerEvent) (spans : List SpanRow) (now : ℕ)
    (system visible : Database) (request : ActionGateRequest) where
  abbrev pub entry_of : ℕ → ClaimEntry
  entry_of id = (judge_claim sha256 events spans now system visible request id).0

  -- The claim is seen, its use decision is one the risk admits, and it is not too old for the risk.
  pub record IsCleared (id : ℕ) : Type 0 where
    pub claim : ClaimRow
    pub seen : find_claim visible.claims id ≡ some claim
    pub permitted :
        is_permitted request.action_risk
          (evaluate_use (use_input sha256 events spans now system visible request claim)).decision
        ≡ true
    pub recent :
        age_in_days claim.valid_from now ≤ 100 * risk_to_max_evidence_age_days request.action_risk

  closed :
      (id : ℕ) (claim : ClaimRow)
      → find_claim visible.claims id ≡ some claim
      → (entry_of id).blocking ≡ false
      → is_empty (
          denial_codes request.action_risk
            (evaluate_use (use_input sha256 events spans now system visible request claim)).decision
            (age_in_days claim.valid_from now))
        ≡ true
  unfolding judge_claim
  closed id claim seen h = ground (arith, rw (seen, entry_of) at h)

  open_entry : (id : ℕ) → (entry_of id).blocking ≡ false → IsCleared id
  unfolding judge_claim
  open_entry id h = elim (Option-cases (find_claim visible.claims id)) [
    | inl missing ↦ cc (rw (missing, entry_of) at h)
    | inr (claim, seen) ↦
        let open_gate =
          not_denied request.action_risk
            (evaluate_use (use_input sha256 events spans now system visible request claim)).decision
            (age_in_days claim.valid_from now) (closed id claim seen h) in
        record { claim = claim; seen = seen; permitted = open_gate.0; recent = open_gate.1 }
  ]

  entry_open : (id : ℕ) → IsCleared id → (entry_of id).blocking ≡ false
  unfolding judge_claim
  entry_open id c =
      let empty =
        denied_not request.action_risk
          (evaluate_use (use_input sha256 events spans now system visible request c.claim)).decision
          (age_in_days c.claim.valid_from now) c.permitted c.recent in
      rw (c.seen, entry_of) (ground arith)

  none_blocking :
      (ids : List ℕ)
      → any
          (λ (e : ClaimEntry). e.blocking)
          (judge_claims sha256 events spans now system visible request ids)
        ≡ false
      → All IsCleared ids
  unfolding judge_claims
  none_blocking [] h = tt
  none_blocking (id ∷ ids) h = (open_entry id (ground arith), none_blocking ids (ground arith))

  blocking_none :
      (ids : List ℕ)
      → All IsCleared ids
      → any
          (λ (e : ClaimEntry). e.blocking)
          (judge_claims sha256 events spans now system visible request ids)
        ≡ false
  unfolding judge_claims
  blocking_none [] c = refl
  blocking_none (id ∷ ids) c = ground (arith, entry_open id c.0, blocking_none ids c.1)

  cleared-IsReliable :
      (id : ℕ)
      → request.action_risk ≢ ActionRisk.low
      → (c : IsCleared id)
      → IsReliable (use_input sha256 events spans now system visible request c.claim)
  cleared-IsReliable id risky c =
      (evaluate_use-eq-usable_iff
          (use_input sha256 events spans now system visible request c.claim)).0
        (only_usable request.action_risk
          (evaluate_use (use_input sha256 events spans now system visible request c.claim)).decision
          risky c.permitted)

  module _ (policy_version : Option String) where
    abbrev pub action_verdict : ActionGateVerdict
    action_verdict = evaluate_action sha256 events spans now system visible policy_version request

    -- The action is allowed exactly when every claim it names is seen, has a use decision that the
    -- risk admits, and is within the age limit of the risk.
    pub evaluate_action-allowed_iff :
        (action_verdict.allowed ≡ true) ↔ All IsCleared request.claim_ids
    unfolding evaluate_action
    evaluate_action-allowed_iff = (
      λ h. none_blocking request.claim_ids (ground arith),
      λ c. ground (arith, blocking_none request.claim_ids c),
    )

    -- The verdict reads `use` exactly when the action is allowed.
    pub evaluate_action-decision_iff :
        (action_verdict.decision ≡ usable) ↔ (action_verdict.allowed ≡ true)
    unfolding evaluate_action
    evaluate_action-decision_iff =
        let weak = weakest_decision-ne-usable (
          decisions_of
            (judge_claims sha256 events spans now system visible request request.claim_ids)) in
        (λ h. ground (arith, weak), λ c. ground arith)

    -- At medium or high risk an allowed action rests on reliable claims only: each is seen and its
    -- use input satisfies every condition of the use policy.
    pub evaluate_action-consequential :
        request.action_risk ≢ ActionRisk.low
        → action_verdict.allowed ≡ true
        → All
            (λ id.
              (claim : ClaimRow) × (find_claim visible.claims id ≡ some claim)
              × IsReliable (use_input sha256 events spans now system visible request claim))
            request.claim_ids
    evaluate_action-consequential risky h =
        All-map IsCleared _ (λ id c. (c.claim, c.seen, cleared-IsReliable id risky c))
          request.claim_ids (evaluate_action-allowed_iff.0 h)
