-- ===== src/Claims/Use/Laws.antt =====
-- What the use policy promises: when it says `use`, when it denies, and that risk only tightens it.
use verity_mem.Prelude.{
  ℕ, ◌*◌, ◌≤◌, ◌<◌, ◌≡◌, ◌≢◌, ◌↔◌, ◌⊎◌, true, false, Option, none, some, arith, is_empty,
}
use verity_mem.Contracts.Vocabulary.{
  ClaimStatus, AuthorityClass, ActionRisk, UseDecision, usable, verify, clarify, deny,
}
use verity_mem.Contracts.Policy.{staleness_horizon_for}
use verity_mem.Claims.Use.{UseEvaluationInput, is_weak, evaluate_use}

-- Expiry, as a statement.
abbrev pub NotExpired : Option ℕ → ℕ → Type 0
NotExpired none now = Unit
NotExpired (some t) now = now < t

-- The evidence and the state that any verdict but `deny` needs.
pub record IsCitable (input : UseEvaluationInput) : Type 0 where
  pub grounded : (input.span_count ≢ 0) × (input.digest_ok ≡ true)
  pub live : NotExpired input.expires_at input.now
  pub purpose : input.query_purpose_matches ≡ true

-- What the policy means by a claim that is both well evidenced and current.
pub record IsReliable (input : UseEvaluationInput) : Type 0 where
  pub believed : input.status ≡ ClaimStatus.accepted
  pub citable : IsCitable input
  pub undisputed : input.has_conflicts ≡ false
  pub strong : is_weak input.authority ≡ false
  pub fresh : input.age_days ≤ 100 * staleness_horizon_for input.kind
  pub verified :
      (input.action_risk ≢ ActionRisk.high) ⊎ (input.authority ≡ AuthorityClass.verified_record)

usable-IsReliable :
    (input : UseEvaluationInput) → (evaluate_use input).decision ≡ usable → IsReliable input
unfolding evaluate_use
usable-IsReliable input h = ground arith

reliable_usable :
    (input : UseEvaluationInput) → IsReliable input → (evaluate_use input).decision ≡ usable
unfolding evaluate_use
reliable_usable input r = ground arith

-- `use` is said exactly of a claim that is accepted, resolvable, digest-checked, unexpired, asked
-- for its purpose, without conflict, of strong authority, within the horizon of its kind and, at
-- high risk, a verified record.
pub evaluate_use-eq-usable_iff :
    (input : UseEvaluationInput) → ((evaluate_use input).decision ≡ usable) ↔ IsReliable input
evaluate_use-eq-usable_iff input = (usable-IsReliable input, reliable_usable input)

abbrev pub HasExpired : Option ℕ → ℕ → Type 0
HasExpired none now = ⊥
HasExpired (some t) now = t ≤ now

abbrev pub IsUncitable : UseEvaluationInput → Type 0
IsUncitable input =
    (input.span_count ≡ 0)
    ⊎ (input.digest_ok ≡ false)
    ⊎ HasExpired input.expires_at input.now
    ⊎ (input.query_purpose_matches ≡ false)

-- Why the policy denies: the claim is not believed or disputed, or it cannot be cited, or the
-- action is of high risk and the claim is contested, weak or stale.
abbrev pub IsDeniable : UseEvaluationInput → Type 0
IsDeniable input =
    ((input.status ≢ ClaimStatus.accepted) × (input.status ≢ ClaimStatus.disputed))
    ⊎ IsUncitable input
    ⊎ (input.action_risk ≡ ActionRisk.high)
      × ((input.status ≡ ClaimStatus.disputed)
          ⊎ (input.has_conflicts ≡ true)
          ⊎ (is_weak input.authority ≡ true)
          ⊎ (100 * staleness_horizon_for input.kind < input.age_days))

abbrev pub severity : UseDecision → ℕ
severity usable = 0
severity verify = 1
severity clarify = 2
severity deny = 3

abbrev pub risk_rank : ActionRisk → ℕ
risk_rank ActionRisk.low = 0
risk_rank ActionRisk.medium = 1
risk_rank ActionRisk.high = 2

-- A higher action risk never makes the verdict on the same claim milder.
pub evaluate_use-mono_risk :
    (input : UseEvaluationInput) (r s : ActionRisk)
    → risk_rank r ≤ risk_rank s
    → severity (evaluate_use (record input { action_risk = r })).decision
      ≤ severity (evaluate_use (record input { action_risk = s })).decision
unfolding evaluate_use
evaluate_use-mono_risk input r s h = ground arith

deny-IsDeniable :
    (input : UseEvaluationInput) → (evaluate_use input).decision ≡ deny → IsDeniable input
unfolding evaluate_use
deny-IsDeniable input h = ground arith

deniable_deny :
    (input : UseEvaluationInput) → IsDeniable input → (evaluate_use input).decision ≡ deny
unfolding evaluate_use
deniable_deny input d = ground arith

-- The policy denies exactly a claim that is neither accepted nor disputed, or that has no span, a
-- failed digest, an expiry that has passed or another purpose, or that is disputed, in conflict, weak
-- or stale at high risk.
pub evaluate_use-eq-deny_iff :
    (input : UseEvaluationInput) → ((evaluate_use input).decision ≡ deny) ↔ IsDeniable input
evaluate_use-eq-deny_iff input = (deny-IsDeniable input, deniable_deny input)

-- Every verdict is explained: it carries at least one reason code.
pub evaluate_use-explained :
    (input : UseEvaluationInput) → is_empty (evaluate_use input).reason_codes ≡ false
unfolding evaluate_use
evaluate_use-explained input = ground arith
