-- ===== src/Gate/Evaluate/Outcome.antt =====
-- The contract in the header of packages/gate/src/commit-gate.ts, against `decide_outcome`.
use verity_mem.Prelude.{◌≡◌, ◌≢◌, ◌↔◌, ◌⊎◌, true, false, arith}
use verity_mem.Contracts.Vocabulary.{
  accept, accept_limited_scope, quarantine, reject, entailed, contradiction,
}
use verity_mem.Gate.Decide.{Facts, decide_outcome}

-- Every supporting span resolves, the support entails the claim above the floor, the authority is
-- strong, and no accepted claim is contradicted.
pub record IsSupported (f : Facts) : Type 0 where
  pub cited : f.supporting ≢ 0
  pub resolved : f.usable ≡ f.supporting
  pub entails : f.aggregate ≡ entailed
  pub above_floor : f.floor_missed ≡ false
  pub strong : f.authority_strong ≡ true
  pub consistent : f.contradicting ≡ 0

-- The conditions of quarantine.
abbrev pub IsHeld : Facts → Type 0
IsHeld f =
    (f.kind_quarantined ≡ true)
    ⊎ (f.sensitive ≡ true)
    ⊎ ((f.instruction_flagged ≡ true) × (f.external ≡ true))

abbrev pub IsUnsalvageable : Facts → Type 0
IsUnsalvageable f = (f.usable ≡ 0) ⊎ (f.aggregate ≡ contradiction)

abbrev pub IsAutoAcceptable : Facts → Type 0
IsAutoAcceptable f = IsSupported f × (¬ IsHeld f) × (f.containment.contained ≡ true)

accept_sound : (f : Facts) → decide_outcome f ≡ accept → IsSupported f
unfolding decide_outcome
accept_sound f h = ground arith

accept_free : (f : Facts) → decide_outcome f ≡ accept → ¬ IsHeld f
unfolding decide_outcome
accept_free f h held = ground arith

accept_contained : (f : Facts) → decide_outcome f ≡ accept → f.containment.contained ≡ true
unfolding decide_outcome
accept_contained f h = ground arith

accept_complete : (f : Facts) → IsAutoAcceptable f → decide_outcome f ≡ accept
unfolding decide_outcome
accept_complete f (s, free, within) = ground arith

-- A candidate is accepted exactly when it cites at least one supporting span, all of them resolve,
-- they entail the claim at or above the floor, the authority is strong, no accepted claim is
-- contradicted, no condition of quarantine holds, and the requested scope is contained in the
-- event's.
pub decide_outcome-eq-accept_iff : (f : Facts) → (decide_outcome f ≡ accept) ↔ IsAutoAcceptable f
decide_outcome-eq-accept_iff f =
    (λ h. (accept_sound f h, accept_free f h, accept_contained f h), accept_complete f)

abbrev pub IsNarrowable : Facts → Type 0
IsNarrowable f =
    IsSupported f × (¬ IsHeld f) × (f.containment.contained ≡ false) × (f.same_tenant ≡ true)

limited_sound : (f : Facts) → decide_outcome f ≡ accept_limited_scope → IsSupported f
unfolding decide_outcome
limited_sound f h = ground arith

limited_free : (f : Facts) → decide_outcome f ≡ accept_limited_scope → ¬ IsHeld f
unfolding decide_outcome
limited_free f h held = ground arith

limited_broader :
    (f : Facts)
    → decide_outcome f ≡ accept_limited_scope
    → (f.containment.contained ≡ false) × (f.same_tenant ≡ true)
unfolding decide_outcome
limited_broader f h = ground arith

limited_complete : (f : Facts) → IsNarrowable f → decide_outcome f ≡ accept_limited_scope
unfolding decide_outcome
limited_complete f (s, free, broader, tenant) = ground arith

-- A candidate is accepted at the event's scope exactly when it meets every condition of acceptance
-- but containment, and both scopes belong to one tenant.
pub decide_outcome-eq-limited_iff :
    (f : Facts) → (decide_outcome f ≡ accept_limited_scope) ↔ IsNarrowable f
decide_outcome-eq-limited_iff f = (
  λ h. (limited_sound f h, limited_free f h, (limited_broader f h).0, (limited_broader f h).1),
  limited_complete f,
)

reject_sound : (f : Facts) → decide_outcome f ≡ reject → IsUnsalvageable f
unfolding decide_outcome
reject_sound f h = ground arith

reject_complete : (f : Facts) → IsUnsalvageable f → decide_outcome f ≡ reject
unfolding decide_outcome
reject_complete f h = ground arith

quarantine_sound : (f : Facts) → decide_outcome f ≡ quarantine → IsHeld f
unfolding decide_outcome
quarantine_sound f h = ground arith

quarantine_complete : (f : Facts) → ¬ IsUnsalvageable f → IsHeld f → decide_outcome f ≡ quarantine
unfolding decide_outcome
quarantine_complete f salvageable held = ground arith

salvageable_of_quarantine : (f : Facts) → decide_outcome f ≡ quarantine → ¬ IsUnsalvageable f
unfolding decide_outcome
salvageable_of_quarantine f h u = ground arith

-- Rejection comes first, and exactly for a candidate without a usable supporting span or with
-- contradicting evidence; quarantine comes next, exactly for a privileged kind, high sensitivity or
-- instruction-like content from outside.
pub decide_outcome-refusals :
    (f : Facts)
    → ((decide_outcome f ≡ reject) ↔ IsUnsalvageable f)
      × ((decide_outcome f ≡ quarantine) ↔ ((¬ IsUnsalvageable f) × IsHeld f))
decide_outcome-refusals f = (
  (reject_sound f, reject_complete f),
  (λ h. (salvageable_of_quarantine f h, quarantine_sound f h), λ p. quarantine_complete f p.0 p.1),
)
