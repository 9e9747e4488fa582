-- ===== src/Claims/Use.antt =====
-- The use policy of packages/claims/src/index.ts (`evaluateUse`, `ageInDays`). Instants are
-- milliseconds since the epoch, and ages are hundredths of a day, the precision that
-- `ageInDays` rounds to.
pub mod Laws
use verity_mem.Prelude.{
  ℕ, ◌+◌, ◌-◌, ◌*◌, ◌/◌, String, Bool, true, false, not, ◌&&◌, ◌||◌, Option, none, some, List, [],
  ◌∷◌, ◌++◌, leb, ltb, ◌=?◌, if◌then◌else◌,
}
use verity_mem.Contracts.Vocabulary.{
  ClaimStatus, ClaimKind, AuthorityClass, ActionRisk, UseDecision, usable, verify, clarify, deny,
}
use verity_mem.Contracts.Policy.{staleness_horizon_for}
use verity_mem.Contracts.ReasonCodes

pub record UseVerdict : Type 0 where
  pub decision : UseDecision
  pub reason_codes : List String
  pub staleness_horizon_days : ℕ
  pub age_days : ℕ

pub record UseEvaluationInput : Type 0 where
  pub status : ClaimStatus
  pub kind : ClaimKind
  pub authority : AuthorityClass
  pub valid_to : Option ℕ
  pub expires_at : Option ℕ
  pub has_conflicts : Bool
  pub digest_ok : Bool
  pub span_count : ℕ
  pub age_days : ℕ
  pub action_risk : ActionRisk
  pub query_purpose_matches : Bool
  pub now : ℕ

abbrev pub is_accepted : ClaimStatus → Bool
is_accepted ClaimStatus.accepted = true
is_accepted _ = false

abbrev pub is_disputed : ClaimStatus → Bool
is_disputed ClaimStatus.disputed = true
is_disputed _ = false

abbrev pub is_revoked : ClaimStatus → Bool
is_revoked ClaimStatus.revoked = true
is_revoked _ = false

abbrev pub is_high : ActionRisk → Bool
is_high ActionRisk.high = true
is_high _ = false

abbrev pub is_weak : AuthorityClass → Bool
is_weak AuthorityClass.inference = true
is_weak AuthorityClass.hearsay = true
is_weak _ = false

abbrev pub is_verified_record : AuthorityClass → Bool
is_verified_record AuthorityClass.verified_record = true
is_verified_record _ = false

-- `expires_at !== null && expires_at <= now`.
abbrev pub is_expired : Option ℕ → ℕ → Bool
is_expired none now = false
is_expired (some t) now = leb t now

-- `age_days > horizon`, with the age in hundredths of a day.
abbrev pub is_stale : ClaimKind → ℕ → Bool
is_stale kind age = ltb (100 * staleness_horizon_for kind) age

abbrev pub when_code : Bool → String → List String
when_code b code = if b then code ∷ [] else []

-- The part of `evaluateUse` that looks at authority, age and risk.
unfoldable pub evaluate_strength : UseEvaluationInput → UseDecision × List String
evaluate_strength input =
    if is_weak input.authority || is_stale input.kind input.age_days
    then (
      (if is_high input.action_risk then deny else verify),
      when_code (is_weak input.authority) ReasonCodes.use_weak_authority
          ++ when_code (is_stale input.kind input.age_days) ReasonCodes.use_stale,
    )
    else if is_high input.action_risk && not (is_verified_record input.authority)
    then (verify, ReasonCodes.use_entailed_unverified ∷ [])
    else (usable, ReasonCodes.use_fresh_authoritative ∷ [])

-- The guards of `evaluateUse`, in their order, down to the conflict check.
unfoldable pub evaluate_guards : UseEvaluationInput → UseDecision × List String
unfolding evaluate_strength
evaluate_guards input =
    if is_revoked input.status
    then (deny, ReasonCodes.use_revoked ∷ [])
    else if not (is_accepted input.status) && not (is_disputed input.status)
    then (deny, ReasonCodes.use_revoked ∷ [])
    else if input.span_count =? 0 || not input.digest_ok
    then (deny, ReasonCodes.span_unresolvable ∷ [])
    else if is_expired input.expires_at input.now
    then (deny, ReasonCodes.use_expired ∷ [])
    else if not input.query_purpose_matches
    then (deny, ReasonCodes.use_sensitive_purpose_mismatch ∷ [])
    else if is_disputed input.status || input.has_conflicts
    then ((if is_high input.action_risk then deny else clarify), ReasonCodes.use_conflicted ∷ [])
    else evaluate_strength input

unfoldable pub evaluate_use : UseEvaluationInput → UseVerdict
unfolding evaluate_guards
evaluate_use input =
    let (decision, codes) = evaluate_guards input in
    record {
      decision = decision;
      reason_codes = codes;
      staleness_horizon_days = staleness_horizon_for input.kind;
      age_days = input.age_days;
    }

abbrev pub ms_per_day : ℕ
ms_per_day = 86400000

-- `Math.max(0, Math.round((end - start) / 86_400_000 * 100) / 100)`, in hundredths of a day.
unfoldable pub age_in_days : ℕ → ℕ → ℕ
age_in_days start now = ((now - start) * 100 + ms_per_day / 2) / ms_per_day
