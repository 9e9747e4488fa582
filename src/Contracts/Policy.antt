-- ===== src/Contracts/Policy.antt =====
-- packages/contracts/src/policy.ts: the commit policy and the limits of the use and action policies.
-- Scores and thresholds are in millionths, so 500000 is the floor 0.5.
use verity_mem.Prelude.{ℕ, String, List, [], ◌∷◌}
use verity_mem.Contracts.Vocabulary.{ClaimKind, AuthorityClass, ActionRisk, UseDecision}

abbrev pub quarantine_kinds : List ClaimKind
quarantine_kinds = ClaimKind.procedure ∷ ClaimKind.permission ∷ []

abbrev pub auto_accept_authorities : List AuthorityClass
auto_accept_authorities =
    AuthorityClass.verified_record ∷ AuthorityClass.observation ∷ AuthorityClass.user_self_report
    ∷ []

-- `STALENESS_HORIZON_DAYS`; the default of 30 days is for a kind outside the vocabulary.
abbrev pub staleness_horizon_for : ClaimKind → ℕ
staleness_horizon_for ClaimKind.observation = 30
staleness_horizon_for ClaimKind.user_self_report = 365
staleness_horizon_for ClaimKind.preference = 365
staleness_horizon_for ClaimKind.event = 90
staleness_horizon_for ClaimKind.decision = 90
staleness_horizon_for ClaimKind.plan = 30
staleness_horizon_for ClaimKind.hypothesis = 14
staleness_horizon_for ClaimKind.procedure = 180
staleness_horizon_for ClaimKind.permission = 30
staleness_horizon_for ClaimKind.derived_summary = 30

pub record GateThresholds : Type 0 where
  pub entailment_floor : ℕ
  pub review_burden_ceiling : ℕ
  pub lexical_entailment_floor : ℕ

abbrev pub gate_thresholds : GateThresholds
gate_thresholds = record {
  entailment_floor = 500000;
  review_burden_ceiling = 20000;
  lexical_entailment_floor = 600000;
}

pub record CommitPolicy : Type 0 where
  pub version : String
  pub quarantine_kinds : List ClaimKind
  pub auto_accept_authorities : List AuthorityClass
  pub thresholds : GateThresholds

abbrev pub default_commit_policy : CommitPolicy
default_commit_policy = record {
  version = "commit-v3";
  quarantine_kinds = quarantine_kinds;
  auto_accept_authorities = auto_accept_authorities;
  thresholds = gate_thresholds;
}

abbrev pub default_use_policy_version : String
default_use_policy_version = "use-v2"

abbrev pub default_action_policy_version : String
default_action_policy_version = "action-v1"

-- `RISK_TO_ALLOWED_USE`.
abbrev pub risk_to_allowed_use : ActionRisk → List UseDecision
risk_to_allowed_use ActionRisk.low =
    UseDecision.usable ∷ UseDecision.verify ∷ UseDecision.clarify ∷ []
risk_to_allowed_use ActionRisk.medium = UseDecision.usable ∷ []
risk_to_allowed_use ActionRisk.high = UseDecision.usable ∷ []

-- `RISK_TO_MAX_EVIDENCE_AGE_DAYS`.
abbrev pub risk_to_max_evidence_age_days : ActionRisk → ℕ
risk_to_max_evidence_age_days ActionRisk.low = 3650
risk_to_max_evidence_age_days ActionRisk.medium = 365
risk_to_max_evidence_age_days ActionRisk.high = 90
