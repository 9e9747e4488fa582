-- ===== src/Retrieval/Plan.antt =====
-- `planQuery` of packages/retrieval/src/planner.ts, with the request that it reads.
use verity_mem.Prelude.{
  ℕ, String, Option, none, some, List, [], ◌∷◌, map, is_empty, unique, string_eq, if◌then◌else◌,
}
use verity_mem.Contracts.Vocabulary.{ActionRisk, ClaimKind, TimeSpec}
use verity_mem.Contracts.Policy.{default_use_policy_version}
use verity_mem.Store.{ScopeRow}
use verity_mem.Retrieval.Planner.{
  AccessTables, ScopeSelector, ScopeRequest, DeniedDimension, resolve_scopes,
}

pub data Channel : Type 0 where
  lexical dense entity temporal relation : Channel

pub record QueryRequest : Type 0 where
  pub query : String
  pub scope : ScopeSelector
  pub purpose : String
  pub time : Option TimeSpec
  pub action_risk : Option ActionRisk
  pub kinds : Option (List ClaimKind)
  pub subjects : Option (List String)
  pub limit : Option ℕ

pub record QueryPlan : Type 0 where
  pub policy_version : String
  pub tenant_id : ℕ
  pub principal : String
  pub text : String
  pub purpose : String
  pub action_risk : ActionRisk
  pub time : TimeSpec
  pub kinds : Option (List ClaimKind)
  pub subjects : Option (List String)
  pub entity_terms : List String
  pub limit : ℕ
  pub authorized_scopes : List ScopeRow
  pub authorized_scope_ids : List ℕ
  pub scope_resolution : ℕ × ℕ
  pub denied_dimensions : List DeniedDimension
  pub channels : List Channel

-- `value ?? fallback`.
abbrev pub otherwise {ℓ} : {A : Type ℓ} → Option A → A → A
otherwise none fallback = fallback
otherwise (some a) fallback = a

abbrev pub when_not_empty {ℓ} : {A : Type ℓ} → List A → Option (List A)
when_not_empty [] = none
when_not_empty (a ∷ rest) = some (a ∷ rest)

abbrev pub kinds_of : Option (List ClaimKind) → Option (List ClaimKind)
kinds_of none = none
kinds_of (some kinds) = when_not_empty kinds

-- A `Set` of the subjects that the caller names.
abbrev pub subjects_of : QueryRequest → List String
subjects_of query = unique (otherwise query.subjects [])

abbrev pub channels_for : List String → List Channel
channels_for subjects =
    Channel.lexical
    ∷ Channel.dense
    ∷ Channel.entity
    ∷ Channel.temporal
    ∷ (if is_empty subjects then [] else Channel.relation ∷ [])

-- What is asked of `resolveScopes`.
abbrev pub scope_request : ℕ → ℕ → String → QueryRequest → ScopeRequest
scope_request now tenant principal query = record {
  tenant_id = tenant;
  principal = principal;
  selector = query.scope;
  purposes = query.purpose ∷ [];
  now = now;
}

unfoldable pub plan_query :
    AccessTables → ℕ → ℕ → String → QueryRequest → List String → Option String → QueryPlan
unfolding resolve_scopes
plan_query tables now tenant principal query entity_subjects policy_version =
    let resolved = resolve_scopes tables (scope_request now tenant principal query) in
    record {
      policy_version = otherwise policy_version default_use_policy_version;
      tenant_id = tenant;
      principal = principal;
      text = query.query;
      purpose = query.purpose;
      action_risk = otherwise query.action_risk ActionRisk.low;
      time = otherwise query.time TimeSpec.current;
      kinds = kinds_of query.kinds;
      subjects = when_not_empty (subjects_of query);
      entity_terms = entity_subjects;
      limit = otherwise query.limit 12;
      authorized_scopes = resolved.scopes;
      authorized_scope_ids = map (λ (s : ScopeRow). s.scope_id) resolved.scopes;
      scope_resolution = (resolved.participating, resolved.live_grants);
      denied_dimensions = resolved.denied;
      channels = channels_for (subjects_of query);
    }
