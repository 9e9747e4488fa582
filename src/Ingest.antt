-- ===== src/Ingest.antt =====
-- Admission and the requested scope in packages/model-adapters/src/pipeline.ts. The expressions of the
-- instruction scan are a parameter.
pub mod Laws
pub mod Records
pub mod Run
use verity_mem.Prelude.{
  ℕ, String, Bool, true, false, not, ◌&&◌, ◌||◌, Option, none, some, List, [], ◌∷◌, ◌++◌, any,
  filter, is_empty, is_some, contains, ◌==◌, string_eq, if◌then◌else◌,
}
use verity_mem.Contracts.Vocabulary.{OriginKind, AuthorityClass, ClaimKind, Sensitivity}
use verity_mem.Contracts.ReasonCodes
use verity_mem.Claims.Use.{when_code}
use verity_mem.Store.{ScopeRow}
use verity_mem.Ledger.Spans.{Bytes}
use verity_mem.Ledger.Tables.{ScopeInput}
use verity_mem.Gate.Decide.{scan_for_instructions, scan_content, is_external, is_sensitive}

pub record AdmissionResult : Type 0 where
  pub external : Bool
  pub instruction_like : Bool
  pub instruction_matches : List Bytes
  pub sensitive : Bool
  pub blocked_extractors : List String
  pub reason_codes : List String

unfoldable pub admit :
    List (Bytes → Option Bytes) → OriginKind → Option Bytes → Sensitivity → AdmissionResult
unfolding scan_for_instructions
admit patterns origin content sensitivity =
    let scan = scan_content patterns content in
    let external = is_external origin in
    record {
      external = external;
      instruction_like = scan.flagged;
      instruction_matches = scan.matches;
      sensitive = is_sensitive sensitivity;
      blocked_extractors = if scan.flagged && external then "privileged" ∷ [] else [];
      reason_codes =
          when_code scan.flagged ReasonCodes.admission_instruction_like
          ++ when_code (scan.flagged && external) ReasonCodes.admission_external_instruction
          ++ when_code (is_sensitive sensitivity) ReasonCodes.admission_sensitive;
    }

-- What admission reads of an extractor.
pub record Extractor : Type 0 where
  pub id : String
  pub is_model_call : Bool
  pub produces : List ClaimKind

abbrev pub is_privileged : ClaimKind → Bool
is_privileged ClaimKind.procedure = true
is_privileged ClaimKind.permission = true
is_privileged _ = false

unfoldable pub is_blocked : Extractor → AdmissionResult → Bool
is_blocked e admission =
    if not (contains admission.blocked_extractors "privileged")
    then false
    else if not e.is_model_call
    then false
    else any is_privileged e.produces

-- `defaultAuthorityFor` of packages/gate/src/commit-gate.ts.
unfoldable pub default_authority_for : OriginKind → AuthorityClass
default_authority_for OriginKind.user = AuthorityClass.user_self_report
default_authority_for OriginKind.tool = AuthorityClass.observation
default_authority_for OriginKind.database = AuthorityClass.verified_record
default_authority_for OriginKind.document = AuthorityClass.hearsay
default_authority_for OriginKind.agent = AuthorityClass.observation
default_authority_for OriginKind.model_inference = AuthorityClass.inference

-- `requested_scope` of a proposal, and that of the options.
pub record ScopeNarrowing : Type 0 where
  pub project : Option String
  pub user : Option String
  pub agent : Option String
  pub session : Option String
  pub purpose : Option (List String)

-- The spread of the two: a key of the second wins.
abbrev pub prefer {ℓ} : {A : Type ℓ} → Option A → Option A → Option A
prefer first none = first
prefer first (some a) = some a

abbrev pub spread : ScopeNarrowing → ScopeNarrowing → ScopeNarrowing
spread proposal options = record {
  project = prefer proposal.project options.project;
  user = prefer proposal.user options.user;
  agent = prefer proposal.agent options.agent;
  session = prefer proposal.session options.session;
  purpose = prefer proposal.purpose options.purpose;
}

abbrev pub asks_nothing : ScopeNarrowing → Bool
asks_nothing r =
    not (is_some r.project)
    && not (is_some r.user)
    && not (is_some r.agent)
    && not (is_some r.session)
    && not (is_some r.purpose)

unfoldable pub carry : Option String → Option String → Option String
carry none value = value
carry (some requested) none = some requested
carry (some requested) (some value) = if requested == value then some requested else none

abbrev pub allowed_purposes : Option (List String) → List String → List String
allowed_purposes none purposes = purposes
allowed_purposes (some []) purposes = purposes
allowed_purposes (some (p ∷ rest)) purposes = filter (λ x. contains purposes x) (p ∷ rest)

abbrev pub or_all : List String → List String → List String
or_all [] all = all
or_all (p ∷ rest) all = p ∷ rest

abbrev pub narrowed_input : ScopeRow → ScopeNarrowing → ScopeInput
narrowed_input event request = record {
  tenant = event.tenant_id;
  project = carry request.project event.project;
  user = carry request.user event.user_id;
  agent = carry request.agent event.agent_id;
  session = carry request.session event.session_id;
  purpose = or_all (allowed_purposes request.purpose event.purpose) event.purpose;
}

abbrev pub binds_no_dimension : ScopeInput → Bool
binds_no_dimension input =
    not (is_some input.project)
    && not (is_some input.user)
    && not (is_some input.agent)
    && not (is_some input.session)

-- What `resolveRequestedScope` gives to ensureScope; `none` is the event's own scope.
unfoldable pub requested_input : ScopeRow → ScopeNarrowing → ScopeNarrowing → Option ScopeInput
unfolding carry
requested_input event proposal options =
    let request = spread proposal options in
    let input = narrowed_input event request in
    if asks_nothing request then none else if binds_no_dimension input then none else some input
