-- ===== src/Retrieval/Planner.antt =====
-- packages/retrieval/src/planner.ts: what a principal may reach, and the plan of a query. The tables
-- are what the planning transaction reads; instants are milliseconds.
pub mod Keyed
pub mod Laws
use verity_mem.Prelude.{
  ℕ, String, Bool, true, false, not, ◌&&◌, ◌||◌, Option, none, some, List, [], ◌∷◌, ◌++◌, map, any,
  filter, length, is_empty, contains, unique, ltb, ◌=?◌, ◌==◌, nat_eq, string_eq, option_eq,
  if◌then◌else◌, is_some,
}
use verity_mem.Contracts.Vocabulary.{ActionRisk, ClaimKind}
use verity_mem.Store.{ScopeRow}

pub record ScopeSelector : Type 0 where
  pub project : Option String
  pub user : Option String
  pub agent : Option String
  pub session : Option String

pub record GrantRow : Type 0 where
  pub grant_id : ℕ
  pub tenant_id : ℕ
  pub subject : String
  pub matrix : ScopeSelector
  pub actions : List String
  pub purpose : List String
  pub expires_at : Option ℕ

pub record PrincipalScope : Type 0 where
  pub tenant_id : ℕ
  pub principal_id : String
  pub scope_id : ℕ

pub record AccessTables : Type 0 where
  pub scopes : List ScopeRow
  pub principal_scopes : List PrincipalScope
  pub grants : List GrantRow

pub record ScopeRequest : Type 0 where
  pub tenant_id : ℕ
  pub principal : String
  pub selector : ScopeSelector
  pub purposes : List String
  pub now : ℕ

-- The texts of `denied`.
pub data DeniedDimension : Type 0 where
  denied_project : String → DeniedDimension
  denied_user : String → DeniedDimension
  denied_scope : DeniedDimension

-- The two numbers stand for the text that is built from them.
pub record ScopeResolution : Type 0 where
  pub scopes : List ScopeRow
  pub participating : ℕ
  pub live_grants : ℕ
  pub denied : List DeniedDimension

-- `purpose && $n`, the overlap of two arrays.
abbrev pub overlaps : List String → List String → Bool
overlaps purpose purposes = any (λ (p : String). contains purposes p) purpose

abbrev pub is_membership : ScopeRequest → PrincipalScope → Bool
is_membership input m = (m.tenant_id =? input.tenant_id) && m.principal_id == input.principal

-- The join of the memberships with their scopes.
unfoldable pub member_scopes : ScopeRequest → List ScopeRow → List PrincipalScope → List ScopeRow
member_scopes input scopes [] = []
member_scopes input scopes (m ∷ rows) =
    let rest = member_scopes input scopes rows in
    if is_membership input m
    then filter (λ (s : ScopeRow). (s.scope_id =? m.scope_id) && overlaps s.purpose input.purposes)
        scopes
      ++ rest
    else rest

abbrev pub is_live : ScopeRequest → GrantRow → Bool
is_live input g =
    (g.tenant_id =? input.tenant_id)
    && g.subject == input.principal
    && elim g.expires_at [ none ↦ true | some expiry ↦ ltb input.now expiry ]

abbrev pub is_reading : String → Bool
is_reading action = action == "read" || action == "query" || action == "*"

abbrev pub names_dimension : ScopeSelector → Bool
names_dimension m = is_some m.project || is_some m.user || is_some m.agent || is_some m.session

-- The grants that the loop does not pass over.
abbrev pub is_counted : ScopeRequest → GrantRow → Bool
is_counted input g =
    any is_reading g.actions
    && (is_empty g.purpose || overlaps g.purpose input.purposes)
    && names_dimension g.matrix

-- A value that is given must be the scope's.
abbrev pub requires : Option String → Option String → Bool
requires none value = true
requires (some wanted) none = false
requires (some wanted) (some value) = value == wanted

abbrev pub binds_as : ScopeSelector → ScopeRow → Bool
binds_as selector s =
    requires selector.project s.project
    && requires selector.user s.user_id
    && requires selector.agent s.agent_id
    && requires selector.session s.session_id

abbrev pub counted_grants : ScopeRequest → List GrantRow → List GrantRow
counted_grants input grants = filter (is_counted input) (filter (is_live input) grants)

abbrev pub is_granted : ScopeRequest → List GrantRow → ScopeRow → Bool
is_granted input counted s =
    (s.tenant_id =? input.tenant_id)
    && overlaps s.purpose input.purposes
    && any (λ (g : GrantRow). binds_as g.matrix s) counted

abbrev pub granted_scopes : ScopeRequest → List ScopeRow → List GrantRow → List ScopeRow
granted_scopes input scopes counted =
    if is_empty counted then [] else filter (is_granted input counted) scopes

-- `Map.set` for each of the rows.
abbrev pub set_scope : ScopeRow → List ScopeRow → List ScopeRow
set_scope s [] = s ∷ []
set_scope s (x ∷ rest) =
    let later = set_scope s rest in if x.scope_id =? s.scope_id then s ∷ rest else x ∷ later

abbrev pub set_scopes : List ScopeRow → List ScopeRow → List ScopeRow
set_scopes [] held = held
set_scopes (s ∷ rest) held = set_scopes rest (set_scope s held)

abbrev pub satisfies_selector : ScopeRequest → ScopeRow → Bool
satisfies_selector input s =
    not (is_empty s.purpose) && overlaps s.purpose input.purposes && binds_as input.selector s

-- A text that is given and not empty.
abbrev pub given : Option String → Option String
given none = none
given (some text) = if text == "" then none else some text

abbrev pub denied_for : ScopeSelector → DeniedDimension
denied_for selector = elim (given selector.project) [
  | some project ↦ denied_project project
  | none ↦ elim (given selector.user) [ some user ↦ denied_user user | none ↦ denied_scope ]
]

abbrev pub narrowed : ScopeRequest → List ScopeRow → List ScopeRow
narrowed input candidates =
    let exact = filter (satisfies_selector input) candidates in
    if is_some input.selector.user
    then exact
    else if not (is_empty exact)
    then exact
    else filter (satisfies_selector input) candidates

unfoldable pub resolve_scopes : AccessTables → ScopeRequest → ScopeResolution
unfolding member_scopes
resolve_scopes tables input =
    let members = member_scopes input tables.scopes tables.principal_scopes in
    let counted = counted_grants input tables.grants in
    let candidates = set_scopes (members ++ granted_scopes input tables.scopes counted) [] in
    let scopes = narrowed input candidates in
    record {
      scopes = scopes;
      participating = length members;
      live_grants = length counted;
      denied = if is_empty scopes then denied_for input.selector ∷ [] else [];
    }
