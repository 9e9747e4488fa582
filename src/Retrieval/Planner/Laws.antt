-- ===== src/Retrieval/Planner/Laws.antt =====
-- What `resolveScopes` hands out, row by row.
use verity_mem.Prelude.{
  ℕ, ◌≡◌, refl, ap, ◌∙◌, inl, inr, String, Bool, not, ◌&&◌, ◌||◌, List, [], ◌∷◌, ◌++◌, any, filter,
  is_empty, ◌=?◌, string_eq, nat_eq, Bool-cases, arith, any-filter, Option-cases, Option-cases,
}
use verity_mem.Store.{ScopeRow}
use verity_mem.Retrieval.Planner.{
  ScopeRequest, PrincipalScope, GrantRow, AccessTables, member_scopes, granted_scopes, is_granted,
  is_counted, is_live, set_scopes, satisfies_selector, narrowed, overlaps, binds_as, is_membership,
  counted_grants, resolve_scopes,
}
use verity_mem.Retrieval.Planner.Keyed.{
  find_scope, holds_of, IsKeyed, has_scope, has_scope-filter, has_scope-append,
  has_scope-set_scopes, IsKeyed-filter, IsKeyed-append, IsKeyed-set_scopes, has_scope-find,
  find_scope-id,
}

abbrev pub is_member : ScopeRequest → List PrincipalScope → ℕ → Bool
is_member input memberships id =
    any (λ (m : PrincipalScope). is_membership input m && (m.scope_id =? id)) memberships

IsKeyed-member_scopes :
    (scopes : List ScopeRow) (input : ScopeRequest) (memberships : List PrincipalScope)
    → IsKeyed scopes scopes
    → IsKeyed scopes (member_scopes input scopes memberships)
unfolding member_scopes
IsKeyed-member_scopes scopes input [] keyed = tt
IsKeyed-member_scopes scopes input (m ∷ rows) keyed =
    let test : ScopeRow → Bool =
      λ s. (s.scope_id =? m.scope_id) && overlaps s.purpose input.purposes in
    let rest = IsKeyed-member_scopes scopes input rows keyed in
    elim (Bool-cases (is_membership input m)) [
      | inl hit ↦ rw hit (
          IsKeyed-append scopes (filter test scopes) (member_scopes input scopes rows)
            (IsKeyed-filter scopes test scopes keyed) rest)
      | inr miss ↦ rw miss rest
    ]

has_scope-member_scopes :
    (scopes : List ScopeRow) (input : ScopeRequest) (memberships : List PrincipalScope) (id : ℕ)
    → IsKeyed scopes scopes
    → has_scope id (member_scopes input scopes memberships)
      ≡ holds_of
          (λ (s : ScopeRow). overlaps s.purpose input.purposes && is_member input memberships id)
          (find_scope scopes id)
unfolding member_scopes
has_scope-member_scopes scopes input [] id keyed = elim (Option-cases (find_scope scopes id)) [
  | inl none_there ↦ rw none_there refl
  | inr (s, there) ↦ rw there (ground arith)
]
has_scope-member_scopes scopes input (m ∷ rows) id keyed =
    let test : ScopeRow → Bool =
      λ s. (s.scope_id =? m.scope_id) && overlaps s.purpose input.purposes in
    let rest = has_scope-member_scopes scopes input rows id keyed in
    let joined = has_scope-filter scopes test id scopes keyed in
    let both = has_scope-append id (filter test scopes) (member_scopes input scopes rows) in
    let present = has_scope-find scopes id in
    elim (Bool-cases (is_membership input m)) [
      | inr miss ↦ rw miss rest
      | inl hit ↦ rw hit (
          both ∙ (elim (Option-cases (find_scope scopes id)) [
            | inl none_there ↦ rw none_there (
                ground
                  (arith, rw none_there at joined, rw none_there at rest, rw none_there at present))
            | inr (s, there) ↦
                let same : s.scope_id ≡ id = find_scope-id scopes id there in
                rw there
                  (ground (arith, rw there at joined, rw there at rest, rw there at present, same))
          ]))
    ]

has_scope-granted_scopes :
    (scopes : List ScopeRow) (input : ScopeRequest) (counted : List GrantRow) (id : ℕ)
    → IsKeyed scopes scopes
    → has_scope id (granted_scopes input scopes counted)
      ≡ holds_of (is_granted input counted) (find_scope scopes id)
has_scope-granted_scopes scopes input [] id keyed = elim (Option-cases (find_scope scopes id)) [
  | inl none_there ↦ rw none_there refl
  | inr (s, there) ↦ rw there (ground arith)
]
has_scope-granted_scopes scopes input (g ∷ counted) id keyed =
    let joined = has_scope-filter scopes (is_granted input (g ∷ counted)) id scopes keyed in
    let present = has_scope-find scopes id in
    elim (Option-cases (find_scope scopes id)) [
      | inl none_there ↦
          rw none_there (ground (arith, rw none_there at joined, rw none_there at present))
      | inr (s, there) ↦ rw there (ground (arith, rw there at joined, rw there at present))
    ]

IsKeyed-granted_scopes :
    (scopes : List ScopeRow) (input : ScopeRequest) (counted : List GrantRow)
    → IsKeyed scopes scopes
    → IsKeyed scopes (granted_scopes input scopes counted)
IsKeyed-granted_scopes scopes input [] keyed = tt
IsKeyed-granted_scopes scopes input (g ∷ counted) keyed =
    IsKeyed-filter scopes (is_granted input (g ∷ counted)) scopes keyed

-- A live grant for reading, for one of the purposes or for none in particular, names at least one
-- dimension and only ones that the scope binds so.
abbrev pub is_reached_by_grant : ScopeRequest → List GrantRow → ScopeRow → Bool
is_reached_by_grant input grants s =
    (s.tenant_id =? input.tenant_id)
    && any (λ (g : GrantRow). is_live input g && (is_counted input g && binds_as g.matrix s)) grants

-- What a request may reach: a scope for one of its purposes that binds every dimension that the
-- selector names, and that the principal is a member of or that a grant of its tenant reaches.
abbrev pub is_reachable : ScopeRequest → AccessTables → ScopeRow → Bool
is_reachable input tables s =
    overlaps s.purpose input.purposes
    && binds_as input.selector s
    && (is_member input tables.principal_scopes s.scope_id
        || is_reached_by_grant input tables.grants s)

narrowed-filter :
    (input : ScopeRequest) (candidates : List ScopeRow)
    → narrowed input candidates ≡ filter (satisfies_selector input) candidates
narrowed-filter input candidates = ground arith

overlaps-purpose :
    (purpose purposes : List String)
    → (not (is_empty purpose) && overlaps purpose purposes) ≡ overlaps purpose purposes
overlaps-purpose [] purposes = refl
overlaps-purpose (p ∷ purpose) purposes = refl

is_granted-by_grant :
    (input : ScopeRequest) (grants : List GrantRow) (s : ScopeRow)
    → is_granted input (counted_grants input grants) s
      ≡ (overlaps s.purpose input.purposes && is_reached_by_grant input grants s)
is_granted-by_grant input grants s =
    let inner =
      any-filter (λ (g : GrantRow). binds_as g.matrix s) (is_counted input)
        (filter (is_live input) grants) in
    let outer =
      any-filter (λ (g : GrantRow). is_counted input g && binds_as g.matrix s) (is_live input)
        grants in
    ground (arith, inner ∙ outer)

join_parts :
    (held by_member by_grant named o b m g : Bool)
    → held ≡ (by_member || by_grant)
    → by_member ≡ (o && m)
    → by_grant ≡ (o && g)
    → (named && o) ≡ o
    → (held && (named && o && b)) ≡ (o && b && (m || g))
join_parts held by_member by_grant named o b m g h hm hg hn = ground arith

has_scope-candidates :
    (id : ℕ) (xs ys : List ScopeRow)
    → has_scope id (set_scopes (xs ++ ys) []) ≡ (has_scope id xs || has_scope id ys)
has_scope-candidates id xs ys =
    ground (arith, has_scope-set_scopes id (xs ++ ys) [], has_scope-append id xs ys)

-- The scopes that a request resolves to are, by their ids, exactly the rows of the table of scopes
-- that are reachable for it: for one of its purposes, binding every dimension of its selector, and
-- either one of the principal's memberships or reached by a live reading grant of its tenant. The
-- selector can only narrow, and the two passes of the code give one set. The ids are a key.
pub resolve_scopes-reach :
    (tables : AccessTables) (input : ScopeRequest) (id : ℕ)
    → IsKeyed tables.scopes tables.scopes
    → has_scope id (resolve_scopes tables input).scopes
      ≡ holds_of (is_reachable input tables) (find_scope tables.scopes id)
unfolding resolve_scopes
resolve_scopes-reach tables input id keyed =
    let scopes = tables.scopes in
    let counted = counted_grants input tables.grants in
    let members = member_scopes input tables.scopes tables.principal_scopes in
    let granted = granted_scopes input tables.scopes counted in
    let keyed_all =
      IsKeyed-append scopes members granted
        (IsKeyed-member_scopes scopes input tables.principal_scopes keyed)
        (IsKeyed-granted_scopes scopes input counted keyed) in
    let kept = IsKeyed-set_scopes scopes (members ++ granted) [] keyed_all tt in
    let candidates = set_scopes (members ++ granted) [] in
    let selected = has_scope-filter scopes (satisfies_selector input) id candidates kept in
    let by_member = has_scope-member_scopes scopes input tables.principal_scopes id keyed in
    let by_grant = has_scope-granted_scopes scopes input counted id keyed in
    ap (has_scope id) (narrowed-filter input candidates)
    ∙ selected
    ∙ (elim (Option-cases (find_scope tables.scopes id)) [
      | inl none_there ↦ rw none_there (ground arith)
      | inr (s, there) ↦
          let same : s.scope_id ≡ id = find_scope-id tables.scopes id there in
          rw (there, same)
            (join_parts (has_scope id candidates) (has_scope id members) (has_scope id granted)
              (not (is_empty s.purpose)) (overlaps s.purpose input.purposes)
              (binds_as input.selector s) (is_member input tables.principal_scopes id)
              (is_reached_by_grant input tables.grants s) (has_scope-candidates id members granted)
              (rw there at by_member)
              ((rw there at by_grant) ∙ is_granted-by_grant input tables.grants s)
              (overlaps-purpose s.purpose input.purposes))
    ])
