-- ===== src/Gate/Scope/Laws.antt =====
-- Containment of scopes, against its meaning.
use verity_mem.Prelude.{
  ◌≡◌, refl, ◌↔◌, String, Bool, true, false, Option, none, some, List, [], ◌∷◌, contains, is_empty,
  string_eq, ◌==◌, subst, arith, Bool-cases, inl, inr, ◌∙◌,
}
use verity_mem.Store.{ScopeRow}
use verity_mem.Gate.Scope.{compare_dimension, compare_dimensions, missing_from, scope_containment}

-- The value that the authority binds is the one requested.
abbrev pub Honours : Option String → Option String → Type 0
Honours want none = Unit
Honours want (some have) = want ≡ some have

-- No dimension that the authority binds is left open or changed, and no purpose is added.
pub record IsWithin (requested authority : ScopeRow) : Type 0 where
  pub project : Honours requested.project authority.project
  pub user : Honours requested.user_id authority.user_id
  pub agent : Honours requested.agent_id authority.agent_id
  pub session : Honours requested.session_id authority.session_id
  pub purposes :
      (p : String) → contains requested.purpose p ≡ true → contains authority.purpose p ≡ true

dimension_iff :
    (want have : Option String) (flags : Bool × Bool)
    → ((compare_dimension want have flags).0 ≡ true) ↔ (Honours want have × (flags.0 ≡ true))
unfolding compare_dimension
dimension_iff none none flags = (λ h. (tt, h), λ p. p.1)
dimension_iff none (some b) flags = (λ h. absurd (cc h), λ p. absurd (cc (p.0)))
dimension_iff (some a) none flags = (λ h. (tt, h), λ p. p.1)
dimension_iff (some a) (some b) flags = ground (arith, string_eq.test_iff a b)

dimensions_iff :
    (requested authority : ScopeRow)
    → ((compare_dimensions requested authority).0 ≡ true) ↔ (
        Honours requested.session_id authority.session_id
        × Honours requested.agent_id authority.agent_id
        × Honours requested.user_id authority.user_id
        × Honours requested.project authority.project)
unfolding compare_dimensions
dimensions_iff requested authority =
    let project = compare_dimension requested.project authority.project (true, false) in
    let user = compare_dimension requested.user_id authority.user_id project in
    let agent = compare_dimension requested.agent_id authority.agent_id user in
    (
      λ h.
          let s = (dimension_iff requested.session_id authority.session_id agent).0 h in
          let a = (dimension_iff requested.agent_id authority.agent_id user).0 s.1 in
          let u = (dimension_iff requested.user_id authority.user_id project).0 a.1 in
          let p = (dimension_iff requested.project authority.project (true, false)).0 u.1 in
          (s.0, a.0, u.0, p.0),
      λ q.
          let p = (dimension_iff requested.project authority.project (true, false)).1 (q.3, refl) in
          let u = (dimension_iff requested.user_id authority.user_id project).1 (q.2, p) in
          let a = (dimension_iff requested.agent_id authority.agent_id user).1 (q.1, u) in
          (dimension_iff requested.session_id authority.session_id agent).1 (q.0, a),
    )

missing-none :
    (held purposes : List String)
    → is_empty (missing_from held purposes) ≡ true
    → (p : String) → contains purposes p ≡ true
    → contains held p ≡ true
missing-none held [] h p on = cc on
missing-none held (q ∷ purposes) h p on =
    let rest : is_empty (missing_from held purposes) ≡ true = ground arith in
    let first : contains held q ≡ true = ground arith in
    elim (Bool-cases (q == p)) [
      | inl same ↦ subst (λ x. contains held x ≡ true) ((string_eq.test_iff q p).0 same) first
      | inr off ↦ missing-none held purposes rest p (rw off at on)
    ]

none-missing :
    (held purposes : List String)
    → ((p : String) → contains purposes p ≡ true → contains held p ≡ true)
    → is_empty (missing_from held purposes) ≡ true
none-missing held [] all = refl
none-missing held (q ∷ purposes) all =
    let here : contains held q ≡ true = all q (ground (arith, string_eq.test_iff q q)) in
    let rest : is_empty (missing_from held purposes) ≡ true =
      none-missing held purposes (λ p on. all p (ground arith)) in
    ground arith

contained-IsWithin :
    (requested authority : ScopeRow)
    → (scope_containment requested authority).contained ≡ true
    → IsWithin requested authority
unfolding scope_containment
contained-IsWithin requested authority h =
    let empty : is_empty (missing_from authority.purpose requested.purpose) ≡ true = ground arith in
    let d = (dimensions_iff requested authority).0 (ground arith) in
    record {
      project = d.3;
      user = d.2;
      agent = d.1;
      session = d.0;
      purposes = missing-none authority.purpose requested.purpose empty;
    }

within_contained :
    (requested authority : ScopeRow)
    → IsWithin requested authority
    → (scope_containment requested authority).contained ≡ true
unfolding scope_containment
within_contained requested authority w =
    let empty = none-missing authority.purpose requested.purpose w.purposes in
    let kept = (dimensions_iff requested authority).1 (w.session, w.agent, w.user, w.project) in
    rw empty kept

-- A requested scope is contained exactly when it keeps every dimension that the authority binds and
-- adds no purpose.
pub scope_containment-contained_iff :
    (requested authority : ScopeRow)
    → ((scope_containment requested authority).contained ≡ true) ↔ IsWithin requested authority
scope_containment-contained_iff requested authority =
    (contained-IsWithin requested authority, within_contained requested authority)

Honours-refl : (v : Option String) → Honours v v
Honours-refl none = tt
Honours-refl (some a) = refl

pub IsWithin-refl : (s : ScopeRow) → IsWithin s s
IsWithin-refl s = record {
  project = Honours-refl s.project;
  user = Honours-refl s.user_id;
  agent = Honours-refl s.agent_id;
  session = Honours-refl s.session_id;
  purposes = λ p on. on;
}

Honours-trans : (a b c : Option String) → Honours a b → Honours b c → Honours a c
Honours-trans a b none x y = tt
Honours-trans a none (some v) x y = absurd (cc y)
Honours-trans a (some u) (some v) x y = x ∙ y

-- Containment is a preorder: a scope contains itself, and what is contained in a contained scope is
-- contained.
pub scope_containment-preorder :
    (a b c : ScopeRow)
    → ((scope_containment a a).contained ≡ true)
      × ((scope_containment a b).contained ≡ true
          → (scope_containment b c).contained ≡ true
          → (scope_containment a c).contained ≡ true)
scope_containment-preorder a b c = (
  within_contained a a (IsWithin-refl a),
  λ h k.
      let v = contained-IsWithin a b h in
      let w = contained-IsWithin b c k in
      within_contained a c (record {
        project = Honours-trans a.project b.project c.project v.project w.project;
        user = Honours-trans a.user_id b.user_id c.user_id v.user w.user;
        agent = Honours-trans a.agent_id b.agent_id c.agent_id v.agent w.agent;
        session = Honours-trans a.session_id b.session_id c.session_id v.session w.session;
        purposes = λ p on. w.purposes p (v.purposes p on);
      }),
)
