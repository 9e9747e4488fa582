-- ===== src/Gate/Scope.antt =====
-- `scopeContainment` of packages/gate/src/commit-gate.ts.
pub mod Laws
use verity_mem.Prelude.{
  ℕ, String, Bool, true, false, not, Option, none, some, List, filter, any, is_empty, contains,
  ◌==◌, string_eq, if◌then◌else◌,
}
use verity_mem.Store.{ScopeRow}

pub record Containment : Type 0 where
  pub contained : Bool
  pub narrower : Bool
  pub broadened_purposes : List String

-- One round of the loop over the dimensions, on the flags `(contained, narrower)`.
unfoldable pub compare_dimension : Option String → Option String → Bool × Bool → Bool × Bool
compare_dimension none none flags = flags
compare_dimension none (some have) (contained, narrower) = (false, narrower)
compare_dimension (some want) none (contained, narrower) = (contained, true)
compare_dimension (some want) (some have) (contained, narrower) =
    if want == have then (contained, narrower) else (false, narrower)

unfoldable pub compare_dimensions : ScopeRow → ScopeRow → Bool × Bool
unfolding compare_dimension
compare_dimensions requested authority =
    compare_dimension requested.session_id authority.session_id (
      compare_dimension requested.agent_id authority.agent_id (
        compare_dimension requested.user_id authority.user_id
          (compare_dimension requested.project authority.project (true, false))))

-- The purposes of the first list that the second does not hold.
abbrev pub missing_from : List String → List String → List String
missing_from held purposes = filter (λ p. not (contains held p)) purposes

unfoldable pub scope_containment : ScopeRow → ScopeRow → Containment
unfolding compare_dimensions
scope_containment requested authority =
    let (contained, narrower) = compare_dimensions requested authority in
    let broadened = missing_from authority.purpose requested.purpose in
    record {
      contained = if is_empty broadened then contained else false;
      narrower =
          if any (λ p. not (contains requested.purpose p)) authority.purpose
          then true
          else narrower;
      broadened_purposes = broadened;
    }
