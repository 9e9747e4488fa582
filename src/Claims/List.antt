-- ===== src/Claims/List.antt =====
-- `listClaims`, `timePredicate` and `readClaim` of packages/claims/src/index.ts. A claim whose scope is
-- not there drops out of the join.
pub mod Laws
pub mod Matching
use verity_mem.Prelude.{
  ℕ, String, Bool, true, false, not, ◌&&◌, ◌||◌, Option, none, some, List, [], ◌∷◌, any, filter,
  find, take, contains, leb, ltb, ◌=?◌, nat_eq, string_eq, is_some, if◌then◌else◌,
}
use verity_mem.Contracts.Vocabulary.{
  ClaimKind, ClaimStatus, accepted, superseded, expired, TimeSpec, current, as_of, during, kind_eq,
}
use verity_mem.Store.{ScopeRow, ClaimRow, Database}
use verity_mem.Store.Triggers.{same_status}

pub record ClaimListFilters : Type 0 where
  pub tenant_id : ℕ
  pub scope_ids : List ℕ
  pub time : Option TimeSpec
  pub kinds : Option (List ClaimKind)
  pub statuses : Option (List ClaimStatus)
  pub subjects : Option (List String)
  pub predicates : Option (List String)
  pub claim_ids : Option (List ℕ)
  pub limit : Option ℕ

-- `claims.valid_range && tstzrange(from, to, '[)')`; an empty range overlaps nothing.
abbrev pub overlaps_range : ℕ → ℕ → ClaimRow → Bool
overlaps_range from to c =
    ltb from to
    && ltb c.valid_from to
    && elim c.valid_to [ none ↦ true | some end ↦ ltb from end && ltb c.valid_from end ]

abbrev pub was_believed : ClaimStatus → Bool
was_believed accepted = true
was_believed superseded = true
was_believed expired = true
was_believed _ = false

abbrev pub is_open_at : ℕ → Option ℕ → Bool
is_open_at t none = true
is_open_at t (some end) = ltb t end

unfoldable pub time_predicate : TimeSpec → ClaimRow → Bool
time_predicate current c = not (is_some c.valid_to) && same_status c.status accepted
time_predicate (as_of t) c = leb c.recorded_at t && is_open_at t c.valid_to && was_believed c.status
time_predicate (during from to) c = overlaps_range from to c

-- A filter that is absent or empty adds no clause.
abbrev pub among {ℓ} : {A : Type ℓ} → (A → A → Bool) → Option (List A) → A → Bool
among same none a = true
among same (some []) a = true
among same (some (x ∷ xs)) a = any (λ y. same y a) (x ∷ xs)

abbrev pub time_of : ClaimListFilters → TimeSpec
time_of f = elim f.time [ none ↦ current | some t ↦ t ]

-- The WHERE clause, on a row of the join.
unfoldable pub is_listed : Database → ClaimListFilters → ClaimRow → Bool
unfolding time_predicate
is_listed db f c =
    any (λ (s : ScopeRow). s.scope_id =? c.scope_id) db.scopes
    && (c.tenant_id =? f.tenant_id)
    && contains f.scope_ids c.scope_id
    && time_predicate (time_of f) c
    && among (λ a b. kind_eq.test a b) f.kinds c.kind
    && among same_status f.statuses c.status
    && among (λ a b. string_eq.test a b) f.subjects c.subject
    && among (λ a b. string_eq.test a b) f.predicates c.predicate
    && among ◌=?◌ f.claim_ids c.claim_id

-- ORDER BY valid_from DESC, claim_id ASC.
abbrev pub is_listed_before : ClaimRow → ClaimRow → Bool
is_listed_before a b =
    ltb b.valid_from a.valid_from || ((a.valid_from =? b.valid_from) && leb a.claim_id b.claim_id)

abbrev pub insert_listed : ClaimRow → List ClaimRow → List ClaimRow
insert_listed c [] = c ∷ []
insert_listed c (x ∷ rest) =
    let later = insert_listed c rest in if is_listed_before c x then c ∷ x ∷ rest else x ∷ later

abbrev pub order_listed : List ClaimRow → List ClaimRow
order_listed [] = []
order_listed (c ∷ rest) = insert_listed c (order_listed rest)

abbrev pub list_limit : ClaimListFilters → ℕ
list_limit f = elim f.limit [ none ↦ 100 | some n ↦ n ]

-- A range with its ends the wrong way round is refused by the database: `none`.
abbrev pub is_bad_range : TimeSpec → Bool
is_bad_range (during from to) = ltb to from
is_bad_range _ = false

unfoldable pub list_claims : Database → ClaimListFilters → Option (List ClaimRow)
unfolding is_listed
list_claims db f =
    if is_bad_range (time_of f)
    then none
    else some (take (list_limit f) (order_listed (filter (is_listed db f) db.claims)))

unfoldable pub read_claim : Database → ℕ → Option ClaimRow
read_claim db id =
    find
      (λ (c : ClaimRow).
        (c.claim_id =? id) && any (λ (s : ScopeRow). s.scope_id =? c.scope_id) db.scopes)
      db.claims
