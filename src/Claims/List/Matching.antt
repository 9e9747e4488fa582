-- ===== src/Claims/List/Matching.antt =====
-- What the WHERE clause of a listing asks of a claim, clause by clause.
use verity_mem.Prelude.{
  ℕ, ◌≤◌, ◌<◌, ◌≡◌, ◌↔◌, refl, ◌⊎◌, inl, inr, Bool, true, not, ◌&&◌, Option, none, some, List, [],
  ◌∷◌, any, contains, leb, ltb, ◌=?◌, =?_iff, nat_eq, string_eq, is_some, Bool-cases, arith,
}
use verity_mem.Contracts.Vocabulary.{
  ClaimStatus, accepted, superseded, expired, TimeSpec, current, as_of, during, kind_eq,
}
use verity_mem.Store.{ScopeRow, ClaimRow, Database}
use verity_mem.Store.Triggers.{same_status}
use verity_mem.Claims.List.{
  ClaimListFilters, time_predicate, was_believed, is_open_at, among, time_of, is_listed,
}

-- The interval has not ended at that time.
abbrev pub EndsAfter : ℕ → Option ℕ → Type 0
EndsAfter t none = Unit
EndsAfter t (some end) = t < end

abbrev pub WasBelieved : ClaimStatus → Type 0
WasBelieved s = (s ≡ accepted) ⊎ (s ≡ superseded) ⊎ (s ≡ expired)

-- The instants that both half-open intervals have are not none.
abbrev pub Overlaps : ℕ → ℕ → ℕ → Option ℕ → Type 0
Overlaps from to start none = (from < to) × (start < to)
Overlaps from to start (some end) = (from < to) × (start < to) × (from < end) × (start < end)

abbrev pub IsAt : TimeSpec → ClaimRow → Type 0
IsAt current c = (c.valid_to ≡ none) × (c.status ≡ accepted)
IsAt (as_of t) c = (c.recorded_at ≤ t) × EndsAfter t c.valid_to × WasBelieved c.status
IsAt (during from to) c = Overlaps from to c.valid_from c.valid_to

abbrev pub IsMember : {A : Type 0} → A → List A → Type 0
IsMember a [] = ⊥
IsMember a (x ∷ xs) = (x ≡ a) ⊎ IsMember a xs

-- A list that is not given, or is empty, asks nothing.
abbrev pub IsAmong : {A : Type 0} → Option (List A) → A → Type 0
IsAmong none a = Unit
IsAmong (some []) a = Unit
IsAmong (some (x ∷ xs)) a = IsMember a (x ∷ xs)

-- The claim is of the tenant, in a scope that is stored and asked for, and all that is asked of its
-- time, kind, status, subject, predicate and id holds.
pub record Matches (db : Database) (f : ClaimListFilters) (c : ClaimRow) : Type 0 where
  pub scope_stored : any (λ (s : ScopeRow). s.scope_id =? c.scope_id) db.scopes ≡ true
  pub tenant : c.tenant_id ≡ f.tenant_id
  pub scope : IsMember c.scope_id f.scope_ids
  pub time : IsAt (time_of f) c
  pub kind : IsAmong f.kinds c.kind
  pub status : IsAmong f.statuses c.status
  pub subject : IsAmong f.subjects c.subject
  pub predicate : IsAmong f.predicates c.predicate
  pub claim_id : IsAmong f.claim_ids c.claim_id

same_status_iff : (a b : ClaimStatus) → (same_status a b ≡ true) ↔ (a ≡ b)
same_status_iff a b = (λ h. ground (arith, h), λ e. ground (arith, e))

module _ {A : Type 0} (same : A → A → Bool)
    (decides : (x y : A) → (same x y ≡ true) ↔ (x ≡ y)) where
  any-IsMember : (a : A) (xs : List A) → (any (λ x. same x a) xs ≡ true) ↔ IsMember a xs
  any-IsMember a [] = (λ h. absurd (cc h), λ h. absurd h)
  any-IsMember a (x ∷ xs) =
      let rest = any-IsMember a xs in
      (
        λ h. elim (Bool-cases (same x a)) [
          | inl hit ↦ inl ((decides x a).0 hit)
          | inr miss ↦ inr (rest.0 (rw miss at h))
        ],
        λ h. elim h [
          | inl e ↦ let hit = (decides x a).1 e in rw hit refl
          | inr later ↦ let k = rest.1 later in ground (arith, k)
        ],
      )

  among_iff : (asked : Option (List A)) (a : A) → (among same asked a ≡ true) ↔ IsAmong asked a
  among_iff none a = (λ h. tt, λ h. refl)
  among_iff (some []) a = (λ h. tt, λ h. refl)
  among_iff (some (x ∷ xs)) a = any-IsMember a (x ∷ xs)

open_iff : (t : ℕ) (end : Option ℕ) → (is_open_at t end ≡ true) ↔ EndsAfter t end
open_iff t none = (λ h. tt, λ h. refl)
open_iff t (some end) = (λ h. ground (arith, h), λ h. ground (arith, h))

believed_iff : (s : ClaimStatus) → (was_believed s ≡ true) ↔ WasBelieved s
believed_iff s = (λ h. ground (arith, h), λ h. ground (arith, h))

contains_iff : (xs : List ℕ) (a : ℕ) → (contains xs a ≡ true) ↔ IsMember a xs
contains_iff [] a = (λ h. absurd (cc h), λ h. absurd h)
contains_iff (x ∷ xs) a =
    let rest = contains_iff xs a in
    (
      λ h. elim (Bool-cases (x =? a)) [
        | inl hit ↦ inl ((=?_iff x a).0 hit)
        | inr miss ↦ inr (rest.0 (rw miss at h))
      ],
      λ h. elim h [
        | inl e ↦ let hit = (=?_iff x a).1 e in rw hit refl
        | inr later ↦ let k = rest.1 later in ground (arith, k)
      ],
    )

none_iff : (end : Option ℕ) → (not (is_some end) ≡ true) ↔ (end ≡ none)
none_iff none = (λ h. refl, λ h. refl)
none_iff (some end) = (λ h. absurd (cc h), λ h. absurd (cc h))

range_iff :
    (from to start : ℕ) (end : Option ℕ)
    → ((ltb from to
          && ltb start to
          && elim end as (λ x. Bool) [ none ↦ true | some e ↦ ltb from e && ltb start e ])
        ≡ true)
      ↔ Overlaps from to start end
range_iff from to start none =
    (λ h. (ground (arith, h), ground (arith, h)), λ (a, b). ground (arith, a, b))
range_iff from to start (some end) = (
  λ h. (ground (arith, h), ground (arith, h), ground (arith, h), ground (arith, h)),
  λ (a, b, c, d). ground (arith, a, b, c, d),
)

both : (a b : Bool) → (a && b) ≡ true → (a ≡ true) × (b ≡ true)
both a b h = (ground (arith, h), ground (arith, h))

joined : (a b : Bool) → a ≡ true → b ≡ true → (a && b) ≡ true
joined a b h k = ground (arith, h, k)

time_predicate_iff : (t : TimeSpec) (c : ClaimRow) → (time_predicate t c ≡ true) ↔ IsAt t c
unfolding time_predicate
time_predicate_iff current c = (
  λ h.
      let (a, b) = both _ _ h in
      ((none_iff c.valid_to).0 a, (same_status_iff c.status accepted).0 b),
  λ (a, b). joined _ _ ((none_iff c.valid_to).1 a) ((same_status_iff c.status accepted).1 b),
)
time_predicate_iff (as_of t) c = (
  λ h.
      let (rest, d) = both _ _ h in
      let (a, b) = both (leb c.recorded_at t) (is_open_at t c.valid_to) rest in
      (ground (arith, a), (open_iff t c.valid_to).0 b, (believed_iff c.status).0 d),
  λ (a, b, d).
      let early : leb c.recorded_at t ≡ true = ground (arith, a) in
      joined _ _ (joined _ _ early ((open_iff t c.valid_to).1 b)) ((believed_iff c.status).1 d),
)
time_predicate_iff (during from to) c = range_iff from to c.valid_from c.valid_to

module _ (db : Database) (f : ClaimListFilters) (c : ClaimRow) where
  listed-Matches : is_listed db f c ≡ true → Matches db f c
  unfolding is_listed
  listed-Matches h =
      let (h7, id) = both _ _ h in
      let (h6, predicate) = both _ _ h7 in
      let (h5, subject) = both _ _ h6 in
      let (h4, status) = both _ _ h5 in
      let (h3, kind) = both _ _ h4 in
      let (h2, time) = both _ _ h3 in
      let (h1, scope) = both _ _ h2 in
      let (scope_stored, tenant) = both _ _ h1 in
      record {
        scope_stored = scope_stored;
        tenant = (=?_iff c.tenant_id f.tenant_id).0 tenant;
        scope = (contains_iff f.scope_ids c.scope_id).0 scope;
        time = (time_predicate_iff (time_of f) c).0 time;
        kind = (among_iff _ kind_eq.test_iff f.kinds c.kind).0 kind;
        status = (among_iff _ same_status_iff f.statuses c.status).0 status;
        subject = (among_iff _ string_eq.test_iff f.subjects c.subject).0 subject;
        predicate = (among_iff _ string_eq.test_iff f.predicates c.predicate).0 predicate;
        claim_id = (among_iff _ =?_iff f.claim_ids c.claim_id).0 id;
      }

  Matches-listed : Matches db f c → is_listed db f c ≡ true
  unfolding is_listed
  Matches-listed m =
      let h1 = joined _ _ m.scope_stored ((=?_iff c.tenant_id f.tenant_id).1 m.tenant) in
      let h2 = joined _ _ h1 ((contains_iff f.scope_ids c.scope_id).1 m.scope) in
      let h3 = joined _ _ h2 ((time_predicate_iff (time_of f) c).1 m.time) in
      let h4 = joined _ _ h3 ((among_iff _ kind_eq.test_iff f.kinds c.kind).1 m.kind) in
      let h5 = joined _ _ h4 ((among_iff _ same_status_iff f.statuses c.status).1 m.status) in
      let h6 = joined _ _ h5 ((among_iff _ string_eq.test_iff f.subjects c.subject).1 m.subject) in
      let h7 =
        joined _ _ h6 ((among_iff _ string_eq.test_iff f.predicates c.predicate).1 m.predicate) in
      joined _ _ h7 ((among_iff _ =?_iff f.claim_ids c.claim_id).1 m.claim_id)

  -- The test of the listing decides exactly the clauses above.
  pub is_listed_iff : (is_listed db f c ≡ true) ↔ Matches db f c
  is_listed_iff = (listed-Matches, Matches-listed)
