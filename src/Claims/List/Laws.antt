-- ===== src/Claims/List/Laws.antt =====
-- What a listing of claims holds.
use verity_mem.Prelude.{
  zero, suc, ℕ, ◌≤◌, ◌<◌, ◌≡◌, refl, subst, ◌∙◌, inl, inr, ◌⊎◌, Bool, true, false, ◌&&◌, some, List,
  [], ◌∷◌, any, filter, take, drop, length, ◌=?◌, Bool-cases, All, All-map, All-take, All-filter,
  length-take-le, any-take-drop, length-take-full, any-filter, arith,
}
use verity_mem.Store.{ClaimRow, Database}
use verity_mem.Claims.List.Matching.{Matches, is_listed_iff}
use verity_mem.Claims.List.{
  ClaimListFilters, is_listed, is_listed_before, insert_listed, order_listed, list_limit,
  list_claims, is_bad_range, time_of,
}

All-insert_listed :
    (P : ClaimRow → Type 0) (c : ClaimRow) (rows : List ClaimRow)
    → P c
    → All P rows
    → All P (insert_listed c rows)
All-insert_listed P c [] pc h = (pc, tt)
All-insert_listed P c (x ∷ rows) pc h = elim (Bool-cases (is_listed_before c x)) [
  | inl first ↦ rw first (pc, h)
  | inr later ↦ rw later (h.0, All-insert_listed P c rows pc h.1)
]

All-order_listed :
    (P : ClaimRow → Type 0) (rows : List ClaimRow) → All P rows → All P (order_listed rows)
All-order_listed P [] h = tt
All-order_listed P (c ∷ rows) h =
    All-insert_listed P c (order_listed rows) h.0 (All-order_listed P rows h.1)

any-insert_listed :
    (p : ClaimRow → Bool) (c : ClaimRow) (rows : List ClaimRow)
    → any p (insert_listed c rows) ≡ any p (c ∷ rows)
any-insert_listed p c [] = refl
any-insert_listed p c (x ∷ rows) = elim (Bool-cases (is_listed_before c x)) [
  | inl first ↦ rw first refl
  | inr later ↦ rw later (ground (arith, any-insert_listed p c rows))
]

any-order_listed :
    (p : ClaimRow → Bool) (rows : List ClaimRow) → any p (order_listed rows) ≡ any p rows
any-order_listed p [] = refl
any-order_listed p (c ∷ rows) =
    any-insert_listed p c (order_listed rows) ∙ ground (arith, any-order_listed p rows)

-- The row is not after any that follow.
abbrev pub Precedes : ClaimRow → ClaimRow → Type 0
Precedes a b =
    (b.valid_from < a.valid_from) ⊎ ((a.valid_from ≡ b.valid_from) × (a.claim_id ≤ b.claim_id))

abbrev pub IsOrdered : List ClaimRow → Type 0
IsOrdered [] = Unit
IsOrdered (c ∷ rows) = All (Precedes c) rows × IsOrdered rows

Precedes-All :
    (a b : ClaimRow) (rows : List ClaimRow)
    → Precedes a b
    → All (Precedes b) rows
    → All (Precedes a) rows
Precedes-All a b [] h k = tt
Precedes-All a b (c ∷ rows) h k =
    let next = k.0 in (ground (arith, h, next), Precedes-All a b rows h k.1)

insert_listed-IsOrdered :
    (c : ClaimRow) (rows : List ClaimRow) → IsOrdered rows → IsOrdered (insert_listed c rows)
insert_listed-IsOrdered c [] h = (tt, tt)
insert_listed-IsOrdered c (x ∷ rows) h = elim (Bool-cases (is_listed_before c x)) [
  | inl first ↦
      let near : Precedes c x = ground (arith, first) in
      rw first ((near, Precedes-All c x rows near h.0), h)
  | inr later ↦
      let near : Precedes x c = ground (arith, later) in
      rw later (All-insert_listed (Precedes x) c rows near h.0, insert_listed-IsOrdered c rows h.1)
]

order_listed-IsOrdered : (rows : List ClaimRow) → IsOrdered (order_listed rows)
order_listed-IsOrdered [] = tt
order_listed-IsOrdered (c ∷ rows) =
    insert_listed-IsOrdered c (order_listed rows) (order_listed-IsOrdered rows)

take-IsOrdered : (n : ℕ) (rows : List ClaimRow) → IsOrdered rows → IsOrdered (take n rows)
take-IsOrdered zero rows h = tt
take-IsOrdered (suc n) [] h = tt
take-IsOrdered (suc n) (c ∷ rows) h = (All-take (Precedes c) n rows h.0, take-IsOrdered n rows h.1)

list_claims-shape :
    (db : Database) (f : ClaimListFilters) (rows : List ClaimRow)
    → list_claims db f ≡ some rows
    → take (list_limit f) (order_listed (filter (is_listed db f) db.claims)) ≡ rows
unfolding list_claims
list_claims-shape db f rows h = elim (Bool-cases (is_bad_range (time_of f))) [
  | inl bad ↦ absurd (cc (rw (bad, list_claims) at h))
  | inr fine ↦ cc (rw (fine, list_claims) at h)
]

listed_self :
    (p : ClaimRow → Bool) (rows : List ClaimRow)
    → All
        (λ (c : ClaimRow).
          (p c ≡ false) ⊎ (any (λ d. p d && (d.claim_id =? c.claim_id)) rows ≡ true))
        rows
listed_self p [] = tt
listed_self p (c ∷ rows) = (
  elim (Bool-cases (p c)) [ inr off ↦ inl off | inl on ↦ inr (rw on (ground arith)) ],
  All-map _ _ (λ d h. elim h [ inl off ↦ inl off | inr held ↦ inr (ground (arith, held)) ]) rows
      (listed_self p rows),
)

-- The stored row does not match the filter, or its id is in the answer, or the answer is full.
abbrev pub IsReturned : Database → ClaimListFilters → List ClaimRow → ClaimRow → Type 0
IsReturned db f rows c =
    (¬ Matches db f c)
    ⊎ (any (λ (d : ClaimRow). d.claim_id =? c.claim_id) rows ≡ true)
    ⊎ (length rows ≡ list_limit f)

module _ (db : Database) (f : ClaimListFilters) where
  abbrev in_order : List ClaimRow
  in_order = order_listed (filter (is_listed db f) db.claims)

  taken-IsReturned :
      (c : ClaimRow)
      → (is_listed db f c ≡ false)
        ⊎ (any (λ d. is_listed db f d && (d.claim_id =? c.claim_id)) db.claims ≡ true)
      → IsReturned db f (take (list_limit f) in_order) c
  taken-IsReturned c (inl off) = inl (λ m. let on = (is_listed_iff db f c).1 m in cc (on, off))
  taken-IsReturned c (inr held) =
      let test : ClaimRow → Bool = λ d. d.claim_id =? c.claim_id in
      let there : any test in_order ≡ true =
        any-order_listed test (filter (is_listed db f) db.claims)
        ∙ any-filter test (is_listed db f) db.claims
        ∙ held in
      let split = any-take-drop test (list_limit f) in_order in
      elim (Bool-cases (any test (take (list_limit f) in_order))) [
        | inl here ↦ inr (inl here)
        | inr absent ↦ elim (Bool-cases (any test (drop (list_limit f) in_order))) [
          | inl left ↦ inr (inr (length-take-full test (list_limit f) in_order left))
          | inr gone ↦ absurd (cc (there, split, rw (absent, gone) at split))
        ]
      ]

  -- What a listing owes to its filter.
  abbrev pub IsListing : List ClaimRow → Type 0
  IsListing rows =
      (length rows ≤ list_limit f)
      × (All (Matches db f) rows × (IsOrdered rows × All (IsReturned db f rows) db.claims))

  -- A listing that the database accepts has at most `limit` claims, 100 when none is asked for. Each
  -- is of the tenant, in a scope that is stored and asked for; it is open and accepted, or was
  -- recorded by an instant, still open at it and believed at some time, or overlaps a range, as the
  -- filter asks; and its kind, status, subject, predicate and id are among those given, where some
  -- are. They are in order, the latest `valid_from` first and ties by id. And the id of every stored
  -- claim of which all this holds is in the listing, unless the listing is full.
  pub list_claims-IsComplete :
      (rows : List ClaimRow) → list_claims db f ≡ some rows → IsListing rows
  list_claims-IsComplete rows h =
      let matching = filter (is_listed db f) db.claims in
      let sound =
        All-map (λ c. is_listed db f c ≡ true) (Matches db f) (λ c on. (is_listed_iff db f c).0 on)
          matching (All-filter (is_listed db f) db.claims) in
      subst IsListing (list_claims-shape db f rows h) (
        length-take-le (list_limit f) in_order,
        (
          All-take (Matches db f) (list_limit f) in_order
              (All-order_listed (Matches db f) matching sound),
          (
            take-IsOrdered (list_limit f) in_order (order_listed-IsOrdered matching),
            All-map _ _ taken-IsReturned db.claims (listed_self (is_listed db f) db.claims),
          ),
        ),
      )
