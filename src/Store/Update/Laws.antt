-- ===== src/Store/Update/Laws.antt =====
-- What an accepted UPDATE of `claims` may have done: each row is as before, or passed the guards.
use verity_mem.Prelude.{
  arith, any, some, ℕ, ◌≡◌, Bool, true, false, Option, none, List, [], ◌∷◌, All₂, Bool-cases,
  Option-cases, inl, inr, subst, if◌then◌else◌,
}
use verity_mem.Contracts.Vocabulary.{ClaimStatus}
use verity_mem.Store.{
  DbError, err, Result-cases, ClaimRow, DecisionRow, ok, >>=-eq-ok, ok_injective,
}
use verity_mem.Store.Triggers.{update_error}
use verity_mem.Store.Update.{with_status, guarded, update_claims}

module _ (ds : List DecisionRow) (matches : ClaimRow → Bool) (status : ClaimStatus)
    (end : ClaimRow → Option ℕ) where
  -- One row of the statement.
  abbrev pub Touched : ClaimRow → ClaimRow → Type 0
  Touched row row' =
      (matches row ≡ true)
      × (update_error ds row status (end row) ≡ none)
      × (row' ≡ with_status row status (end row))

  module _ (R : ClaimRow → ClaimRow → Type 0)
      (same : (row : ClaimRow) → matches row ≡ false → R row row)
      (touched : (row : ClaimRow)
        → matches row ≡ true
        → update_error ds row status (end row) ≡ none
        → R row (with_status row status (end row))) where
    guarded-related :
        (row row' : ClaimRow)
        → matches row ≡ true
        → guarded ds row status (end row) ≡ ok row'
        → R row row'
    guarded-related row row' on h = elim (Option-cases (update_error ds row status (end row))) [
      | inl e ↦ rw (← ok_injective (rw (e, guarded) at h)) (touched row on e)
      | inr (x, e) ↦ cc (rw (e, guarded) at h)
    ]

    row-related :
        (row row' : ClaimRow)
        → (if matches row then guarded ds row status (end row) else ok row) ≡ ok row'
        → R row row'
    row-related row row' h = elim (Bool-cases (matches row)) [
      | inl on ↦ guarded-related row row' on (rw on at h)
      | inr off ↦ rw (← ok_injective (rw off at h)) (same row off)
    ]

    pub update_claims-All₂ :
        (rows rows' : List ClaimRow)
        → update_claims ds matches status end rows ≡ ok rows'
        → All₂ R rows rows'
    unfolding update_claims
    update_claims-All₂ [] [] h = tt
    update_claims-All₂ [] (y ∷ ys) h = cc
    update_claims-All₂ (row ∷ rows) rows' h =
        let (row', here, later) = >>=-eq-ok _ _ h in
        let (rest, there, whole) = >>=-eq-ok _ _ later in
        let both : All₂ R (row ∷ rows) (row' ∷ rest) =
          (row-related row row' here, update_claims-All₂ rows rest there) in
        subst (All₂ R (row ∷ rows)) (ok_injective whole) both

-- A refused UPDATE names a matching row that a guard refused.
pub update_claims-eq-err :
    (ds : List DecisionRow) (matches : ClaimRow → Bool) (status : ClaimStatus)
    (end : ClaimRow → Option ℕ) (rows : List ClaimRow) (e : DbError)
    → update_claims ds matches status end rows ≡ err e
    → (row : ClaimRow) × (matches row ≡ true)
      × (any matches rows ≡ true)
      × (update_error ds row status (end row) ≡ some e)
unfolding update_claims
update_claims-eq-err ds matches status end [] e h = cc
update_claims-eq-err ds matches status end (row ∷ rows) e h = elim (Bool-cases (matches row)) [
  | inr off ↦ elim (Result-cases (update_claims ds matches status end rows)) [
    | inl (rows', fine) ↦ ground arith
    | inr (e', bad) ↦
        let (r, on, some_on, why) = update_claims-eq-err ds matches status end rows e' bad in
        (r, on, ground arith, ground arith)
  ]
  | inl on ↦ elim (Option-cases (update_error ds row status (end row))) [
    | inr (e', why) ↦ (row, on, ground arith, ground arith)
    | inl fine ↦ elim (Result-cases (update_claims ds matches status end rows)) [
      | inl (rows', fine') ↦ ground arith
      | inr (e', bad) ↦
          let (r, on', some_on, why) = update_claims-eq-err ds matches status end rows e' bad in
          (r, on', ground arith, ground arith)
    ]
  ]
]
