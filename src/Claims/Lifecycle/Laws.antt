-- ===== src/Claims/Lifecycle/Laws.antt =====
-- The mapping of statuses to outcomes agrees with the database guard, so a status change is refused
-- only for its edge or its interval.
use verity_mem.Prelude.{
  ℕ, ◌≡◌, ◌≢◌, refl, Bool, true, false, Option, none, some, List, ◌∷◌, any, find, find-true,
  any_of-find, ◌=?◌, arith, inl, inr, ◌⊎◌, subst, Option-cases, All, All₂,
}
use verity_mem.Contracts.Vocabulary.{ClaimStatus, proposed}
use verity_mem.Store.{
  ClaimRow, DecisionRow, Database, Result, DbError, duplicate_key, ok, err, undecided_transition,
  Result-cases,
}
use verity_mem.Store.Triggers.{decisive_outcome, is_decided, update_error, valid_claim_transition}
use verity_mem.Store.Update.{with_status, update_claims}
use verity_mem.Store.Update.Laws.{update_claims-All₂, update_claims-eq-err}
use verity_mem.Store.Invariant.{
  IsSound, IsBacked, All-IsBacked-cons, update_claims-IsBacked, update_claims-IsOrdered,
}
use verity_mem.Claims.Lifecycle.{
  outcome_for_status, StatusChange, DecisionContext, insert_decision_row, decide_change, end_for,
  apply_status,
}

-- The outcome that the code records for a status is the one that the guard of the database asks for.
pub outcome_for_status-eq-decisive : (s : ClaimStatus) → outcome_for_status s ≡ decisive_outcome s
unfolding outcome_for_status decisive_outcome
outcome_for_status-eq-decisive proposed = refl
outcome_for_status-eq-decisive _ = refl

-- The row that `applyStatus` decides on is the one that the guard looks for.
decide_change-decided :
    (db : Database) (change : StatusChange) (context : DecisionContext) (ds : List DecisionRow)
    → decide_change db change context ≡ ok ds
    → any (λ (c : ClaimRow). c.claim_id =? change.claim_id) db.claims ≡ true
    → is_decided ds change.claim_id change.status ≡ true
unfolding decide_change insert_decision_row is_decided
decide_change-decided db change context ds h known =
    elim (Option-cases (find (λ (c : ClaimRow). c.claim_id =? change.claim_id) db.claims)) [
      | inl missing ↦ cc (any_of-find _ db.claims missing)
      | inr (c, found) ↦
          ground (arith, find-true _ db.claims found, outcome_for_status-eq-decisive change.status)
    ]

decide_change-err :
    (db : Database) (change : StatusChange) (context : DecisionContext) (e : DbError)
    → decide_change db change context ≡ err e
    → e ≡ duplicate_key
unfolding decide_change insert_decision_row
decide_change-err db change context e h = ground arith

undecided-lost :
    (ds : List DecisionRow) (row : ClaimRow) (status : ClaimStatus) (end : Option ℕ)
    → update_error ds row status end ≡ some undecided_transition
    → is_decided ds row.claim_id status ≡ false
unfolding update_error
undecided-lost ds row status end h = ground arith

-- `applyStatus` is never refused for want of a decision: the outcome that it records for a status
-- is the one that the guard asks for.
pub apply_status-ne-undecided :
    (now : ℕ) (db : Database) (change : StatusChange) (context : DecisionContext)
    → apply_status now db change context ≢ err undecided_transition
unfolding apply_status
apply_status-ne-undecided now db change context h =
    elim (Result-cases (decide_change db change context)) [
      | inr (e, bad) ↦ ground (arith, decide_change-err db change context e bad)
      | inl (ds, decided) ↦
          elim (Result-cases (update_claims ds matches change.status end db.claims)) [
            | inl (rows, fine) ↦ ground arith
            | inr (e, bad) ↦
                let (row, on, known, why) =
                  update_claims-eq-err ds matches change.status end db.claims e bad in
                ground (
                  arith,
                  undecided-lost ds row change.status (end row),
                  decide_change-decided db change context ds decided known,
                )
          ]
    ]
  where
    matches : ClaimRow → Bool
    matches row = row.claim_id =? change.claim_id

    end : ClaimRow → Option ℕ
    end = end_for now change

-- What a successful `applyStatus` did to one row of `claims`.
abbrev pub Changed : ℕ → StatusChange → ClaimRow → ClaimRow → Type 0
Changed now change row row' =
    ((row.claim_id ≢ change.claim_id) × (row' ≡ row))
    ⊎ ((row.claim_id ≡ change.claim_id)
        × ((change.status ≡ row.status) ⊎ (valid_claim_transition row.status change.status ≡ true))
        × (row' ≡ with_status row change.status (end_for now change row)))

guarded-Changed :
    (now : ℕ) (ds : List DecisionRow) (change : StatusChange) (row : ClaimRow)
    → (row.claim_id =? change.claim_id) ≡ true
    → update_error ds row change.status (end_for now change row) ≡ none
    → Changed now change row (with_status row change.status (end_for now change row))
unfolding update_error
guarded-Changed now ds change row on fine = inr (ground arith, ground arith, refl)

abbrev updated : ℕ → StatusChange → List DecisionRow → List ClaimRow → Result (List ClaimRow)
updated now change ds rows =
    update_claims ds (λ row. row.claim_id =? change.claim_id) change.status (end_for now change)
      rows

-- The two statements that a successful `applyStatus` has run through.
record Runs (now : ℕ) (db db' : Database) (change : StatusChange) (context : DecisionContext)
    : Type 0 where
  decided : decide_change db change context ≡ ok db'.decisions
  moved : updated now change db'.decisions db.claims ≡ ok db'.claims

apply_status-Runs :
    (now : ℕ) (db db' : Database) (change : StatusChange) (context : DecisionContext)
    → apply_status now db change context ≡ ok db'
    → Runs now db db' change context
unfolding apply_status
apply_status-Runs now db db' change context h =
    elim (Result-cases (decide_change db change context)) [
      | inr (e, bad) ↦ ground arith
      | inl (ds, fine) ↦ elim (Result-cases (updated now change ds db.claims)) [
        | inr (e, bad) ↦ ground arith
        | inl (rows, fine') ↦ record { decided = ground arith; moved = ground arith }
      ]
    ]

-- A successful `applyStatus` changes the row of its claim only, there along a legal edge of the
-- lifecycle, and sets nothing but the status and the end that it computes.
pub apply_status-Changed :
    (now : ℕ) (db db' : Database) (change : StatusChange) (context : DecisionContext)
    → apply_status now db change context ≡ ok db'
    → All₂ (Changed now change) db.claims db'.claims
apply_status-Changed now db db' change context h =
    let r = apply_status-Runs now db db' change context h in
    update_claims-All₂ db'.decisions (λ row. row.claim_id =? change.claim_id) change.status
      (end_for now change) (Changed now change) (λ row off. inl (ground arith, refl))
      (λ row on fine. guarded-Changed now db'.decisions change row on fine) db.claims db'.claims
      r.moved

insert_decision_row-IsBacked :
    (d : DecisionRow) (rows ds : List DecisionRow) (claims : List ClaimRow)
    → insert_decision_row d rows ≡ ok ds
    → All (IsBacked rows) claims
    → All (IsBacked ds) claims
unfolding insert_decision_row
insert_decision_row-IsBacked d rows ds claims h v =
    let e : d ∷ rows ≡ ds = ground arith in
    subst (λ x. All (IsBacked x) claims) e (All-IsBacked-cons d rows claims v)

decide_change-IsBacked :
    (db : Database) (change : StatusChange) (context : DecisionContext) (ds : List DecisionRow)
    → decide_change db change context ≡ ok ds
    → All (IsBacked db.decisions) db.claims
    → All (IsBacked ds) db.claims
unfolding decide_change
decide_change-IsBacked db change context ds h v =
    elim (Option-cases (find (λ (c : ClaimRow). c.claim_id =? change.claim_id) db.claims)) [
      | inl missing ↦
          let e : db.decisions ≡ ds = ground arith in subst (λ x. All (IsBacked x) db.claims) e v
      | inr (c, found) ↦
          insert_decision_row-IsBacked _ db.decisions ds db.claims (rw (found, decide_change) at h)
            v
    ]

-- A successful `applyStatus` on a sound state leaves a sound state: every accepted claim has a
-- decision that promoted it, and every closed validity interval is not empty.
pub apply_status-IsSound :
    (now : ℕ) (db db' : Database) (change : StatusChange) (context : DecisionContext)
    → IsSound db
    → apply_status now db change context ≡ ok db'
    → IsSound db'
apply_status-IsSound now db db' change context v h =
    let r = apply_status-Runs now db db' change context h in
    let matches = λ (row : ClaimRow). row.claim_id =? change.claim_id in
    record {
      backed =
          update_claims-IsBacked db'.decisions matches change.status (end_for now change) db.claims
            db'.claims r.moved
            (decide_change-IsBacked db change context db'.decisions r.decided v.backed);
      ordered =
          update_claims-IsOrdered db'.decisions matches change.status (end_for now change) db.claims
            db'.claims r.moved v.ordered;
    }
