-- ===== src/Retention/Revoke/Total.antt =====
-- When the guards of the database let a list of revocations pass.
use verity_mem.Prelude.{
  ℕ, suc, ◌<◌, ◌≡◌, refl, sym, subst, inl, inr, String, Bool, true, false, ◌&&◌, List, [], ◌∷◌, map,
  find, any, all, nat_eq, ◌=?◌, if◌then◌else◌, Bool-cases, Option-cases, arith, any_of-find,
  find-true, All, All-map, option_eq,
}
use verity_mem.Contracts.Vocabulary.{ClaimStatus}
use verity_mem.Store.{ClaimRow, DecisionRow, Database, Result, ok, err, Result-cases, ok_injective}
use verity_mem.Store.Triggers.{
  update_error, valid_claim_transition, is_decided, decisive_outcome, interval_ok,
}
use verity_mem.Store.Update.{guarded, update_claims}
use verity_mem.Claims.Lifecycle.{insert_decision_row}
use verity_mem.Retention.Revoke.{
  is_unrevoked, revocable, closing, revocation_row, revoke_row, revoke_claim, revoke_claims,
}
use verity_mem.Retention.Revoke.Laws.{closed, is_due, revoke_claim-claims}

abbrev pub is_ok {ℓ} : {A : Type ℓ} → Result A → Bool
is_ok (ok a) = true
is_ok (err e) = false

-- The lifecycle lets the claim end as revoked, and its interval is not empty then.
abbrev pub is_closable : ℕ → ClaimRow → Bool
is_closable now c =
    valid_claim_transition c.status ClaimStatus.revoked && interval_ok c.valid_from (closing now c)

abbrev passes : ℕ → (ClaimRow → Bool) → ClaimRow → Bool
passes now matches c = if matches c then is_closable now c else true

guarded-ok :
    (ds : List DecisionRow) (now : ℕ) (c : ClaimRow)
    → is_unrevoked c ≡ true
    → is_decided ds c.claim_id ClaimStatus.revoked ≡ true
    → is_ok (guarded ds c ClaimStatus.revoked (closing now c)) ≡ is_closable now c
unfolding update_error
guarded-ok ds now c live decided = ground arith

update_claims-ok :
    (ds : List DecisionRow) (now claim : ℕ) (rows : List ClaimRow)
    → is_decided ds claim ClaimStatus.revoked ≡ true
    → is_ok (update_claims ds (revocable claim) ClaimStatus.revoked (closing now) rows)
      ≡ all (passes now (revocable claim)) rows
unfolding update_claims
update_claims-ok ds now claim [] decided = refl
update_claims-ok ds now claim (c ∷ rows) decided =
    let rest = update_claims-ok ds now claim rows decided in
    elim (Bool-cases (revocable claim c)) [
      | inr off ↦
          rw off
            (elim (Result-cases
              (update_claims ds (revocable claim) ClaimStatus.revoked (closing now) rows)) [
                | inl (a, e) ↦ ground arith
                | inr (x, e) ↦ ground arith
              ])
      | inl on ↦
          let same : c.claim_id ≡ claim = ground arith in
          let here = guarded-ok ds now c (ground arith) (rw same decided) in
          rw on (elim (Result-cases (guarded ds c ClaimStatus.revoked (closing now c))) [
            | inr (x, e) ↦ ground arith
            | inl (a, e) ↦
                elim (Result-cases
                  (update_claims ds (revocable claim) ClaimStatus.revoked (closing now) rows)) [
                    | inl (b, e') ↦ ground arith
                    | inr (x, e') ↦ ground arith
                  ]
          ])
    ]

-- Every decision identifier in the table is below the next one.
abbrev pub IsFresh : ℕ → List DecisionRow → Type 0
IsFresh id ds = All (λ (d : DecisionRow). d.decision_id < id) ds

fresh-absent :
    (id : ℕ) (ds : List DecisionRow) → IsFresh id ds → any (λ d. d.decision_id =? id) ds ≡ false
fresh-absent id [] h = refl
fresh-absent id (d ∷ ds) h = let rest = fresh-absent id ds h.1 in let below = h.0 in ground arith

insert-fresh :
    (row : DecisionRow) (ds : List DecisionRow)
    → any (λ d. d.decision_id =? row.decision_id) ds ≡ false
    → insert_decision_row row ds ≡ ok (row ∷ ds)
unfolding insert_decision_row
insert-fresh row ds h = rw h refl

revocation-decides :
    (approver : String) (id : ℕ) (c : ClaimRow) (claim : ℕ) (ds : List DecisionRow)
    → c.claim_id ≡ claim
    → is_decided (revocation_row approver id c ∷ ds) claim ClaimStatus.revoked ≡ true
unfolding is_decided decisive_outcome
revocation-decides approver id c claim ds same = ground arith

revoke_row-ok :
    (now : ℕ) (approver : String) (id claim : ℕ) (db : Database) (c : ClaimRow)
    → IsFresh id db.decisions
    → c.claim_id ≡ claim
    → is_ok (revoke_row now approver id claim db c) ≡ all (passes now (revocable claim)) db.claims
unfolding revoke_row
revoke_row-ok now approver id claim db c fresh same =
    let ds = revocation_row approver id c ∷ db.decisions in
    let new : insert_decision_row (revocation_row approver id c) db.decisions ≡ ok ds =
      insert-fresh (revocation_row approver id c) db.decisions
        (fresh-absent id db.decisions fresh) in
    let decided : is_decided ds claim ClaimStatus.revoked ≡ true =
      revocation-decides approver id c claim db.decisions same in
    let value = update_claims-ok ds now claim db.claims decided in
    elim (Result-cases
      (update_claims ds (revocable claim) ClaimStatus.revoked (closing now) db.claims)) [
        | inl (a, e) ↦ rw (revoke_row, new, e) (rw e at value)
        | inr (x, e) ↦ rw (revoke_row, new, e) (rw e at value)
      ]

all-passes_none :
    (now : ℕ) (matches : ClaimRow → Bool) (rows : List ClaimRow)
    → any matches rows ≡ false
    → all (passes now matches) rows ≡ true
all-passes_none now matches [] h = refl
all-passes_none now matches (c ∷ rows) h = ground (arith, all-passes_none now matches rows)

revoke_claim-ok :
    (now : ℕ) (approver : String) (id claim : ℕ) (db : Database)
    → IsFresh id db.decisions
    → is_ok (revoke_claim now approver id claim db) ≡ all (passes now (revocable claim)) db.claims
unfolding revoke_claim
revoke_claim-ok now approver id claim db fresh =
    elim (Option-cases (find (revocable claim) db.claims)) [
      | inl miss ↦
          let absent = any_of-find (revocable claim) db.claims miss in
          rw (revoke_claim, miss) (sym (all-passes_none now (revocable claim) db.claims absent))
      | inr (c, hit) ↦
          let own : revocable claim c ≡ true = find-true (revocable claim) db.claims hit in
          let same : c.claim_id ≡ claim = ground arith in
          rw (revoke_claim, hit) (revoke_row-ok now approver id claim db c fresh same)
    ]

IsFresh-suc : (id : ℕ) (ds : List DecisionRow) → IsFresh id ds → IsFresh (suc id) ds
IsFresh-suc id ds h = All-map _ _ (λ d below. omega (arith, below)) ds h

revoke_row-IsFresh :
    (now : ℕ) (approver : String) (id claim : ℕ) (db : Database) (c : ClaimRow)
    (done : Database × ℕ)
    → IsFresh id db.decisions
    → revoke_row now approver id claim db c ≡ ok done
    → IsFresh (suc id) done.0.decisions
unfolding revoke_row
revoke_row-IsFresh now approver id claim db c done fresh h =
    let ds = revocation_row approver id c ∷ db.decisions in
    let new : insert_decision_row (revocation_row approver id c) db.decisions ≡ ok ds =
      insert-fresh (revocation_row approver id c) db.decisions
        (fresh-absent id db.decisions fresh) in
    elim (Result-cases
      (update_claims ds (revocable claim) ClaimStatus.revoked (closing now) db.claims)) [
        | inr (e, two) ↦ absurd (cc (rw (revoke_row, new, two) at h))
        | inl (claims, two) ↦
            subst (λ (x : Database × ℕ). IsFresh (suc id) x.0.decisions)
              (ok_injective (rw (revoke_row, new, two) at h))
              (omega arith, IsFresh-suc id db.decisions fresh)
      ]

revoke_claim-IsFresh :
    (now : ℕ) (approver : String) (id claim : ℕ) (db : Database) (done : Database × ℕ)
    → IsFresh id db.decisions
    → revoke_claim now approver id claim db ≡ ok done
    → IsFresh (suc id) done.0.decisions
unfolding revoke_claim
revoke_claim-IsFresh now approver id claim db done fresh h =
    elim (Option-cases (find (revocable claim) db.claims)) [
      | inl miss ↦
          subst (λ (x : Database × ℕ). IsFresh (suc id) x.0.decisions)
            (ok_injective (rw (revoke_claim, miss) at h)) (IsFresh-suc id db.decisions fresh)
      | inr (c, hit) ↦
          revoke_row-IsFresh now approver id claim db c done fresh (rw (revoke_claim, hit) at h)
    ]

passes-cons :
    (now claim : ℕ) (ids : List ℕ) (c : ClaimRow)
    → passes now (is_due (claim ∷ ids)) c
      ≡ (passes now (revocable claim) c && passes now (is_due ids) (closed now (revocable claim) c))
passes-cons now claim ids c = ground arith

all-passes_cons :
    (now claim : ℕ) (ids : List ℕ) (rows : List ClaimRow)
    → all (passes now (is_due (claim ∷ ids))) rows ≡ (
        all (passes now (revocable claim)) rows
        && all (passes now (is_due ids)) (map (closed now (revocable claim)) rows))
all-passes_cons now claim ids [] = refl
all-passes_cons now claim ids (c ∷ rows) =
    ground (arith, passes-cons now claim ids c, all-passes_cons now claim ids rows)

all-passes_nil : (now : ℕ) (rows : List ClaimRow) → all (passes now (is_due [])) rows ≡ true
all-passes_nil now [] = refl
all-passes_nil now (c ∷ rows) = all-passes_nil now rows

-- With decision identifiers that no row has yet, revoking a list of claims returns exactly when each
-- claim on it that is not revoked yet can go to revoked and keeps an interval that is not empty: a
-- claim that is proposed, rejected or expired, or that starts only after the clock's instant, makes
-- the whole list fail.
pub revoke_claims-ok :
    (now : ℕ) (approver : String) (id : ℕ) (ids : List ℕ) (db : Database)
    → IsFresh id db.decisions
    → is_ok (revoke_claims now approver id ids db)
      ≡ all (λ c. if is_due ids c then is_closable now c else true) db.claims
unfolding revoke_claims
revoke_claims-ok now approver id [] db fresh = sym (all-passes_nil now db.claims)
revoke_claims-ok now approver id (claim ∷ ids) db fresh =
    let split = all-passes_cons now claim ids db.claims in
    let first = revoke_claim-ok now approver id claim db fresh in
    elim (Result-cases (revoke_claim now approver id claim db)) [
      | inr (x, e) ↦ rw (revoke_claims, e) (ground (arith, rw e at first))
      | inl (here, e) ↦
          let after = revoke_claim-claims now approver id claim db here e in
          let next = revoke_claim-IsFresh now approver id claim db here fresh e in
          let later = revoke_claims-ok now approver (suc id) ids here.0 next in
          elim (Result-cases (revoke_claims now approver (suc id) ids here.0)) [
            | inl (rest, e') ↦
                rw (revoke_claims, e, e') (ground (arith, rw e at first, rw (e', after) at later))
            | inr (x, e') ↦
                rw (revoke_claims, e, e') (ground (arith, rw e at first, rw (e', after) at later))
          ]
    ]
