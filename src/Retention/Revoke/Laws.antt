-- ===== src/Retention/Revoke/Laws.antt =====
-- What the revocations leave of the table of claims.
use verity_mem.Prelude.{
  ℕ, suc, ◌≡◌, refl, sym, subst, inl, inr, String, Bool, false, ◌&&◌, Option, List, [], ◌∷◌, map,
  find, any, contains, nat_eq, if◌then◌else◌, Bool-cases, Option-cases, arith, any_of-find,
}
use verity_mem.Contracts.Vocabulary.{ClaimStatus}
use verity_mem.Store.{ClaimRow, DecisionRow, Database, ok, >>=-eq-ok, ok_injective, Result-cases}
use verity_mem.Claims.Lifecycle.{insert_decision_row}
use verity_mem.Store.Triggers.{update_error}
use verity_mem.Store.Update.{with_status, guarded, update_claims}
use verity_mem.Retention.Revoke.{
  is_unrevoked, revocable, closing, revocation_row, revoke_row, revoke_claim, revoke_claims,
}

-- The row that a revocation leaves.
abbrev pub closed : ℕ → (ClaimRow → Bool) → ClaimRow → ClaimRow
closed now matches c = if matches c then with_status c ClaimStatus.revoked (closing now c) else c

guarded-value :
    (ds : List DecisionRow) (row row' : ClaimRow) (status : ClaimStatus) (end : Option ℕ)
    → guarded ds row status end ≡ ok row'
    → row' ≡ with_status row status end
guarded-value ds row row' status end h = elim (Option-cases (update_error ds row status end)) [
  | inl e ↦ sym (ok_injective (rw (e, guarded) at h))
  | inr (x, e) ↦ absurd (cc (rw (e, guarded) at h))
]

row-closed :
    (ds : List DecisionRow) (matches : ClaimRow → Bool) (now : ℕ) (row row' : ClaimRow)
    → (if matches row then guarded ds row ClaimStatus.revoked (closing now row) else ok row)
      ≡ ok row'
    → row' ≡ closed now matches row
row-closed ds matches now row row' h = elim (Bool-cases (matches row)) [
  | inl on ↦ rw on (guarded-value ds row row' ClaimStatus.revoked (closing now row) (rw on at h))
  | inr off ↦ rw off (sym (ok_injective (rw off at h)))
]

pub update_claims-closed :
    (ds : List DecisionRow) (matches : ClaimRow → Bool) (now : ℕ) (rows rows' : List ClaimRow)
    → update_claims ds matches ClaimStatus.revoked (closing now) rows ≡ ok rows'
    → rows' ≡ map (closed now matches) rows
unfolding update_claims
update_claims-closed ds matches now [] rows' h = sym (ok_injective h)
update_claims-closed ds matches now (row ∷ rows) rows' h =
    let (row', here, later) = >>=-eq-ok _ _ h in
    let (rest, there, whole) = >>=-eq-ok _ _ later in
    let tail : rest ≡ map (closed now matches) rows =
      update_claims-closed ds matches now rows rest there in
    let head : row' ≡ closed now matches row = row-closed ds matches now row row' here in
    let both : row' ∷ rest ≡ map (closed now matches) (row ∷ rows) = cc (head, tail) in
    subst (λ x. x ≡ map (closed now matches) (row ∷ rows)) (ok_injective whole) both

map-none :
    (now : ℕ) (matches : ClaimRow → Bool) (rows : List ClaimRow)
    → any matches rows ≡ false
    → map (closed now matches) rows ≡ rows
map-none now matches [] h = refl
map-none now matches (c ∷ rows) h = ground (arith, map-none now matches rows)

revoke_row-claims :
    (now : ℕ) (approver : String) (id claim : ℕ) (db : Database) (c : ClaimRow)
    (done : Database × ℕ)
    → revoke_row now approver id claim db c ≡ ok done
    → done.0.claims ≡ map (closed now (revocable claim)) db.claims
unfolding revoke_row
revoke_row-claims now approver id claim db c done h =
    elim (Result-cases (insert_decision_row (revocation_row approver id c) db.decisions)) [
      | inr (e, one) ↦ absurd (cc (rw (revoke_row, one) at h))
      | inl (ds, one) ↦
          elim (Result-cases
            (update_claims ds (revocable claim) ClaimStatus.revoked (closing now) db.claims)) [
              | inr (e, two) ↦ absurd (cc (rw (revoke_row, one, two) at h))
              | inl (claims, two) ↦
                  subst
                    (λ (x : Database × ℕ).
                      x.0.claims ≡ map (closed now (revocable claim)) db.claims)
                    (ok_injective (rw (revoke_row, one, two) at h))
                    (update_claims-closed ds (revocable claim) now db.claims claims two)
            ]
    ]

pub revoke_claim-claims :
    (now : ℕ) (approver : String) (id claim : ℕ) (db : Database) (done : Database × ℕ)
    → revoke_claim now approver id claim db ≡ ok done
    → done.0.claims ≡ map (closed now (revocable claim)) db.claims
unfolding revoke_claim
revoke_claim-claims now approver id claim db done h =
    elim (Option-cases (find (revocable claim) db.claims)) [
      | inl miss ↦
          subst (λ (x : Database × ℕ). x.0.claims ≡ map (closed now (revocable claim)) db.claims)
            (ok_injective (rw (revoke_claim, miss) at h))
            (sym (
              map-none now (revocable claim) db.claims
                (any_of-find (revocable claim) db.claims miss)))
      | inr (c, hit) ↦
          revoke_row-claims now approver id claim db c done (rw (revoke_claim, hit) at h)
    ]

-- Claims of a list of ids that are not revoked yet.
abbrev pub is_due : List ℕ → ClaimRow → Bool
is_due ids c = contains ids c.claim_id && is_unrevoked c

closed-twice :
    (now claim : ℕ) (ids : List ℕ) (c : ClaimRow)
    → closed now (is_due ids) (closed now (revocable claim) c) ≡ closed now (is_due (claim ∷ ids)) c
closed-twice now claim ids c = ground arith

map-twice :
    (now claim : ℕ) (ids : List ℕ) (rows : List ClaimRow)
    → map (closed now (is_due ids)) (map (closed now (revocable claim)) rows)
      ≡ map (closed now (is_due (claim ∷ ids))) rows
map-twice now claim ids [] = refl
map-twice now claim ids (c ∷ rows) = cc (closed-twice now claim ids c, map-twice now claim ids rows)

map-no_ids : (now : ℕ) (rows : List ClaimRow) → map (closed now (is_due [])) rows ≡ rows
map-no_ids now [] = refl
map-no_ids now (c ∷ rows) = cc (map-no_ids now rows)

-- Revoking a list of claims, when it returns, closes exactly the rows of the table whose id is on
-- the list and that were not revoked before, and leaves every other row as it was.
pub revoke_claims-claims :
    (now : ℕ) (approver : String) (id : ℕ) (ids : List ℕ) (db : Database) (done : Database × ℕ)
    → revoke_claims now approver id ids db ≡ ok done
    → done.0.claims ≡ map (closed now (is_due ids)) db.claims
unfolding revoke_claims
revoke_claims-claims now approver id [] db done h =
    rw (← ok_injective h) (sym (map-no_ids now db.claims))
revoke_claims-claims now approver id (claim ∷ ids) db done h =
    let (here, one, later) = >>=-eq-ok _ _ h in
    let (rest, two, whole) = >>=-eq-ok _ _ later in
    let a = revoke_claim-claims now approver id claim db here one in
    let b = revoke_claims-claims now approver (suc id) ids here.0 rest two in
    let both = map-twice now claim ids db.claims in let end = ok_injective whole in cc
