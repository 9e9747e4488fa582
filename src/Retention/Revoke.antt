-- ===== src/Retention/Revoke.antt =====
-- The loop of `runForget` in packages/retrieval/src/retention.ts that revokes the affected claims,
-- each with a decision row of its own, over the guards of the database.
pub mod Laws
pub mod Total
use verity_mem.Prelude.{
  ℕ, suc, ◌+◌, String, Bool, true, false, not, ◌&&◌, Option, none, some, List, [], ◌∷◌, find,
  filter, length, ◌=?◌, if◌then◌else◌,
}
use verity_mem.Contracts.Vocabulary.{ClaimStatus, DecisionOutcome}
use verity_mem.Contracts.ReasonCodes.{retention_ledger_preserved, use_revoked}
use verity_mem.Store.{ClaimRow, DecisionRow, Database, Result, ok, err, ◌>>=◌}
use verity_mem.Store.Triggers.{same_status}
use verity_mem.Store.Update.{update_claims}
use verity_mem.Claims.Lifecycle.{insert_decision_row}

-- `WHERE claim_id = … AND status <> 'revoked'`.
abbrev pub is_unrevoked : ClaimRow → Bool
is_unrevoked c = not (same_status ClaimStatus.revoked c.status)

abbrev pub revocable : ℕ → ClaimRow → Bool
revocable claim c = (c.claim_id =? claim) && is_unrevoked c

-- `COALESCE(valid_to, now())`.
abbrev pub closing : ℕ → ClaimRow → Option ℕ
closing now c = elim c.valid_to [ none ↦ some now | some end ↦ some end ]

abbrev pub revocation_row : String → ℕ → ClaimRow → DecisionRow
revocation_row approver id c = record {
  decision_id = id;
  tenant_id = c.tenant_id;
  candidate_id = none;
  claim_id = some c.claim_id;
  policy_version = "retention-v1";
  outcome = DecisionOutcome.revoke;
  reason_codes = retention_ledger_preserved ∷ use_revoked ∷ [];
  approver = some approver;
}

-- The round for a claim whose row was found: the decision, then the update.
unfoldable pub revoke_row : ℕ → String → ℕ → ℕ → Database → ClaimRow → Result (Database × ℕ)
unfolding insert_decision_row
revoke_row now approver id claim db c = do
  decisions ← insert_decision_row (revocation_row approver id c) db.decisions
  claims ← update_claims decisions (revocable claim) ClaimStatus.revoked (closing now) db.claims
  ok (
    record db { decisions = decisions; claims = claims },
    length (filter (revocable claim) db.claims),
  )

-- One round: without a decision there is no update.
unfoldable pub revoke_claim : ℕ → String → ℕ → ℕ → Database → Result (Database × ℕ)
unfolding revoke_row
revoke_claim now approver id claim db = elim (find (revocable claim) db.claims) [
  | none ↦ ok (db, 0)
  | some c ↦ revoke_row now approver id claim db c
]

-- `ids.next("dec")` gives the next number in every round.
unfoldable pub revoke_claims : ℕ → String → ℕ → List ℕ → Database → Result (Database × ℕ)
unfolding revoke_claim
revoke_claims now approver id [] db = ok (db, 0)
revoke_claims now approver id (claim ∷ claims) db = do
  here ← revoke_claim now approver id claim db
  rest ← revoke_claims now approver (suc id) claims here.0
  ok (rest.0, here.1 + rest.1)
