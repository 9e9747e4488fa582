-- ===== src/Claims/Lifecycle.antt =====
-- `outcomeForStatus` and `applyStatus` of packages/claims/src/index.ts, over the guards of the
-- database. `now` is the database's clock.
pub mod Reach
pub mod Laws
use verity_mem.Prelude.{
  ℕ, String, Bool, true, false, not, ◌&&◌, Option, none, some, List, [], ◌∷◌, any, find, ◌=?◌,
  is_some, if◌then◌else◌,
}
use verity_mem.Contracts.Vocabulary.{
  ClaimStatus, proposed, accepted, disputed, superseded, rejected, revoked, expired,
  DecisionOutcome, accept, needs_review, reject, revoke,
}
use verity_mem.Store.{ClaimRow, DecisionRow, Database, Result, ok, err, duplicate_key, ◌>>=◌}
use verity_mem.Store.Update.{update_claims}

unfoldable pub outcome_for_status : ClaimStatus → DecisionOutcome
outcome_for_status accepted = accept
outcome_for_status revoked = revoke
outcome_for_status rejected = reject
outcome_for_status superseded = accept
outcome_for_status disputed = needs_review
outcome_for_status expired = accept
outcome_for_status proposed = needs_review

pub record StatusChange : Type 0 where
  pub claim_id : ℕ
  pub status : ClaimStatus
  pub valid_to : Option ℕ
  pub reason_codes : List String

pub record DecisionContext : Type 0 where
  pub decision_id : ℕ
  pub policy_version : String
  pub approver : Option String

-- The INSERT of a decision row, with its primary key.
unfoldable pub insert_decision_row : DecisionRow → List DecisionRow → Result (List DecisionRow)
insert_decision_row row rows =
    if any (λ d. d.decision_id =? row.decision_id) rows then err duplicate_key else ok (row ∷ rows)

-- `INSERT INTO decisions … SELECT … FROM claims WHERE claim_id = …`: no row for an unknown claim.
unfoldable pub decide_change : Database → StatusChange → DecisionContext → Result (List DecisionRow)
unfolding insert_decision_row
decide_change db change context =
    elim (find (λ (c : ClaimRow). c.claim_id =? change.claim_id) db.claims) [
      | none ↦ ok db.decisions
      | some c ↦
          insert_decision_row
            (record {
              decision_id = context.decision_id;
              tenant_id = c.tenant_id;
              candidate_id = none;
              claim_id = some c.claim_id;
              policy_version = context.policy_version;
              outcome = outcome_for_status change.status;
              reason_codes = change.reason_codes;
              approver = context.approver;
            })
            db.decisions
    ]

-- `superseded`, `revoked` and `expired` close an interval that is still open.
abbrev pub closes : ClaimStatus → Bool
closes superseded = true
closes revoked = true
closes expired = true
closes _ = false

-- The CASE that `applyStatus` sets `valid_to` to.
unfoldable pub end_for : ℕ → StatusChange → ClaimRow → Option ℕ
end_for now change row =
    if is_some change.valid_to
    then change.valid_to
    else if closes change.status && not (is_some row.valid_to)
    then some now
    else row.valid_to

unfoldable pub apply_status : ℕ → Database → StatusChange → DecisionContext → Result Database
unfolding decide_change end_for
apply_status now db change context = do
  decisions ← decide_change db change context
  claims ←
      update_claims decisions (λ row. row.claim_id =? change.claim_id) change.status
        (end_for now change) db.claims
  ok (record db { decisions = decisions; claims = claims })
