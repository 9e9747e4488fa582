-- ===== src/Store/Triggers.antt =====
-- The guards on `claims` that the database runs before an UPDATE: `valid_claim_transition`
-- (migrations/0002_integrity_and_rls.sql) and `guard_claim_mutation`
-- (migrations/0010_claim_mutation_guard.sql), then the CHECK of migrations/0001_core.sql. An
-- update here sets `status` and `valid_to` only, so the clauses on immutable columns cannot fire.
use verity_mem.Prelude.{
  ℕ, Bool, true, false, not, ◌&&◌, Option, none, some, List, any, ltb, ◌=?◌, ◌==◌, nat_eq,
  option_eq, is_some, if◌then◌else◌,
}
use verity_mem.Contracts.Vocabulary.{
  ClaimStatus, proposed, accepted, disputed, superseded, rejected, revoked, expired,
  DecisionOutcome, accept, needs_review, reject, revoke,
}
use verity_mem.Store.{
  ClaimRow, DecisionRow, DbError, illegal_transition, reopened_interval, shortened_interval,
  undecided_transition, check_violation,
}

abbrev pub status_index : ClaimStatus → ℕ
status_index proposed = 0
status_index accepted = 1
status_index disputed = 2
status_index superseded = 3
status_index rejected = 4
status_index revoked = 5
status_index expired = 6

abbrev pub outcome_index : DecisionOutcome → ℕ
outcome_index DecisionOutcome.accept = 0
outcome_index DecisionOutcome.accept_limited_scope = 1
outcome_index DecisionOutcome.needs_review = 2
outcome_index DecisionOutcome.quarantine = 3
outcome_index DecisionOutcome.reject = 4
outcome_index DecisionOutcome.revoke = 5

abbrev pub same_status : ClaimStatus → ClaimStatus → Bool
same_status a b = status_index a =? status_index b

-- `valid_claim_transition`: the legal edges of the lifecycle.
unfoldable pub valid_claim_transition : ClaimStatus → ClaimStatus → Bool
valid_claim_transition proposed accepted = true
valid_claim_transition proposed rejected = true
valid_claim_transition proposed disputed = true
valid_claim_transition proposed superseded = true
valid_claim_transition proposed expired = true
valid_claim_transition accepted disputed = true
valid_claim_transition accepted superseded = true
valid_claim_transition accepted revoked = true
valid_claim_transition accepted expired = true
valid_claim_transition disputed accepted = true
valid_claim_transition disputed superseded = true
valid_claim_transition disputed revoked = true
valid_claim_transition disputed expired = true
valid_claim_transition disputed rejected = true
valid_claim_transition superseded revoked = true
valid_claim_transition rejected superseded = true
valid_claim_transition revoked superseded = true
valid_claim_transition expired superseded = true
valid_claim_transition expired accepted = true
valid_claim_transition _ _ = false

-- The CASE of `guard_claim_mutation`: the outcome that must have been decided for a status.
unfoldable pub decisive_outcome : ClaimStatus → DecisionOutcome
decisive_outcome accepted = accept
decisive_outcome revoked = revoke
decisive_outcome rejected = reject
decisive_outcome superseded = accept
decisive_outcome disputed = needs_review
decisive_outcome expired = accept
decisive_outcome proposed = needs_review

-- One row of the subquery that counts decisions.
abbrev pub decides : ℕ → DecisionOutcome → DecisionRow → Bool
decides claim outcome d =
    (d.claim_id == some claim) && (outcome_index d.outcome =? outcome_index outcome)

unfoldable pub is_decided : List DecisionRow → ℕ → ClaimStatus → Bool
is_decided ds claim status = any (decides claim (decisive_outcome status)) ds

-- `NEW.valid_to IS DISTINCT FROM OLD.valid_to` with a NULL end, or an earlier one.
abbrev pub interval_error : Option ℕ → Option ℕ → Option DbError
interval_error none new = none
interval_error (some old) none = some reopened_interval
interval_error (some old) (some new) = if ltb new old then some shortened_interval else none

abbrev pub interval_ok : ℕ → Option ℕ → Bool
interval_ok start none = true
interval_ok start (some end) = ltb start end

-- The first guard that refuses to set `status` and `valid_to` on a row, in the order of firing.
unfoldable pub update_error : List DecisionRow → ClaimRow → ClaimStatus → Option ℕ → Option DbError
update_error ds row status valid_to =
    let interval = interval_error row.valid_to valid_to in
    if not (same_status status row.status) && not (valid_claim_transition row.status status)
    then some illegal_transition
    else if is_some interval
    then interval
    else if not (same_status status row.status) && not (is_decided ds row.claim_id status)
    then some undecided_transition
    else if not (interval_ok row.valid_from valid_to)
    then some check_violation
    else none
