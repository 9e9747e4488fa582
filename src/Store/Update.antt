-- ===== src/Store/Update.antt =====
-- `UPDATE claims SET status, valid_to WHERE …`: each matching row is guarded, and one refusal
-- aborts the statement.
pub mod Laws
use verity_mem.Prelude.{ℕ, Bool, Option, none, some, List, [], ◌∷◌, if◌then◌else◌}
use verity_mem.Contracts.Vocabulary.{ClaimStatus}
use verity_mem.Store.{ClaimRow, DecisionRow, Result, ok, err, ◌>>=◌}
use verity_mem.Store.Triggers.{update_error}

abbrev pub with_status : ClaimRow → ClaimStatus → Option ℕ → ClaimRow
with_status row status valid_to = record row { status = status; valid_to = valid_to }

abbrev pub guarded : List DecisionRow → ClaimRow → ClaimStatus → Option ℕ → Result ClaimRow
guarded ds row status valid_to = elim (update_error ds row status valid_to) [
  | none ↦ ok (with_status row status valid_to)
  | some e ↦ err e
]

-- `matches` is the WHERE clause and `end` the new `valid_to` as a function of the old row.
unfoldable pub update_claims :
    List DecisionRow
    → (ClaimRow → Bool)
    → ClaimStatus
    → (ClaimRow → Option ℕ)
    → List ClaimRow
    → Result (List ClaimRow)
update_claims ds matches status end [] = ok []
update_claims ds matches status end (row ∷ rows) = do
  row' ← if matches row then guarded ds row status (end row) else ok row
  rows' ← update_claims ds matches status end rows
  ok (row' ∷ rows')
