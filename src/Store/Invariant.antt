-- ===== src/Store/Invariant.antt =====
-- The invariant of the believed state: an accepted claim has a decision that promoted it, and a
-- closed validity interval is not empty.
use verity_mem.Prelude.{
  ℕ, ◌≡◌, Bool, true, false, ◌&&◌, Option, none, some, List, [], ◌∷◌, any, All, All₂-All, arith,
  ◌==◌, nat_eq, option_eq,
}
use verity_mem.Contracts.Vocabulary.{ClaimStatus, DecisionOutcome}
use verity_mem.Store.{ClaimRow, DecisionRow, Database, ok}
use verity_mem.Store.Triggers.{decides, is_decided, decisive_outcome, update_error, interval_ok}
use verity_mem.Store.Update.{with_status, update_claims}
use verity_mem.Store.Update.Laws.{update_claims-All₂}

abbrev pub is_promotion : DecisionOutcome → Bool
is_promotion DecisionOutcome.accept = true
is_promotion DecisionOutcome.accept_limited_scope = true
is_promotion _ = false

abbrev pub promotes : ℕ → DecisionRow → Bool
promotes claim d = (d.claim_id == some claim) && is_promotion d.outcome

abbrev pub IsBacked : List DecisionRow → ClaimRow → Type 0
IsBacked ds row = row.status ≡ ClaimStatus.accepted → any (promotes row.claim_id) ds ≡ true

abbrev pub IsOrdered : ClaimRow → Type 0
IsOrdered row = interval_ok row.valid_from row.valid_to ≡ true

pub record IsSound (db : Database) : Type 0 where
  pub backed : All (IsBacked db.decisions) db.claims
  pub ordered : All IsOrdered db.claims

promotes_of_decides :
    (claim : ℕ) (ds : List DecisionRow)
    → any (decides claim DecisionOutcome.accept) ds ≡ true
    → any (promotes claim) ds ≡ true
promotes_of_decides claim [] h = h
promotes_of_decides claim (d ∷ ds) h = ground (arith, promotes_of_decides claim ds)

touched-IsBacked :
    (ds : List DecisionRow) (row : ClaimRow) (status : ClaimStatus) (end : Option ℕ)
    → update_error ds row status end ≡ none
    → IsBacked ds row
    → IsBacked ds (with_status row status end)
unfolding update_error is_decided decisive_outcome
touched-IsBacked ds row status end fine backed e =
    ground (arith, promotes_of_decides row.claim_id ds, backed)

touched-IsOrdered :
    (ds : List DecisionRow) (row : ClaimRow) (status : ClaimStatus) (end : Option ℕ)
    → update_error ds row status end ≡ none
    → IsOrdered (with_status row status end)
unfolding update_error
touched-IsOrdered ds row status end fine = ground arith

IsBacked-cons :
    (d : DecisionRow) (ds : List DecisionRow) (row : ClaimRow)
    → IsBacked ds row
    → IsBacked (d ∷ ds) row
IsBacked-cons d ds row backed e = rw (backed e) (ground arith)

-- A further decision row takes no backing away.
pub All-IsBacked-cons :
    (d : DecisionRow) (ds : List DecisionRow) (rows : List ClaimRow)
    → All (IsBacked ds) rows
    → All (IsBacked (d ∷ ds)) rows
All-IsBacked-cons d ds [] h = tt
All-IsBacked-cons d ds (row ∷ rows) h =
    (IsBacked-cons d ds row h.0, All-IsBacked-cons d ds rows h.1)

module _ (ds : List DecisionRow) (matches : ClaimRow → Bool) (status : ClaimStatus)
    (end : ClaimRow → Option ℕ) (rows rows' : List ClaimRow)
    (done : update_claims ds matches status end rows ≡ ok rows') where
  pub update_claims-IsBacked : All (IsBacked ds) rows → All (IsBacked ds) rows'
  update_claims-IsBacked =
      All₂-All (λ a b. IsBacked ds a → IsBacked ds b) (IsBacked ds) (IsBacked ds) (λ a b r p. r p)
        rows rows'
        (update_claims-All₂ ds matches status end (λ a b. IsBacked ds a → IsBacked ds b)
          (λ a off p. p) (λ a on fine. touched-IsBacked ds a status (end a) fine) rows rows' done)

  pub update_claims-IsOrdered : All IsOrdered rows → All IsOrdered rows'
  update_claims-IsOrdered =
      All₂-All (λ a b. IsOrdered a → IsOrdered b) IsOrdered IsOrdered (λ a b r p. r p) rows rows'
        (update_claims-All₂ ds matches status end (λ a b. IsOrdered a → IsOrdered b) (λ a off p. p)
          (λ a on fine p. touched-IsOrdered ds a status (end a) fine) rows rows' done)
