-- ===== src/Ledger/Append/Laws.antt =====
-- Appending keeps every stream gapless and linked, so its chain always verifies.
use mathlib.Core.Path.{subst₂}
use verity_mem.Prelude.{
  ℕ, ◌≡◌, sym, ap, subst, inl, inr, String, true, Option, All, length, string_eq,
}
use verity_mem.Prelude.{option_eq, nat_eq}
use verity_mem.Ledger.Spans.{done}
use verity_mem.Ledger.Chain.{EventRow, LinkFields, stream_of}
use verity_mem.Ledger.Tables.{LedgerState, LedgerOptions, LedgerReceipt, EventAppendRequest}
use verity_mem.Ledger.Append.{or_default, last_seq_of, append}
use verity_mem.Ledger.Append.Linking.{Linked, IsChained, committed-IsChained}
use verity_mem.Ledger.Append.Answers.{IsSameLog, append-Answers}

IsSameLog-IsChained :
    (link : LinkFields → ℕ) (st st' : LedgerState)
    → IsSameLog st st'
    → IsChained link st
    → IsChained link st'
IsSameLog-IsChained link st st' same chained tenant stream =
    subst₂
      (λ es ss.
        Linked link (stream_of tenant stream es)
        × (last_seq_of tenant stream ss ≡ length (stream_of tenant stream es)))
      (sym same.0) (sym same.1) (chained tenant stream)

module _ (options : LedgerOptions) (request : EventAppendRequest) where
  -- Let every stream of every tenant be numbered from 1 without a gap and linked, with its counter
  -- equal to its length. If the scope of the receipt can read every event of the request's stream, a
  -- successful append leaves all streams so.
  pub append-IsChained :
      (principal : Option String) (st st' : LedgerState) (r : LedgerReceipt)
      → IsChained options.link st
      → append options request principal st ≡ done (st', r)
      → All
          (λ (e : EventRow). options.admits r.scope e ≡ true)
          (stream_of request.scope.tenant request.stream_id st.events)
      → IsChained options.link st'
  append-IsChained principal st st' r chained h readable =
      let who = or_default principal request.actor_id in
      let (scoped, scope, fine, same, answered) =
        append-Answers options request principal st st' r h in
      let kept = IsSameLog-IsChained options.link st scoped same chained in
      elim answered [
        | inl p ↦ subst (IsChained options.link) (sym p.2) kept
        | inr p ↦
            let own : r.scope ≡ scope = ap (λ (x : LedgerReceipt). x.scope) p.2 in
            let known =
              subst₂
                (λ es s.
                  All (λ (e : EventRow). options.admits s e ≡ true)
                    (stream_of request.scope.tenant request.stream_id es))
                (sym same.0) own readable in
            subst (IsChained options.link) (sym p.1)
              (committed-IsChained options request who scoped scope kept known)
      ]
