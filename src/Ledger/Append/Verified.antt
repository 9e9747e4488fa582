-- ===== src/Ledger/Append/Verified.antt =====
-- The chain that the append path writes is one that `verifyChain` accepts.
use verity_mem.Prelude.{
  ℕ, ◌≤◌, ◌<◌, ◌≡◌, refl, sym, ap, subst, ◌∙◌, String, true, Option, none, some, List, [], ◌∷◌,
  ◌++◌, filter, length, arith, All, suc,
}
use verity_mem.Ledger.Chain.{
  EventRow, LinkFields, link_fields, in_range, stream_of, insert_by_seq, order_by_seq, select_rows,
  verify_chain,
}
use verity_mem.Ledger.Chain.Laws.{Holds, walk_from-holds_iff}
use verity_mem.Ledger.Tables.{LedgerState}
use verity_mem.Ledger.Append.Linking.{Linked, IsChained, head_hash}

abbrev IsBelow : ℕ → EventRow → Type 0
IsBelow n e = e.seq ≤ n

insert_last :
    (e : EventRow) (n : ℕ) (ys : List EventRow)
    → All (IsBelow n) ys
    → n < e.seq
    → insert_by_seq e ys ≡ ys ++ e ∷ []
unfolding insert_by_seq
insert_last e n [] h later = refl
insert_last e n (y ∷ ys) h later =
    let first : y.seq ≤ n = h.0 in ground (arith, insert_last e n ys h.1 later)

snoc-IsBelow :
    (n : ℕ) (e : EventRow) (ys : List EventRow)
    → All (IsBelow n) ys
    → e.seq ≡ suc n
    → All (IsBelow (suc n)) (ys ++ e ∷ [])
snoc-IsBelow n e [] h number = (omega arith, tt)
snoc-IsBelow n e (y ∷ ys) h number =
    let first : y.seq ≤ n = h.0 in (omega arith, snoc-IsBelow n e ys h.1 number)

abbrev last_hash : Option ℕ → List EventRow → Option ℕ
last_hash expected [] = expected
last_hash expected (e ∷ rest) = last_hash (some e.content_hash) rest

last_hash-snoc :
    (expected : Option ℕ) (ys : List EventRow) (e : EventRow)
    → last_hash expected (ys ++ e ∷ []) ≡ some e.content_hash
last_hash-snoc expected [] e = refl
last_hash-snoc expected (y ∷ ys) e = last_hash-snoc (some y.content_hash) ys e

snoc-Holds :
    (link : LinkFields → ℕ) (expected : Option ℕ) (ys : List EventRow) (e : EventRow)
    → Holds link expected ys
    → e.link_hash ≡ some (link (link_fields e))
    → last_hash expected ys ≡ e.prev_hash
    → Holds link expected (ys ++ e ∷ [])
snoc-Holds link expected [] e h linked follows = (λ on. (linked, follows), tt)
snoc-Holds link expected (y ∷ ys) e h linked follows =
    (h.0, snoc-Holds link (some y.content_hash) ys e h.1 linked follows)

-- A linked stream in ascending order.
record IsOrderedChain (link : LinkFields → ℕ) (xs : List EventRow) : Type 0 where
  below : All (IsBelow (length xs)) (order_by_seq xs)
  holds : Holds link none (order_by_seq xs)
  ends : last_hash none (order_by_seq xs) ≡ head_hash xs

Linked-IsOrderedChain :
    (link : LinkFields → ℕ) (xs : List EventRow) → Linked link xs → IsOrderedChain link xs
unfolding order_by_seq
Linked-IsOrderedChain link [] h = record { below = tt; holds = tt; ends = refl }
Linked-IsOrderedChain link (e ∷ rest) h =
    let c = Linked-IsOrderedChain link rest h.4 in
    let e_last : insert_by_seq e (order_by_seq rest) ≡ order_by_seq rest ++ e ∷ [] =
      insert_last e (length rest) (order_by_seq rest) c.below (omega (arith, h.0)) in
    record {
      below =
          subst (All (IsBelow (suc (length rest)))) (sym e_last)
            (snoc-IsBelow (length rest) e (order_by_seq rest) c.below h.0);
      holds =
          subst (Holds link none) (sym e_last)
            (snoc-Holds link none (order_by_seq rest) e c.holds h.3 (c.ends ∙ sym h.1));
      ends = ap (last_hash none) e_last ∙ last_hash-snoc none (order_by_seq rest) e;
    }

all_in_range :
    (link : LinkFields → ℕ) (xs : List EventRow) → Linked link xs → filter (in_range 1 none) xs ≡ xs
all_in_range link [] h = refl
all_in_range link (e ∷ rest) h =
    let number : e.seq ≡ suc (length rest) = h.0 in ground (arith, all_in_range link rest h.4)

-- In a state whose streams are numbered without a gap and linked, `verifyChain` over a whole stream
-- reports that the chain holds.
pub IsChained-verify_chain :
    (link : LinkFields → ℕ) (st : LedgerState) (tenant : ℕ) (stream : String)
    → IsChained link st
    → (verify_chain link tenant stream none none st.events).holds ≡ true
unfolding verify_chain select_rows
IsChained-verify_chain link st tenant stream chained =
    let linked = (chained tenant stream).0 in
    let whole = all_in_range link (stream_of tenant stream st.events) linked in
    (walk_from-holds_iff link
        (order_by_seq (filter (in_range 1 none) (stream_of tenant stream st.events)))).1
      (subst (λ xs. Holds link none (order_by_seq xs)) (sym whole)
        (Linked-IsOrderedChain link (stream_of tenant stream st.events) linked).holds)
