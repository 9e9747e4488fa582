-- ===== src/Ledger/Chain/Laws.antt =====
-- What `verifyChain` establishes, and what it makes of a walk that starts in the middle.
use verity_mem.Prelude.{
  ℕ, ◌<◌, ◌≡◌, ◌≢◌, refl, ◌↔◌, inl, inr, true, false, Option, none, some, List, [], ◌∷◌, arith,
  Bool-cases, ◌==◌, option_eq, nat_eq, suc,
}
use verity_mem.Ledger.Chain.{EventRow, LinkFields, link_fields, walk, walk_from}

-- Each chained row's link recomputes and names the content of the row before it.
abbrev pub Holds : (LinkFields → ℕ) → Option ℕ → List EventRow → Type 0
Holds link expected [] = Unit
Holds link expected (row ∷ rows) =
    ((row.chained ≡ true
      → (row.link_hash ≡ some (link (link_fields row))) × (expected ≡ row.prev_hash)))
    × Holds link (some row.content_hash) rows

module _ (link : LinkFields → ℕ) where
  walk_holds :
      (n : ℕ) (expected : Option ℕ) (rows : List EventRow)
      → (walk link n expected rows).holds ≡ true
      → Holds link expected rows
  unfolding walk
  walk_holds n expected [] h = tt
  walk_holds n expected (row ∷ rows) h =
      let linked = option_eq.test_iff row.link_hash (some (link (link_fields row))) in
      let follows = option_eq.test_iff expected row.prev_hash in
      (
        λ on. (linked.0 (ground arith), follows.0 (ground arith)),
        walk_holds (suc n) (some row.content_hash) rows (ground arith),
      )

  holds_walk :
      (n : ℕ) (expected : Option ℕ) (rows : List EventRow)
      → Holds link expected rows
      → (walk link n expected rows).holds ≡ true
  unfolding walk
  holds_walk n expected [] h = refl
  holds_walk n expected (row ∷ rows) h =
      let rest = holds_walk (suc n) (some row.content_hash) rows h.1 in
      elim (Bool-cases row.chained) [
        | inr off ↦ rw off rest
        | inl on ↦
            let p = h.0 on in
            let linked = (option_eq.test_iff row.link_hash (some (link (link_fields row)))).1 p.0 in
            let follows = (option_eq.test_iff expected row.prev_hash).1 p.1 in ground arith
      ]

  -- A walk from the first sequence number reports a sound chain exactly when every chained row's
  -- link recomputes from its own fields and every chained row names the content hash of the row
  -- before it, the first one none.
  pub walk_from-holds_iff :
      (rows : List EventRow) → ((walk_from link 1 rows).holds ≡ true) ↔ Holds link none rows
  unfolding walk_from
  walk_from-holds_iff [] = (walk_holds 0 none [], holds_walk 0 none [])
  walk_from-holds_iff (row ∷ rows) =
      (walk_holds 0 none (row ∷ rows), holds_walk 0 none (row ∷ rows))

  -- A walk that starts later than the first sequence number refuses any two chained rows of which
  -- the second names the content of the first, unless the first names its own content too.
  pub walk_from-refuses :
      (from : ℕ) (a b : EventRow) (rows : List EventRow)
      → 1 < from
      → b.chained ≡ true
      → b.prev_hash ≡ some a.content_hash
      → a.prev_hash ≢ some a.content_hash
      → (walk_from link from (a ∷ b ∷ rows)).holds ≡ false
  unfolding walk_from walk
  walk_from-refuses from a b rows late on follows odd =
      let t = option_eq.test_iff a.prev_hash b.prev_hash in
      elim (Bool-cases (a.prev_hash == b.prev_hash)) [
        | inl same ↦ absurd (odd (cc (t.0 same, follows)))
        | inr off ↦ ground arith
      ]
