-- ===== src/Ledger/Append/Linking.antt =====
-- Streams that are numbered and linked, and an event put in front of one.
use verity_mem.Prelude.{
  ℕ, ◌-◌, ◌≡◌, refl, ap, subst, ◌∙◌, inl, inr, String, Bool, true, false, ◌&&◌, Option, none, some,
  List, [], ◌∷◌, find, filter, All, length, arith, Bool-cases, ◌=?◌, ◌==◌, string_eq, suc,
}
use verity_mem.Prelude.{option_eq, nat_eq}
use verity_mem.Ledger.Chain.{EventRow, LinkFields, link_fields, in_stream, stream_of}
use verity_mem.Ledger.Tables.{LedgerState, LedgerOptions, EventAppendRequest, StreamRow}
use verity_mem.Ledger.Append.{
  is_stream, last_seq_of, bump_stream, hash_at, event_for, committed, seen,
}
use verity_mem.Store.{ScopeRow}

abbrev pub head_hash : List EventRow → Option ℕ
head_hash [] = none
head_hash (e ∷ rest) = some e.content_hash

-- A stream, newest event first: numbered from 1 without a gap, each event chained to the one before.
abbrev pub Linked : (LinkFields → ℕ) → List EventRow → Type 0
Linked link [] = Unit
Linked link (e ∷ rest) =
    (e.seq ≡ suc (length rest))
    × (e.prev_hash ≡ head_hash rest)
    × (e.chained ≡ true)
    × (e.link_hash ≡ some (link (link_fields e)))
    × Linked link rest

-- Every stream is linked, and its counter is its length.
abbrev pub IsChained : (LinkFields → ℕ) → LedgerState → Type 0
IsChained link st =
    (tenant : ℕ) (stream : String)
    → Linked link (stream_of tenant stream st.events)
      × (last_seq_of tenant stream st.streams ≡ length (stream_of tenant stream st.events))

hash-Linked :
    (link : LinkFields → ℕ) (tenant : ℕ) (stream : String) (seq : ℕ) (events : List EventRow)
    → hash_at tenant stream seq events
      ≡ elim (find (λ (e : EventRow). e.seq =? seq) (stream_of tenant stream events)) [
        | none ↦ none
        | some e ↦ some e.content_hash
      ]
hash-Linked link tenant stream seq [] = refl
hash-Linked link tenant stream seq (e ∷ events) =
    ground (arith, hash-Linked link tenant stream seq events)

latest_hash :
    (link : LinkFields → ℕ) (xs : List EventRow)
    → Linked link xs
    → elim (find (λ (e : EventRow). e.seq =? length xs) xs) as (λ x. Option ℕ) [
      | none ↦ none
      | some e ↦ some e.content_hash
    ]
      ≡ head_hash xs
latest_hash link [] h = refl
latest_hash link (e ∷ rest) h = let number : e.seq ≡ suc (length rest) = h.0 in ground arith

pub bumped_same :
    (tenant : ℕ) (stream : String) (rows : List StreamRow)
    → last_seq_of tenant stream (bump_stream tenant stream rows)
      ≡ suc (last_seq_of tenant stream rows)
unfolding bump_stream
bumped_same tenant stream [] = ground (arith, string_eq.test_iff stream stream)
bumped_same tenant stream (r ∷ rows) = ground (arith, bumped_same tenant stream rows)

-- A reader who sees the whole stream sees the same hashes.
seen_hash :
    (q : EventRow → Bool) (tenant : ℕ) (stream : String) (seq : ℕ) (events : List EventRow)
    → All (λ (e : EventRow). q e ≡ true) (stream_of tenant stream events)
    → hash_at tenant stream seq (filter q events) ≡ hash_at tenant stream seq events
seen_hash q tenant stream seq [] h = refl
seen_hash q tenant stream seq (e ∷ events) h = elim (Bool-cases (in_stream tenant stream e)) [
  | inl on ↦
      let k = rw on at h in
      let first : q e ≡ true = k.0 in
      let rest = seen_hash q tenant stream seq events k.1 in ground (arith, rest, first)
  | inr off ↦
      let rest = seen_hash q tenant stream seq events (rw off at h) in ground (arith, rest, off)
]

-- Two streams that differ.
abbrev Differs : ℕ → String → ℕ → String → Type 0
Differs tenant stream other name = ((tenant =? other) && stream == name) ≡ false

bumped_other :
    (tenant other : ℕ) (stream name : String) (rows : List StreamRow)
    → Differs tenant stream other name
    → last_seq_of other name (bump_stream tenant stream rows) ≡ last_seq_of other name rows
unfolding bump_stream
bumped_other tenant other stream name [] off = ground arith
bumped_other tenant other stream name (r ∷ rows) off =
    let rest = bumped_other tenant other stream name rows off in
    let same = string_eq.test_iff r.stream_id stream in
    elim (Bool-cases (is_stream tenant stream r)) [
      | inr miss ↦ ground (arith, rest)
      | inl hit ↦
          let named : r.stream_id ≡ stream = same.0 (ground arith) in
          let away : is_stream other name r ≡ false = rw named (ground arith) in
          ground (arith, away)
    ]

module _ (options : LedgerOptions) (request : EventAppendRequest) (principal : String)
    (st : LedgerState) (scope : ScopeRow) where
  abbrev pub here_before : List EventRow
  here_before = stream_of request.scope.tenant request.stream_id st.events

  abbrev pub next_seq : ℕ
  next_seq = suc (last_seq_of request.scope.tenant request.stream_id st.streams)

  abbrev pub next_event : EventRow
  next_event =
      event_for options request scope next_seq (
        hash_at request.scope.tenant request.stream_id (next_seq - 1)
          (seen options scope st).events)

  -- The events of the stream are all readable from the scope that the write binds.
  abbrev pub IsReadable : Type 0
  IsReadable = All (λ (e : EventRow). options.admits scope e ≡ true) here_before

  next_event-Linked :
      IsChained options.link st → IsReadable → Linked options.link (next_event ∷ here_before)
  unfolding event_for
  next_event-Linked chained readable =
      let c = chained request.scope.tenant request.stream_id in
      (
        ap suc c.1,
        seen_hash (options.admits scope) request.scope.tenant request.stream_id (next_seq - 1)
              st.events readable
            ∙ ap (λ n. hash_at request.scope.tenant request.stream_id n st.events)
                (omega (arith, c.1))
            ∙ hash-Linked options.link request.scope.tenant request.stream_id (length here_before)
                st.events
            ∙ latest_hash options.link here_before c.0,
        refl,
        refl,
        c.0,
      )

  -- What the invariant says of one stream after the event was put in front of it.
  abbrev Extended : ℕ → String → Type 0
  Extended tenant stream =
      Linked options.link (next_event ∷ stream_of tenant stream st.events)
      × (last_seq_of tenant stream (bump_stream request.scope.tenant request.stream_id st.streams)
          ≡ suc (length (stream_of tenant stream st.events)))

  extended :
      (tenant : ℕ) (stream : String)
      → request.scope.tenant ≡ tenant
      → request.stream_id ≡ stream
      → IsChained options.link st
      → IsReadable
      → Extended tenant stream
  extended tenant stream e f chained readable =
      let c = chained request.scope.tenant request.stream_id in
      let here : Extended request.scope.tenant request.stream_id = (
        next_event-Linked chained readable,
        bumped_same request.scope.tenant request.stream_id st.streams ∙ ap suc c.1,
      ) in
      subst (λ s. Extended tenant s) f (subst (λ t. Extended t request.stream_id) e here)

  pub committed-IsChained :
      IsChained options.link st
      → IsReadable
      → IsChained options.link (committed options request principal st scope next_event)
  unfolding event_for
  committed-IsChained chained readable tenant stream =
      let c = chained tenant stream in
      let named = string_eq.test_iff request.stream_id stream in
      elim (Bool-cases ((request.scope.tenant =? tenant) && request.stream_id == stream)) [
        | inr off ↦
            rw (off, in_stream)
              (
                c.0,
                bumped_other request.scope.tenant tenant request.stream_id stream st.streams off
                    ∙ c.1,
              )
        | inl on ↦
            rw (on, in_stream)
              (extended tenant stream (ground arith) (named.0 (ground arith)) chained readable)
      ]
