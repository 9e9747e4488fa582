-- ===== src/Ledger/Append/Answers.antt =====
-- What a call of append that returned has done.
use verity_mem.Prelude.{
  ℕ, ◌≡◌, refl, sym, ap, ◌∙◌, ◌⊎◌, inl, inr, String, Bool, true, false, ◌&&◌, Option, none, some,
  find, length, arith, Bool-cases, ◌=?◌, ◌==◌, string_eq, suc, any, unique, Option-cases,
}
use verity_mem.Prelude.{is_some, not, option_eq, nat_eq}
use verity_mem.Ledger.Spans.{done, LedgerResult-cases, done_injective}
use verity_mem.Ledger.Tables.{
  ScopeInput, is_scope, LedgerState, LedgerOptions, LedgerReceipt, EventAppendRequest,
}
use verity_mem.Ledger.Append.{
  key_taken, or_default, last_seq_of, write_event, append, ensure_scope, ensure_tenant, answer,
  replay_of, committed, seen, receipt_of,
}
use verity_mem.Store.{ScopeRow}
use verity_mem.Ledger.Append.Linking.{next_event}

-- The tables that `ensureTenant` and `ensureScope` leave alone.
abbrev pub IsSameLog : LedgerState → LedgerState → Type 0
IsSameLog st st' = (st'.events ≡ st.events) × (st'.streams ≡ st.streams) × (st'.outbox ≡ st.outbox)

tenant-IsSameLog : (tenant : ℕ) (st : LedgerState) → IsSameLog st (ensure_tenant tenant st)
tenant-IsSameLog tenant st = elim (Bool-cases (any (λ t. t =? tenant) st.tenants)) [
  | inl known ↦ rw (known, ensure_tenant) (refl, refl, refl)
  | inr new ↦ rw (new, ensure_tenant) (refl, refl, refl)
]

scope-IsSameLog :
    (options : LedgerOptions) (input : ScopeInput) (st scoped : LedgerState) (scope : ScopeRow)
    → ensure_scope options input st ≡ done (scoped, scope)
    → IsSameLog st scoped
unfolding ensure_scope
scope-IsSameLog options input st scoped scope h =
    elim (Option-cases (find (is_scope input (options.sort (unique input.purpose))) st.scopes)) [
      | inl new ↦ (ground arith, ground arith, ground arith)
      | inr (found, old) ↦ (ground arith, ground arith, ground arith)
    ]

module _ (options : LedgerOptions) (request : EventAppendRequest) where
  ensured-IsSameLog :
      (st scoped : LedgerState) (scope : ScopeRow)
      → ensure_scope options request.scope (ensure_tenant request.scope.tenant st)
        ≡ done (scoped, scope)
      → IsSameLog st scoped
  ensured-IsSameLog st scoped scope h =
      let a = tenant-IsSameLog request.scope.tenant st in
      let b =
        scope-IsSameLog options request.scope (ensure_tenant request.scope.tenant st) scoped scope
          h in
      (b.0 ∙ a.0, b.1 ∙ a.1, b.2 ∙ a.2)

  answer-done :
      (st st' : LedgerState) (receipt r : LedgerReceipt) (queued : Bool)
      → answer options request st receipt queued ≡ done (st', r)
      → (st' ≡ st)
        × (receipt.content_hash ≡ options.sha256 request.content)
        × (r ≡ record receipt { extraction_queued = queued })
  answer-done st st' receipt r queued h =
      elim (Bool-cases (receipt.content_hash =? options.sha256 request.content)) [
        | inr other ↦ absurd (cc (rw (other, answer) at h))
        | inl same ↦
            let k = done_injective (rw (same, answer) at h) in
            (
              sym (ap (λ (p : LedgerState × LedgerReceipt). p.0) k),
              ground (arith, same),
              sym (ap (λ (p : LedgerState × LedgerReceipt). p.1) k),
            )
      ]

  -- What a call that returned has done, once its scope was there: it answered from an event that it
  -- could read, or it committed its own.
  abbrev pub Replayed : LedgerState → ScopeRow → LedgerState → LedgerReceipt → Type 0
  Replayed scoped scope st' r =
      (receipt : LedgerReceipt) × (replay_of options request (seen options scope scoped)
        ≡ some receipt)
      × (st' ≡ scoped)
      × (receipt.content_hash ≡ options.sha256 request.content)
      × (r ≡ record receipt { extraction_queued = true })

  abbrev pub Committed : String → LedgerState → ScopeRow → LedgerState → LedgerReceipt → Type 0
  Committed who scoped scope st' r =
      (key_taken options request scoped.events ≡ false)
      × (st'
          ≡ committed options request who scoped scope
              (next_event options request who scoped scope))
      × (r ≡ record (receipt_of (next_event options request who scoped scope) scope) {
        deduplicated = false;
      })

  -- The scope that the call found or created, and binds.
  abbrev pub Bound : LedgerState → LedgerState → ScopeRow → Type 0
  Bound st scoped scope =
      ensure_scope options request.scope (ensure_tenant request.scope.tenant st)
      ≡ done (scoped, scope)

  abbrev pub Answers : String → LedgerState → LedgerState → LedgerReceipt → Type 0
  Answers who st st' r =
      (scoped : LedgerState) × (scope : ScopeRow) × Bound st scoped scope
      × IsSameLog st scoped
      × (Replayed scoped scope st' r ⊎ Committed who scoped scope st' r)

  write_event-Committed :
      (who : String) (scoped st' : LedgerState) (scope : ScopeRow) (r : LedgerReceipt)
      → replay_of options request (seen options scope scoped) ≡ none
      → write_event options request who scoped scope ≡ done (st', r)
      → Committed who scoped scope st' r
  unfolding write_event
  write_event-Committed who scoped st' scope r unseen h =
      elim (Bool-cases (
        is_some request.expected_seq
        && not (
            request.expected_seq
            == some (suc (last_seq_of request.scope.tenant request.stream_id scoped.streams))))) [
              | inl conflict ↦ absurd (cc (rw (write_event, conflict) at h))
              | inr expected ↦ elim (Bool-cases (key_taken options request scoped.events)) [
                | inl taken ↦ absurd (cc (rw (write_event, expected, taken, unseen) at h))
                | inr free ↦
                    let k = done_injective (rw (write_event, expected, free) at h) in
                    (
                      free,
                      sym (ap (λ (p : LedgerState × LedgerReceipt). p.0) k),
                      sym (ap (λ (p : LedgerState × LedgerReceipt). p.1) k),
                    )
              ]
            ]

  pub append-Answers :
      (principal : Option String) (st st' : LedgerState) (r : LedgerReceipt)
      → append options request principal st ≡ done (st', r)
      → Answers (or_default principal request.actor_id) st st' r
  unfolding append
  append-Answers principal st st' r h =
      let who = or_default principal request.actor_id in
      elim (Bool-cases (length request.content =? 0)) [
        | inl empty ↦ absurd (cc (rw (append, empty) at h))
        | inr full ↦
            elim (LedgerResult-cases
              (ensure_scope options request.scope (ensure_tenant request.scope.tenant st))) [
                | inr (e, bad) ↦ absurd (cc (rw (full, bad) at h))
                | inl (p, fine) ↦
                    let same = ensured-IsSameLog st p.0 p.1 fine in
                    elim (Option-cases (replay_of options request (seen options p.1 p.0))) [
                      | inl unseen ↦ (
                        p.0,
                        p.1,
                        fine,
                        same,
                        inr (
                            write_event-Committed who p.0 st' p.1 r unseen
                              (rw (append, full, fine, unseen) at h)),
                      )
                      | inr (receipt, replay) ↦ (
                        p.0,
                        p.1,
                        fine,
                        same,
                        inl (
                            let a =
                              answer-done p.0 st' receipt r true
                                (rw (append, full, fine, replay) at h) in
                            (receipt, replay, a.0, a.1, a.2)),
                      )
                    ]
              ]
      ]
