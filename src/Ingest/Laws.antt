-- ===== src/Ingest/Laws.antt =====
-- When the requested scope stays within the event's, and what admission keeps from running.
use verity_mem.Prelude.{
  ◌≡◌, refl, subst, ◌↔◌, inl, inr, ◌⊎◌, String, true, false, Option, none, some, List, [], ◌∷◌,
  filter, contains, ◌==◌, string_eq, Bool-cases, arith,
}
use verity_mem.Store.{ScopeRow}
use verity_mem.Ledger.Tables.{ScopeInput}
use verity_mem.Gate.Scope.Laws.{Honours}
use verity_mem.Ingest.{
  ScopeNarrowing, carry, spread, narrowed_input, requested_input, allowed_purposes, or_all,
  asks_nothing, binds_no_dimension,
}

-- The request names no other value than the one that the event binds.
abbrev pub Agrees : Option String → Option String → Type 0
Agrees none value = Unit
Agrees (some requested) none = Unit
Agrees (some requested) (some value) = requested ≡ value

carry-Honours_iff :
    (requested value : Option String)
    → Honours (carry requested value) value ↔ Agrees requested value
unfolding carry
carry-Honours_iff none none = (λ h. tt, λ h. tt)
carry-Honours_iff none (some v) = (λ h. tt, λ h. refl)
carry-Honours_iff (some r) none = (λ h. tt, λ h. tt)
carry-Honours_iff (some r) (some v) = ground (arith, string_eq.test_iff r v)

-- Every dimension that the event binds is bound in the same way.
abbrev pub IsInside : ScopeInput → ScopeRow → Type 0
IsInside input event =
    Honours input.project event.project
    × (Honours input.user event.user_id
        × (Honours input.agent event.agent_id × Honours input.session event.session_id))

abbrev pub IsAgreeing : ScopeNarrowing → ScopeRow → Type 0
IsAgreeing request event =
    Agrees request.project event.project
    × (Agrees request.user event.user_id
        × (Agrees request.agent event.agent_id × Agrees request.session event.session_id))

contains-filter :
    (held xs : List String) (p : String)
    → contains (filter (λ x. contains held x) xs) p ≡ true
    → contains held p ≡ true
contains-filter held [] p h = absurd (cc h)
contains-filter held (x ∷ xs) p h = elim (Bool-cases (contains held x)) [
  | inl hit ↦ elim (Bool-cases (x == p)) [
    | inl same ↦ let e : x ≡ p = (string_eq.test_iff x p).0 same in cc (hit, e)
    | inr other ↦ contains-filter held xs p (ground (arith, hit, other, h))
  ]
  | inr miss ↦ contains-filter held xs p (rw miss at h)
]

purposes_kept :
    (asked : Option (List String)) (held : List String) (p : String)
    → contains (or_all (allowed_purposes asked held) held) p ≡ true
    → contains held p ≡ true
purposes_kept none [] p h = h
purposes_kept none (x ∷ held) p h = h
purposes_kept (some []) [] p h = h
purposes_kept (some []) (x ∷ held) p h = h
purposes_kept (some (a ∷ asked)) held p h =
    go (filter (λ x. contains held x) (a ∷ asked)) (contains-filter held (a ∷ asked) p) h
  where
    go :
        (kept : List String)
        → (contains kept p ≡ true → contains held p ≡ true)
        → contains (or_all kept held) p ≡ true
        → contains held p ≡ true
    go [] inside h = h
    go (k ∷ kept) inside h = inside h

narrowed_input-IsInside_iff :
    (event : ScopeRow) (request : ScopeNarrowing)
    → IsInside (narrowed_input event request) event ↔ IsAgreeing request event
narrowed_input-IsInside_iff event request =
    let p = carry-Honours_iff request.project event.project in
    let u = carry-Honours_iff request.user event.user_id in
    let a = carry-Honours_iff request.agent event.agent_id in
    let s = carry-Honours_iff request.session event.session_id in
    (
      λ h. (p.0 h.0, (u.0 h.1.0, (a.0 h.1.1.0, s.0 h.1.1.1))),
      λ h. (p.1 h.0, (u.1 h.1.0, (a.1 h.1.1.0, s.1 h.1.1.1))),
    )

requested_input-shape :
    (event : ScopeRow) (proposal options : ScopeNarrowing) (input : ScopeInput)
    → requested_input event proposal options ≡ some input
    → narrowed_input event (spread proposal options) ≡ input
unfolding requested_input
requested_input-shape event proposal options input h =
    elim (Bool-cases (asks_nothing (spread proposal options))) [
      | inl quiet ↦ absurd (cc (rw (quiet, requested_input) at h))
      | inr asking ↦
          elim (Bool-cases (binds_no_dimension (narrowed_input event (spread proposal options)))) [
            | inl bare ↦ absurd (cc (rw (asking, bare, requested_input) at h))
            | inr bound ↦ cc (rw (asking, bound, requested_input) at h)
          ]
    ]

-- A scope other than the event's own that a candidate asks for binds every dimension that the event
-- binds, in the same way, exactly when the request names no other value for one: a dimension that is
-- named otherwise is dropped and so left open. Its purposes are always ones of the event.
pub requested_input-IsInside_iff :
    (event : ScopeRow) (proposal options : ScopeNarrowing) (input : ScopeInput) (p : String)
    → requested_input event proposal options ≡ some input
    → (IsInside input event ↔ IsAgreeing (spread proposal options) event)
      × ((contains input.purpose p ≡ false) ⊎ (contains event.purpose p ≡ true))
requested_input-IsInside_iff event proposal options input p h =
    let shape = requested_input-shape event proposal options input h in
    let request = spread proposal options in
    subst
      (λ (x : ScopeInput).
        (IsInside x event ↔ IsAgreeing (spread proposal options) event)
        × ((contains x.purpose p ≡ false) ⊎ (contains event.purpose p ≡ true)))
      shape
      (
        narrowed_input-IsInside_iff event request,
        elim (Bool-cases
            (contains (or_all (allowed_purposes request.purpose event.purpose) event.purpose) p)) [
              | inl held ↦ inr (purposes_kept request.purpose event.purpose p held)
              | inr absent ↦ inl absent
            ],
      )
