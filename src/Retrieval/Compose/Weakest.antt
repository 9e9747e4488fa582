-- ===== src/Retrieval/Compose/Weakest.antt =====
-- `combineDecisions` of packages/retrieval/src/compose.ts takes the weakest decision.
use verity_mem.Prelude.{
  ◌≤◌, ◌≡◌, refl, sym, subst, inl, inr, ◌↔◌, true, false, List, [], ◌∷◌, any, is_empty, nat_eq,
  Bool-cases, All, All-map, arith,
}
use verity_mem.Contracts.Vocabulary.{UseDecision, usable, verify, clarify, deny}
use verity_mem.Claims.Use.Laws.{severity}
use verity_mem.Retrieval.Action.{decision_eq}
use verity_mem.Retrieval.Compose.{combine_decisions}

-- The weakest of the decisions, and `clarify` for none.
abbrev pub IsWeakest : List UseDecision → UseDecision → Type 0
IsWeakest ds d =
    ((d ≡ usable) ↔ ((is_empty ds ≡ false) × All (λ e. e ≡ usable) ds))
    × All (λ e. severity e ≤ severity d) ds

without_deny :
    (ds : List UseDecision) → any (decision_eq deny) ds ≡ false → All (λ e. severity e ≤ 2) ds
without_deny [] h = tt
without_deny (d ∷ ds) h = (ground arith, without_deny ds (ground arith))

without_clarify :
    (ds : List UseDecision)
    → any (decision_eq deny) ds ≡ false
    → any (decision_eq clarify) ds ≡ false
    → All (λ e. severity e ≤ 1) ds
without_clarify [] h k = tt
without_clarify (d ∷ ds) h k = (ground arith, without_clarify ds (ground arith) (ground arith))

only_usable :
    (ds : List UseDecision)
    → any (decision_eq deny) ds ≡ false
    → any (decision_eq clarify) ds ≡ false
    → any (decision_eq verify) ds ≡ false
    → All (λ e. e ≡ usable) ds
only_usable [] h k l = tt
only_usable (d ∷ ds) h k l =
    (ground arith, only_usable ds (ground arith) (ground arith) (ground arith))

usable_only :
    (ds : List UseDecision)
    → All (λ e. e ≡ usable) ds
    → (any (decision_eq deny) ds ≡ false)
      × ((any (decision_eq clarify) ds ≡ false) × (any (decision_eq verify) ds ≡ false))
usable_only [] h = (refl, (refl, refl))
usable_only (d ∷ ds) h =
    let (a, (b, c)) = usable_only ds h.1 in
    let same : d ≡ usable = h.0 in (ground arith, (ground arith, ground arith))

All-severity : (ds : List UseDecision) → All (λ e. severity e ≤ 3) ds
All-severity [] = tt
All-severity (d ∷ ds) = (ground arith, All-severity ds)

pub combine_decisions-IsWeakest : (ds : List UseDecision) → IsWeakest ds (combine_decisions ds)
unfolding combine_decisions
combine_decisions-IsWeakest [] = ((λ h. cc h, λ h. cc (h.0)), tt)
combine_decisions-IsWeakest (d ∷ ds) = elim (Bool-cases (any (decision_eq deny) (d ∷ ds))) [
  | inl denied ↦
      let value : combine_decisions (d ∷ ds) ≡ deny = rw denied refl in
      subst (IsWeakest (d ∷ ds)) (sym value) (
        (λ h. absurd (cc h), λ h. absurd (cc (denied, (usable_only (d ∷ ds) h.1).0))),
        All-severity (d ∷ ds),
      )
  | inr no_deny ↦ elim (Bool-cases (any (decision_eq clarify) (d ∷ ds))) [
    | inl unclear ↦
        let value : combine_decisions (d ∷ ds) ≡ clarify = rw (no_deny, unclear) refl in
        subst (IsWeakest (d ∷ ds)) (sym value) (
          (λ h. absurd (cc h), λ h. absurd (cc (unclear, (usable_only (d ∷ ds) h.1).1.0))),
          without_deny (d ∷ ds) no_deny,
        )
    | inr clear ↦ elim (Bool-cases (any (decision_eq verify) (d ∷ ds))) [
      | inl unverified ↦
          let value : combine_decisions (d ∷ ds) ≡ verify = rw (no_deny, clear, unverified) refl in
          subst (IsWeakest (d ∷ ds)) (sym value) (
            (λ h. absurd (cc h), λ h. absurd (cc (unverified, (usable_only (d ∷ ds) h.1).1.1))),
            without_clarify (d ∷ ds) no_deny clear,
          )
      | inr fine ↦
          let good = only_usable (d ∷ ds) no_deny clear fine in
          let last : any (decision_eq usable) (d ∷ ds) ≡ true = ground (arith, good.0) in
          let value : combine_decisions (d ∷ ds) ≡ usable = rw (no_deny, clear, fine, last) refl in
          subst (IsWeakest (d ∷ ds)) (sym value) (
            (λ h. (refl, good), λ h. refl),
            All-map (λ e. e ≡ usable) (λ e. severity e ≤ 0) (λ e same. ground arith) (d ∷ ds) good,
          )
    ]
  ]
]
