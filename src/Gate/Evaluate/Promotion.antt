-- ===== src/Gate/Evaluate/Promotion.antt =====
-- What one evaluation does to the tables: the frame of `evaluate`, the soundness of the believed
-- state, and what no evaluation can promote.
use verity_mem.Prelude.{
  ℕ, ◌≡◌, refl, sym, ap, subst, ◌∙◌, ◌⊎◌, inl, inr, Bool, true, false, List, [], ◌∷◌, filter,
  contains, All, All₂, All₂-All, All₂-refl, arith, Bool-cases,
}
use mathlib.Core.Path.{subst₂}
use verity_mem.Contracts.Vocabulary.{ClaimStatus, kind_eq}
use verity_mem.Claims.Use.{is_accepted}
use verity_mem.Gate.Conflict.{ConflictHit}
use verity_mem.Store.{ScopeRow, ClaimRow, DecisionRow, Database, ok, ok_injective}
use verity_mem.Store.Invariant.{IsSound, IsBacked, IsOrdered, All-IsBacked-cons}
use verity_mem.Gate.Decide.{
  Facts, is_sensitive, is_external, scan_content, decide_outcome, establish,
}
use verity_mem.Gate.Evidence.{CandidateForGate}
use verity_mem.Gate.Evaluate.{
  GateDependencies, GateResult, holds_belief, writes_claim, row_for, decision_for, evaluate,
  facts_of, conflicts_of,
}
use verity_mem.Gate.Evaluate.Outcome.{IsHeld}
use verity_mem.Gate.Evaluate.Supersession.{Kept, supersede-Kept}
use verity_mem.Gate.Evaluate.Writes.{evaluate-Evaluates, Persists, persist-Persists, ClaimsAfter}

head-Kept :
    (ds : List DecisionRow) (valid_from : ℕ) (row row' : ClaimRow)
    → row.valid_from ≡ valid_from
    → Kept ds valid_from row row'
    → row' ≡ row
head-Kept ds valid_from row row' start (inl e) = e
head-Kept ds valid_from row row' start (inr k) = absurd (omega (arith, k.1))

-- The rows below the new one, which stays as it was inserted.
abbrev pub NewRow : List DecisionRow → ClaimRow → List ClaimRow → List ClaimRow → Type 0
NewRow ds row before after =
    (rows : List ClaimRow) × (after ≡ row ∷ rows) × All₂ (Kept ds row.valid_from) before rows

split_new :
    (ds : List DecisionRow) (row : ClaimRow) (before after : List ClaimRow)
    → All₂ (Kept ds row.valid_from) (row ∷ before) after
    → NewRow ds row before after
split_new ds row before [] k = absurd k
split_new ds row before (row' ∷ rows) k =
    (rows, ap (λ r. r ∷ rows) (head-Kept ds row.valid_from row row' refl k.0), k.1)

ClaimsAfter-NewRow :
    (db db' : Database) (deps : GateDependencies) (c : CandidateForGate) (row : ClaimRow)
    (believed : Bool)
    → ClaimsAfter db (conflicts_of deps db c) row believed db'.claims
    → NewRow db.decisions row db.claims db'.claims
ClaimsAfter-NewRow db db' deps c row true h = split_new db.decisions row db.claims db'.claims (
    supersede-Kept db.decisions row.claim_id row.valid_from (conflicts_of deps db c)
      (row ∷ db.claims) db'.claims h)
ClaimsAfter-NewRow db db' deps c row false h = (
  db.claims,
  sym (ok_injective h),
  All₂-refl (Kept db.decisions row.valid_from) (λ r. inl refl) db.claims,
)

Kept-IsOrdered :
    (ds : List DecisionRow) (valid_from : ℕ) (a b : ClaimRow)
    → Kept ds valid_from a b
    → IsOrdered a
    → IsOrdered b
Kept-IsOrdered ds valid_from a b k ordered = ground arith

Kept-IsBacked :
    (ds : List DecisionRow) (valid_from : ℕ) (a b : ClaimRow)
    → Kept ds valid_from a b
    → IsBacked ds a
    → IsBacked ds b
Kept-IsBacked ds valid_from a b (inl e) backed = rw e backed
Kept-IsBacked ds valid_from a b (inr k) backed =
    let e : b.status ≡ ClaimStatus.superseded = ap (λ (x : ClaimRow). x.status) k.3 in
    λ believed. absurd (cc (e, believed))

Kept-believed :
    (ds : List DecisionRow) (valid_from : ℕ) (before after : List ClaimRow)
    → All₂ (Kept ds valid_from) before after
    → All (IsBacked ds) before
    → All (IsBacked ds) after
Kept-believed ds valid_from before after k =
    All₂-All (Kept ds valid_from) (IsBacked ds) (IsBacked ds) (Kept-IsBacked ds valid_from) before
      after k

Kept-closed :
    (ds : List DecisionRow) (valid_from : ℕ) (before after : List ClaimRow)
    → All₂ (Kept ds valid_from) before after
    → All IsOrdered before
    → All IsOrdered after
Kept-closed ds valid_from before after k =
    All₂-All (Kept ds valid_from) IsOrdered IsOrdered (Kept-IsOrdered ds valid_from) before after k

-- Accepted rows, the ones that are believed.
abbrev pub believed_of : List ClaimRow → List ClaimRow
believed_of rows = filter (λ (row : ClaimRow). is_accepted row.status) rows

ClaimsAfter-unbelieved :
    (db : Database) (conflicts : List ConflictHit) (row : ClaimRow) (believed : Bool)
    (rows : List ClaimRow)
    → believed ≡ false
    → ClaimsAfter db conflicts row believed rows
    → rows ≡ row ∷ db.claims
ClaimsAfter-unbelieved db conflicts row true rows off h = cc
ClaimsAfter-unbelieved db conflicts row false rows off h = sym (ok_injective h)

-- What the gate holds back whoever asserts it.
abbrev pub IsUntrusted : GateDependencies → CandidateForGate → Type 0
IsUntrusted deps c =
    (contains deps.policy.quarantine_kinds c.kind ≡ true)
    ⊎ (is_sensitive c.sensitivity ≡ true)
    ⊎ (((scan_content deps.patterns c.event_content).flagged ≡ true)
        × (is_external c.origin ≡ true))

untrusted-IsHeld :
    (deps : GateDependencies) (db : Database) (c : CandidateForGate) (requested event : ScopeRow)
    → IsUntrusted deps c
    → IsHeld (facts_of deps db c requested event)
unfolding establish
untrusted-IsHeld deps db c requested event u = u

held-unbelieved : (f : Facts) → IsHeld f → holds_belief (decide_outcome f) ≡ false
unfolding decide_outcome
held-unbelieved f held = ground arith

module _ (deps : GateDependencies) (db db' : Database) (c : CandidateForGate) (r : GateResult)
    (h : evaluate deps db c ≡ ok (db', r)) where
  persists : Persists deps db db' c r.outcome r.reason_codes (conflicts_of deps db c) r.evidence
  persists =
      persist-Persists deps db db' c r.outcome r.reason_codes (conflicts_of deps db c) r.evidence
        (evaluate-Evaluates deps db db' c r h).written

  -- A successful evaluation records exactly one decision, its own. It either writes no claim and
  -- changes none, or inserts its claim, and every earlier row is kept or was open, began earlier,
  -- could legally be superseded by a recorded decision, and is closed at the new claim's start.
  pub evaluate-frame :
      (db'.decisions ≡ decision_for deps c r.outcome r.reason_codes r.evidence ∷ db.decisions)
      × (((writes_claim r.outcome ≡ false) × (db'.claims ≡ db.claims))
          ⊎ ((writes_claim r.outcome ≡ true)
              × NewRow db.decisions (row_for deps c r.outcome) db.claims db'.claims))
  evaluate-frame = (
    persists.decided,
    elim (Bool-cases (writes_claim r.outcome)) [
      | inr off ↦ inl (off, persists.unwritten off)
      | inl on ↦ inr (
        on,
        ClaimsAfter-NewRow db db' deps c (row_for deps c r.outcome) (holds_belief r.outcome)
            (persists.believed on),
      )
    ],
  )

  new_row-IsBacked :
      writes_claim r.outcome ≡ true
      → IsBacked
          (decision_for deps c r.outcome r.reason_codes r.evidence ∷ db.decisions)
          (row_for deps c r.outcome)
  new_row-IsBacked on believed = ground arith

  new_state-IsSound :
      (rows : List ClaimRow)
      → IsSound db
      → writes_claim r.outcome ≡ true
      → db'.claims ≡ row_for deps c r.outcome ∷ rows
      → All₂ (Kept db.decisions (row_for deps c r.outcome).valid_from) db.claims rows
      → IsSound db'
  new_state-IsSound rows sound on e k =
      let start = (row_for deps c r.outcome).valid_from in
      let d = decision_for deps c r.outcome r.reason_codes r.evidence in
      record {
        backed =
            subst₂ (λ ds cs. All (IsBacked ds) cs) (sym persists.decided) (sym e)
              (
                new_row-IsBacked on,
                All-IsBacked-cons d db.decisions rows
                    (Kept-believed db.decisions start db.claims rows k sound.backed),
              );
        ordered =
            subst (All IsOrdered) (sym e)
              (refl, Kept-closed db.decisions start db.claims rows k sound.ordered);
      }

  -- A successful evaluation on a sound state leaves a sound state: every accepted claim has a
  -- decision that promoted it, and every closed validity interval is not empty.
  pub evaluate-IsSound : IsSound db → IsSound db'
  evaluate-IsSound sound = elim evaluate-frame.1 [
    | inr (on, new) ↦ new_state-IsSound new.0 sound on new.1 new.2
    | inl (off, e) ↦ record {
      backed =
          subst₂ (λ ds cs. All (IsBacked ds) cs) (sym persists.decided) (sym e)
            (All-IsBacked-cons (decision_for deps c r.outcome r.reason_codes r.evidence)
              db.decisions db.claims sound.backed);
      ordered = subst (All IsOrdered) (sym e) sound.ordered;
    }
  ]

  unbelieved_row :
      (rows : List ClaimRow)
      → holds_belief r.outcome ≡ false
      → believed_of (row_for deps c r.outcome ∷ rows) ≡ believed_of rows
  unbelieved_row rows off = ground arith

  unbelieved-frame : holds_belief r.outcome ≡ false → believed_of db'.claims ≡ believed_of db.claims
  unbelieved-frame off = elim (Bool-cases (writes_claim r.outcome)) [
    | inl on ↦
        ap believed_of (
          ClaimsAfter-unbelieved db (conflicts_of deps db c) (row_for deps c r.outcome)
            (holds_belief r.outcome) db'.claims off (persists.believed on))
        ∙ unbelieved_row db.claims off
    | inr out ↦ ap believed_of (persists.unwritten out)
  ]

  -- When the policy withholds the kind, or the event is of high sensitivity, or it came from a
  -- document or a database and reads like an instruction, a successful evaluation leaves the
  -- accepted claims as they were.
  pub evaluate-untrusted : IsUntrusted deps c → believed_of db'.claims ≡ believed_of db.claims
  evaluate-untrusted u =
      let e = evaluate-Evaluates deps db db' c r h in
      unbelieved-frame (
        ap (λ (x : GateResult). holds_belief x.outcome) e.result
        ∙ held-unbelieved (facts_of deps db c e.requested e.event)
            (untrusted-IsHeld deps db c e.requested e.event u))
