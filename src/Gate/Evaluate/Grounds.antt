-- ===== src/Gate/Evaluate/Grounds.antt =====
-- The facts that an acceptance rests on, in the terms of the candidate, its evidence and the policy.
use verity_mem.Prelude.{
  ℕ, ◌≤◌, ◌≡◌, ◌≢◌, refl, sym, ap, ◌∙◌, ◌⊎◌, inl, inr, Bool, true, false, Option, none, some, List,
  [], ◌∷◌, map, any, filter, length, contains, All, All-map, arith, Bool-cases,
}
use verity_mem.Contracts.Vocabulary.{
  entailed, EvidenceRole, supports, refutes, kind_eq, authority_eq,
}
use verity_mem.Store.{ScopeRow, Database}
use verity_mem.Ledger.Spans.{
  Bytes, SpanVerification, verified, missing, redacted, digest_mismatch, out_of_bounds,
  verify_spans, get_last,
}
use verity_mem.Gate.Decide.{
  EntailmentBackend, is_contradicting, supporting_of, usable_of, join_lines, entailment_of,
  aggregate_of, misses_floor, establish,
}
use verity_mem.Gate.Evidence.{
  CitedSpan, CandidateForGate, GateEvidenceVerdict, is_supporting, verdict_of, verify_evidence,
}
use verity_mem.Gate.Evaluate.{GateDependencies, evidence_of, conflicts_of, facts_of}
use verity_mem.Gate.Evaluate.Outcome.{IsSupported, IsHeld}
use verity_mem.Gate.Evaluate.Promotion.{IsUntrusted}

length-filter-le : {A : Type 0} (p : A → Bool) (xs : List A) → length (filter p xs) ≤ length xs
length-filter-le p [] = omega arith
length-filter-le p (x ∷ xs) = ground (arith, length-filter-le p xs)

-- A filter that keeps as many as there are keeps all.
filter-full :
    {A : Type 0} (p : A → Bool) (xs : List A)
    → length (filter p xs) ≡ length xs
    → All (λ x. p x ≡ true) xs
filter-full p [] h = tt
filter-full p (x ∷ xs) h =
    let fewer = length-filter-le p xs in
    elim (Bool-cases (p x)) [
      | inl hit ↦ let k = rw hit at h in (hit, filter-full p xs (omega (arith, k)))
      | inr miss ↦ let k = rw miss at h in absurd (omega (arith, k, fewer))
    ]

filter-empty :
    {A : Type 0} (p : A → Bool) (xs : List A) → length (filter p xs) ≡ 0 → All (λ x. p x ≡ false) xs
filter-empty p [] h = tt
filter-empty p (x ∷ xs) h = elim (Bool-cases (p x)) [
  | inl hit ↦ let k = rw hit at h in absurd (omega (arith, k))
  | inr miss ↦ (miss, filter-empty p xs (rw miss at h))
]

All-unfiltered :
    {A : Type 0} (P : A → Type 0) (q : A → Bool) (xs : List A)
    → All P (filter q xs)
    → All (λ x. (q x ≡ false) ⊎ P x) xs
All-unfiltered P q [] h = tt
All-unfiltered P q (x ∷ xs) h = elim (Bool-cases (q x)) [
  | inl hit ↦ let k = rw hit at h in (inr k.0, All-unfiltered P q xs k.1)
  | inr miss ↦ (inl miss, All-unfiltered P q xs (rw miss at h))
]

All-mapped :
    {A B : Type 0} (P : B → Type 0) (f : A → B) (xs : List A)
    → All P (map f xs)
    → All (λ x. P (f x)) xs
All-mapped P f [] h = tt
All-mapped P f (x ∷ xs) h = (h.0, All-mapped P f xs h.1)

-- A span that refutes, or one that its verification has verified.
abbrev pub IsResolved : CitedSpan → Option SpanVerification → Type 0
IsResolved e v = (e.role ≡ refutes) ⊎ ((quote : Bytes) × (v ≡ some (verified quote)))

refuting : (role : EvidenceRole) → is_supporting role ≡ false → role ≡ refutes
refuting supports h = absurd (cc h)
refuting refutes h = refl

verdict_of-role : (e : CitedSpan) (v : Option SpanVerification) → (verdict_of e v).role ≡ e.role
unfolding verdict_of
verdict_of-role e none = refl
verdict_of-role e (some (verified quote)) = refl
verdict_of-role e (some missing) = refl
verdict_of-role e (some redacted) = refl
verdict_of-role e (some (digest_mismatch a b)) = refl
verdict_of-role e (some (out_of_bounds n)) = refl

verdict_of-verified :
    (e : CitedSpan) (v : Option SpanVerification)
    → (verdict_of e v).status_ok ≡ true
    → (quote : Bytes) × (v ≡ some (verified quote))
unfolding verdict_of
verdict_of-verified e none h = absurd (cc h)
verdict_of-verified e (some (verified quote)) h = (quote, refl)
verdict_of-verified e (some missing) h = absurd (cc h)
verdict_of-verified e (some redacted) h = absurd (cc h)
verdict_of-verified e (some (digest_mismatch a b)) h = absurd (cc h)
verdict_of-verified e (some (out_of_bounds n)) h = absurd (cc h)

verdict_of-IsResolved :
    (e : CitedSpan) (v : Option SpanVerification)
    → (is_supporting (verdict_of e v).role ≡ false) ⊎ ((verdict_of e v).status_ok ≡ true)
    → IsResolved e v
verdict_of-IsResolved e v (inl against) =
    inl (refuting e.role (ap is_supporting (sym (verdict_of-role e v)) ∙ against))
verdict_of-IsResolved e v (inr fine) = inr (verdict_of-verified e v fine)

-- One of the spans supports.
any-supporting :
    (look : CitedSpan → Option SpanVerification) (spans : List CitedSpan)
    → length (supporting_of (map (λ e. verdict_of e (look e)) spans)) ≢ 0
    → any (λ (e : CitedSpan). is_supporting e.role) spans ≡ true
any-supporting look [] h = absurd (h refl)
any-supporting look (e ∷ spans) h = elim (Bool-cases (is_supporting e.role)) [
  | inl hit ↦ rw hit refl
  | inr miss ↦
      let against : is_supporting (verdict_of e (look e)).role ≡ false =
        ap is_supporting (verdict_of-role e (look e)) ∙ miss in
      rw miss (any-supporting look spans (rw against at h))
]

entailment_of-entails :
    (backend : EntailmentBackend) (c : CandidateForGate) (floor : ℕ)
    (usable : List GateEvidenceVerdict)
    → aggregate_of (entailment_of backend c usable) ≡ entailed
    → misses_floor floor (entailment_of backend c usable) ≡ false
    → ((backend.entails (join_lines usable) c.subject c.predicate c.object).result ≡ entailed)
      × (floor ≤ (backend.entails (join_lines usable) c.subject c.predicate c.object).score)
entailment_of-entails backend c floor [] h k = absurd (cc h)
entailment_of-entails backend c floor (e ∷ usable) h k = (h, ground (arith, h, k))

module _ (deps : GateDependencies) (db : Database) (c : CandidateForGate) where
  -- What a span's verification was found to be on this evaluation.
  abbrev pub verification_of : CitedSpan → Option SpanVerification
  verification_of e =
      get_last e.span.span_id
        (verify_spans deps.sha256 deps.events (map (λ (x : CitedSpan). x.span) c.spans))

  -- The grounds of an acceptance: some cited span supports the candidate, and all that do verify
  -- against the events; their joined quotes entail the statement at or above the policy's floor; the
  -- authority is one that the policy accepts; no accepted claim that bears on it contradicts it; and
  -- the gate has no reason to hold it back.
  pub record IsWellGrounded : Type 0 where
    pub cited : any (λ (e : CitedSpan). is_supporting e.role) c.spans ≡ true
    pub resolved : All (λ (e : CitedSpan). IsResolved e (verification_of e)) c.spans
    pub entails :
        (deps.backend.entails
          (join_lines (usable_of (evidence_of deps c)))
          c.subject
          c.predicate
          c.object).result
        ≡ entailed
    pub above_floor :
        deps.policy.thresholds.entailment_floor
        ≤ (deps.backend.entails
            (join_lines (usable_of (evidence_of deps c)))
            c.subject
            c.predicate
            c.object).score
    pub strong : contains deps.policy.auto_accept_authorities c.authority ≡ true
    pub consistent : All (λ hit. is_contradicting hit ≡ false) (conflicts_of deps db c)
    pub free : ¬ IsUntrusted deps c

  pub supported-IsWellGrounded :
      (requested event : ScopeRow)
      → IsSupported (facts_of deps db c requested event)
      → ¬ IsHeld (facts_of deps db c requested event)
      → IsWellGrounded
  unfolding establish verify_evidence
  supported-IsWellGrounded requested event s free =
      let entailment =
        entailment_of-entails deps.backend c deps.policy.thresholds.entailment_floor
          (usable_of (evidence_of deps c)) s.entails s.above_floor in
      record {
        cited = any-supporting verification_of c.spans s.cited;
        resolved =
            All-map _ _ (λ e h. verdict_of-IsResolved e (verification_of e) h) c.spans
              (All-mapped _ _ c.spans
                (All-unfiltered _ _ (evidence_of deps c) (filter-full _ _ s.resolved)));
        entails = entailment.0;
        above_floor = entailment.1;
        strong = s.strong;
        consistent = filter-empty is_contradicting (conflicts_of deps db c) s.consistent;
        free = free;
      }
