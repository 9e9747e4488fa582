-- ===== src/Ingest/Run/Origin.antt =====
-- Where the candidates of a pass come from.
use verity_mem.Prelude.{
  some-injective, any-front, All-append, ℕ, ◌≡◌, refl, subst, ap, ◌∙◌, inl, inr, Bool, true, false,
  not, ◌&&◌, Option, none, some, List, [], ◌∷◌, ◌++◌, any, find, ◌==◌, string_eq, beq_refl,
  if◌then◌else◌, Bool-cases, Option-cases, All, All-map, arith,
}
use verity_mem.Ledger.Spans.{Bytes, SpanRecord}
use verity_mem.Ingest.{AdmissionResult, Extractor, is_blocked}
use verity_mem.Ingest.Records.{
  blocked, IngestOps, IngestEvent, IngestOptions, IngestState, PersistedCandidate, Proposal,
  RunnableExtractor,
}
use verity_mem.Ingest.Run.{
  Pass, persist_candidate, persist_all, find_or_insert, is_candidate_of, run_extractor, call_model,
  deterministic_pass, resolve_scope, keep_candidate, keep_written, write_candidate, put_first,
  inputs_of, noted,
}

-- The candidate is of an extractor on the list that admission does not forbid.
abbrev pub is_admitted : AdmissionResult → List RunnableExtractor → PersistedCandidate → Bool
is_admitted admission extractors c =
    any
      (λ (x : RunnableExtractor).
        not (is_blocked x.declared admission) && x.declared.id == c.extractor)
      extractors

module _ (O : IngestOps) (event : IngestEvent) (options : IngestOptions) where
  find_or_insert-extractor :
      (e : Extractor) (p : Proposal) (scope : ℕ) (spans : List SpanRecord) (σ : IngestState O)
      → (find_or_insert O event options e p scope spans σ).0.extractor ≡ e.id
  unfolding find_or_insert
  find_or_insert-extractor e p scope spans σ =
      elim (Option-cases (find (is_candidate_of O event options e p) σ.candidates)) [
        | inl miss ↦ rw (find_or_insert, miss) refl
        | inr (prior, hit) ↦ rw (find_or_insert, hit) refl
      ]

  abbrev pub Origin : Extractor → PersistedCandidate → Type 0
  Origin e c = c.extractor ≡ e.id

  put_first-All :
      (P : PersistedCandidate → Type 0) (c : Option PersistedCandidate)
      (rest : List PersistedCandidate)
      → ((x : PersistedCandidate) → c ≡ some x → P x)
      → All P rest
      → All P (put_first O event options c rest)
  put_first-All P none rest own h = h
  put_first-All P (some x) rest own h = (own x refl, h)

  keep_candidate-Origin :
      (e : Extractor) (p : Proposal) (scope : ℕ) (spans : List SpanRecord) (σ : IngestState O)
      (x : PersistedCandidate)
      → (keep_candidate O event options e p scope spans σ).0 ≡ some x
      → Origin e x
  keep_candidate-Origin e p scope [] σ x h = absurd (cc h)
  keep_candidate-Origin e p scope (s ∷ spans) σ x h =
      let own = find_or_insert-extractor e p scope (s ∷ spans) σ in
      let same = some-injective h in cc (own, same)

  keep_written-Origin :
      (e : Extractor) (p : Proposal) (scope : ℕ) (spans : Option (List SpanRecord))
      (σ : IngestState O) (x : PersistedCandidate)
      → (keep_written O event options e p scope spans σ).0 ≡ some (some x)
      → Origin e x
  keep_written-Origin e p scope none σ x h = absurd (cc h)
  keep_written-Origin e p scope (some spans) σ x h =
      keep_candidate-Origin e p scope spans σ x (some-injective h)

  write_candidate-Origin :
      (e : Extractor) (p : Proposal) (scope : Option ℕ) (σ : IngestState O) (x : PersistedCandidate)
      → (write_candidate O event options e p scope σ).0 ≡ some (some x)
      → Origin e x
  write_candidate-Origin e p none σ x h = absurd (cc h)
  write_candidate-Origin e p (some scope) σ x h =
      let (spans, s) = O.write_spans event.event_id (inputs_of O event options p.spans) σ.inner in
      keep_written-Origin e p scope spans (record σ { inner = s }) x h

  persist_candidate-Origin :
      (e : Extractor) (p : Proposal) (σ : IngestState O) (x : PersistedCandidate)
      → (persist_candidate O event options e p σ).0 ≡ some (some x)
      → Origin e x
  unfolding persist_candidate
  persist_candidate-Origin e p σ x h =
      let (scope, s) = resolve_scope O event options p σ.inner in
      write_candidate-Origin e p scope (record σ { inner = s }) x h

  persist_all-Origin :
      (e : Extractor) (proposals : List Proposal) (σ : IngestState O)
      → All (Origin e) (persist_all O event options e proposals σ).found
  unfolding persist_all
  persist_all-Origin e [] σ = tt
  persist_all-Origin e (p ∷ proposals) σ =
      let rest = persist_all-Origin e proposals (persist_candidate O event options e p σ).1 in
      elim (Option-cases (persist_candidate O event options e p σ).0) [
        | inl threw ↦ rw (persist_all, threw) tt
        | inr (c, went) ↦
            rw (persist_all, went)
              (put_first-All (Origin e) c _
                (λ x here. persist_candidate-Origin e p σ x (went ∙ ap some here)) rest)
      ]

  pub run_extractor-Origin :
      (x : RunnableExtractor) (content : Bytes) (σ : IngestState O) (pass : Pass O event options)
      → run_extractor O event options x content σ ≡ some pass
      → All (Origin x.declared) pass.found
  unfolding run_extractor
  run_extractor-Origin x content σ pass h = elim (Option-cases (x.extract content)) [
    | inl threw ↦ absurd (cc (rw (run_extractor, threw) at h))
    | inr (proposals, found) ↦
        let own = persist_all-Origin x.declared proposals σ in
        elim (Bool-cases (persist_all O event options x.declared proposals σ).threw) [
          | inl bad ↦ absurd (cc (rw (run_extractor, found, bad) at h))
          | inr good ↦
              subst (λ (q : Pass O event options). All (Origin x.declared) q.found)
                (some-injective (rw (run_extractor, found, good) at h)) own
        ]
  ]

  pub call_model-Origin :
      (x : RunnableExtractor) (content : Bytes) (σ : IngestState O)
      → All (Origin x.declared) (call_model O event options x content σ).found
  unfolding call_model
  call_model-Origin x content σ = elim (Option-cases (x.extract content)) [
    | inl threw ↦ rw (call_model, threw) tt
    | inr (proposals, found) ↦ rw (call_model, found) (persist_all-Origin x.declared proposals σ)
  ]

  pub Origin-permitted :
      (admission : AdmissionResult) (x : RunnableExtractor) (rest : List RunnableExtractor)
      (found : List PersistedCandidate)
      → is_blocked x.declared admission ≡ false
      → All (Origin x.declared) found
      → All (λ c. is_admitted admission (x ∷ rest) c ≡ true) found
  Origin-permitted admission x rest found free own =
      All-map (Origin x.declared) (λ c. is_admitted admission (x ∷ rest) c ≡ true)
        (λ c same. rw (free, same) (ground (arith, beq_refl x.declared.id))) found own

  pub permitted-later :
      (admission : AdmissionResult) (before after : List RunnableExtractor)
      (found : List PersistedCandidate)
      → All (λ c. is_admitted admission after c ≡ true) found
      → All (λ c. is_admitted admission (before ++ after) c ≡ true) found
  permitted-later admission [] after found h = h
  permitted-later admission (x ∷ before) after found h =
      All-map _ _ (λ c here. ground arith) found (permitted-later admission before after found h)

  pub permitted-earlier :
      (admission : AdmissionResult) (before after : List RunnableExtractor)
      (found : List PersistedCandidate)
      → All (λ c. is_admitted admission before c ≡ true) found
      → All (λ c. is_admitted admission (before ++ after) c ≡ true) found
  permitted-earlier admission before after found h =
      All-map _ _ (λ c here. any-front _ before after here) found h

  abbrev first_step :
      AdmissionResult → Bytes → RunnableExtractor → IngestState O → Option (Pass O event options)
  first_step admission content x σ =
      if is_blocked x.declared admission
      then some (noted O event options (blocked x.declared.id) σ)
      else run_extractor O event options x content σ

  first_step-permitted :
      (admission : AdmissionResult) (content : Bytes) (x : RunnableExtractor)
      (rest : List RunnableExtractor) (σ : IngestState O) (here : Pass O event options)
      → first_step admission content x σ ≡ some here
      → All (λ c. is_admitted admission (x ∷ rest) c ≡ true) here.found
  first_step-permitted admission content x rest σ here h =
      elim (Bool-cases (is_blocked x.declared admission)) [
        | inl shut ↦
            subst
              (λ (q : Pass O event options).
                All (λ c. is_admitted admission (x ∷ rest) c ≡ true) q.found)
              (some-injective (rw (first_step, shut) at h)) tt
        | inr free ↦
            Origin-permitted admission x rest here.found free
              (run_extractor-Origin x content σ here (rw (first_step, free) at h))
      ]

  pub deterministic_pass-permitted :
      (admission : AdmissionResult) (content : Bytes) (extractors : List RunnableExtractor)
      (σ : IngestState O) (pass : Pass O event options)
      → deterministic_pass O event options admission content extractors σ ≡ some pass
      → All (λ c. is_admitted admission extractors c ≡ true) pass.found
  unfolding deterministic_pass
  deterministic_pass-permitted admission content [] σ pass h =
      subst (λ (q : Pass O event options). All (λ c. is_admitted admission [] c ≡ true) q.found)
        (some-injective h) tt
  deterministic_pass-permitted admission content (x ∷ extractors) σ pass h =
      elim (Option-cases (first_step admission content x σ)) [
        | inl threw ↦ absurd (cc (rw (deterministic_pass, threw) at h))
        | inr (here, went) ↦
            elim (Option-cases
              (deterministic_pass O event options admission content extractors here.state)) [
                | inl threw ↦ absurd (cc (rw (deterministic_pass, went, threw) at h))
                | inr (rest, later) ↦
                    subst
                      (λ (q : Pass O event options).
                        All (λ c. is_admitted admission (x ∷ extractors) c ≡ true) q.found)
                      (some-injective (rw (deterministic_pass, went, later) at h))
                      (All-append _ here.found rest.found
                        (first_step-permitted admission content x extractors σ here went)
                        (permitted-later admission (x ∷ []) extractors rest.found (
                          deterministic_pass-permitted admission content extractors here.state rest
                            later)))
              ]
      ]
