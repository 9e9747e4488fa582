-- ===== src/Ingest/Run/Laws.antt =====
-- What an ingest that returned owes to the gate, to the budget of the model and to admission.
use verity_mem.Prelude.{
  some-injective, All-append, ℕ, ◌≡◌, refl, subst, inl, inr, Bool, true, false, ◌||◌, Option, none,
  some, List, [], ◌∷◌, ◌++◌, string_eq, if◌then◌else◌, Bool-cases, Option-cases, All,
}
use verity_mem.Ledger.Spans.{Bytes}
use verity_mem.Ingest.{AdmissionResult, admit, is_blocked}
use verity_mem.Ingest.Records.{
  IngestOps, IngestEvent, IngestOptions, IngestState, IngestResult, RunnableExtractor,
}
use verity_mem.Ingest.Run.{
  Pass, then_pass, persist_all, run_extractor, call_model, deterministic_pass, run_model,
  model_pass, gate_all, ingest_content, ingest, ingest_result,
}
use verity_mem.Ingest.Run.Gated.{Judged, gate_all-IsGated}
use verity_mem.Ingest.Run.Origin.{
  run_extractor-Origin, call_model-Origin, is_admitted, Origin-permitted, permitted-later,
  permitted-earlier, deterministic_pass-permitted,
}

module _ (O : IngestOps) (event : IngestEvent) (options : IngestOptions) where
  -- The model's place in the list of extractors.
  abbrev pub model_list : Option RunnableExtractor → List RunnableExtractor
  model_list none = []
  model_list (some x) = x ∷ []

  -- The calls that the budget of one event allows: one, of a model that may run.
  abbrev pub allowance : Bool → Bool → Bool → ℕ
  allowance only shut calls = if only || shut then 0 else if calls then 1 else 0

  abbrev pub budget : AdmissionResult → Option RunnableExtractor → ℕ
  budget admission none = 0
  budget admission (some x) =
      allowance options.deterministic_only (is_blocked x.declared admission)
        x.declared.is_model_call

  run_extractor-calls :
      (x : RunnableExtractor) (content : Bytes) (σ : IngestState O) (pass : Pass O event options)
      → run_extractor O event options x content σ ≡ some pass
      → pass.calls ≡ 0
  unfolding run_extractor
  run_extractor-calls x content σ pass h = elim (Option-cases (x.extract content)) [
    | inl threw ↦ absurd (cc (rw (run_extractor, threw) at h))
    | inr (proposals, found) ↦
        elim (Bool-cases (persist_all O event options x.declared proposals σ).threw) [
          | inl bad ↦ absurd (cc (rw (run_extractor, found, bad) at h))
          | inr good ↦
              subst (λ (q : Pass O event options). q.calls ≡ 0)
                (some-injective (rw (run_extractor, found, good) at h)) refl
        ]
  ]

  call_model-calls :
      (x : RunnableExtractor) (content : Bytes) (σ : IngestState O)
      → (call_model O event options x content σ).calls ≡ 1
  unfolding call_model
  call_model-calls x content σ = elim (Option-cases (x.extract content)) [
    | inl threw ↦ rw (call_model, threw) refl
    | inr (proposals, found) ↦ rw (call_model, found) refl
  ]

  abbrev InBudget : AdmissionResult → Option RunnableExtractor → Pass O event options → Type 0
  InBudget admission model pass =
      (pass.calls ≡ budget admission model)
      × All (λ c. is_admitted admission (model_list model) c ≡ true) pass.found

  abbrev Allowed : AdmissionResult → ℕ → List RunnableExtractor → Pass O event options → Type 0
  Allowed admission calls extractors pass =
      (pass.calls ≡ calls) × All (λ c. is_admitted admission extractors c ≡ true) pass.found

  run_model-Allowed :
      (admission : AdmissionResult) (only shut calls : Bool) (x : RunnableExtractor)
      (content : Bytes) (σ : IngestState O) (pass : Pass O event options)
      → is_blocked x.declared admission ≡ shut
      → run_model O event options only shut calls x content σ ≡ some pass
      → Allowed admission (allowance only shut calls) (x ∷ []) pass
  unfolding run_model
  run_model-Allowed admission true shut calls x content σ pass e h =
      subst (Allowed admission 0 (x ∷ [])) (some-injective h) (refl, tt)
  run_model-Allowed admission false true calls x content σ pass e h =
      subst (Allowed admission 0 (x ∷ [])) (some-injective h) (refl, tt)
  run_model-Allowed admission false false true x content σ pass e h =
      subst (Allowed admission 1 (x ∷ [])) (some-injective h) (
        call_model-calls x content σ,
        Origin-permitted O event options admission x [] _ e
            (call_model-Origin O event options x content σ),
      )
  run_model-Allowed admission false false false x content σ pass e h =
      elim (Option-cases (run_extractor O event options x content σ)) [
        | inl threw ↦ absurd (cc (rw (run_model, threw) at h))
        | inr (run, went) ↦
            subst (Allowed admission 0 (x ∷ [])) (some-injective (rw (run_model, went) at h)) (
              run_extractor-calls x content σ run went,
              Origin-permitted O event options admission x [] _ e
                  (run_extractor-Origin O event options x content σ run went),
            )
      ]

  model_pass-Allowed :
      (admission : AdmissionResult) (content : Bytes) (model : Option RunnableExtractor)
      (σ : IngestState O) (pass : Pass O event options)
      → model_pass O event options admission content model σ ≡ some pass
      → Allowed admission (budget admission model) (model_list model) pass
  unfolding model_pass
  model_pass-Allowed admission content none σ pass h =
      subst (Allowed admission 0 []) (some-injective h) (refl, tt)
  model_pass-Allowed admission content (some x) σ pass h =
      run_model-Allowed admission options.deterministic_only (is_blocked x.declared admission)
        x.declared.is_model_call x content σ pass refl h

  -- The calls that an event's content leaves to the model.
  abbrev pub calls_for : Option Bytes → AdmissionResult → Option RunnableExtractor → ℕ
  calls_for none admission model = 0
  calls_for (some content) admission model = budget admission model

  -- What an ingest that returned owes: the gate's answers to its candidates, the calls that the budget
  -- gives for an event with content, and candidates of extractors that admission lets run.
  pub record IsAccounted (content : Option Bytes) (admission : AdmissionResult)
      (deterministic : List RunnableExtractor) (model : Option RunnableExtractor) (r : IngestResult)
      (σ' : IngestState O) : Type 0 where
    pub before_gate : O.State
    pub judged : Judged O event options σ'.evidence r.candidates before_gate r.decisions σ'.inner
    pub in_budget : r.model_calls ≡ calls_for content admission model
    pub permitted :
        All (λ c. is_admitted admission (deterministic ++ model_list model) c ≡ true) r.candidates

  abbrev gated : Pass O event options → Pass O event options → Option (IngestResult × IngestState O)
  gated first second = elim (gate_all O event options (first.found ++ second.found) second.state) [
    | none ↦ none
    | some (verdicts, σ') ↦
        some (ingest_result O event options (then_pass O event options first second) verdicts, σ')
  ]

  gated-IsAccounted :
      (content : Bytes) (admission : AdmissionResult) (deterministic : List RunnableExtractor)
      (model : Option RunnableExtractor) (first second : Pass O event options) (r : IngestResult)
      (σ' : IngestState O)
      → gated first second ≡ some (r, σ')
      → All (λ c. is_admitted admission deterministic c ≡ true) first.found
      → Allowed admission (budget admission model) (model_list model) second
      → IsAccounted (some content) admission deterministic model r σ'
  gated-IsAccounted content admission deterministic model first second r σ' h own later =
      let found = first.found ++ second.found in
      elim (Option-cases (gate_all O event options (first.found ++ second.found) second.state)) [
        | inl threw ↦ absurd (cc (rw (gated, threw) at h))
        | inr ((verdicts, σ''), went) ↦
            subst
              (λ (x : IngestResult × IngestState O).
                IsAccounted (some content) admission deterministic model x.0 x.1)
              (some-injective (rw (gated, went) at h))
              (record {
                before_gate = second.state.inner;
                judged = (gate_all-IsGated O event options found second.state σ'' verdicts went).0;
                in_budget = later.0;
                permitted =
                    All-append _ first.found second.found
                      (permitted-earlier O event options admission deterministic (model_list model)
                        first.found own)
                      (permitted-later O event options admission deterministic (model_list model)
                        second.found later.1);
              })
      ]

  ingest_content-IsAccounted :
      (content : Option Bytes) (admission : AdmissionResult)
      (deterministic : List RunnableExtractor) (model : Option RunnableExtractor)
      (σ σ' : IngestState O) (r : IngestResult)
      → ingest_content O event options content admission deterministic model σ ≡ some (r, σ')
      → IsAccounted content admission deterministic model r σ'
  unfolding ingest_content
  ingest_content-IsAccounted none admission deterministic model σ σ' r h =
      subst
        (λ (x : IngestResult × IngestState O).
          IsAccounted none admission deterministic model x.0 x.1)
        (some-injective h)
        (record { before_gate = σ.inner; judged = refl; in_budget = refl; permitted = tt })
  ingest_content-IsAccounted (some content) admission deterministic model σ σ' r h =
      elim (Option-cases (deterministic_pass O event options admission content deterministic σ)) [
        | inl threw ↦ absurd (cc (rw (ingest_content, threw) at h))
        | inr (first, one) ↦
            elim (Option-cases (model_pass O event options admission content model first.state)) [
              | inl threw ↦ absurd (cc (rw (ingest_content, one, threw) at h))
              | inr (second, two) ↦
                  gated-IsAccounted content admission deterministic model first second r σ'
                    (rw (ingest_content, one, two) at h)
                    (deterministic_pass-permitted O event options admission content deterministic σ
                      first one)
                    (model_pass-Allowed admission content model first.state second two)
            ]
      ]

  -- When an event is ingested without an error: the decisions are the gate's answers to the candidates,
  -- in their order, each given the rows of evidence of its own candidate, the gate's state handed from
  -- one to the next and ending as the stored one; the reported number of model calls is one when a
  -- model is configured, is a model call, may run under the options and is not blocked by admission,
  -- and the event has content, and otherwise zero; and every candidate names a configured extractor
  -- that admission does not block.
  pub ingest-IsAccounted :
      (patterns : List (Bytes → Option Bytes)) (deterministic : List RunnableExtractor)
      (model : Option RunnableExtractor) (σ σ' : IngestState O) (r : IngestResult)
      → ingest O event options patterns deterministic model σ ≡ some (r, σ')
      → IsAccounted event.content
          (admit patterns event.origin event.content event.sensitivity)
          deterministic
          model
          r
          σ'
  unfolding ingest
  ingest-IsAccounted patterns deterministic model σ σ' r h =
      ingest_content-IsAccounted event.content
        (admit patterns event.origin event.content event.sensitivity) deterministic model σ σ' r h
