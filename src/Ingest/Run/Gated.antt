-- ===== src/Ingest/Run/Gated.antt =====
-- The loop over the candidates: the gate's own answer to each, and a message for each claim.
use verity_mem.Prelude.{
  some-injective, append_assoc, append_nil, ◌≡◌, refl, sym, subst, ◌∙◌, inl, inr, some, List, [],
  ◌∷◌, ◌++◌, string_eq, Option-cases,
}
use verity_mem.Ingest.Records.{
  IngestOps, IngestEvent, IngestOptions, IngestState, PersistedCandidate, GateVerdict,
  CandidateEvidence, ProjectMessage,
}
use verity_mem.Ingest.Run.{gate_all, project_message, evidence_for}

abbrev pub messages_of :
    (O : IngestOps) → IngestEvent → IngestOptions → List GateVerdict → List ProjectMessage
messages_of O event options [] = []
messages_of O event options (v ∷ verdicts) =
    project_message O event options v ++ messages_of O event options verdicts

module _ (O : IngestOps) (event : IngestEvent) (options : IngestOptions) where
  -- The verdicts are the answers of the gate to the candidates, one after the other and each with its
  -- own rows of evidence, from one state of the gate to another.
  abbrev pub Judged :
      List CandidateEvidence
      → List PersistedCandidate
      → O.State
      → List GateVerdict
      → O.State
      → Type 0
  Judged evidence [] s [] s' = s ≡ s'
  Judged evidence [] s (v ∷ verdicts) s' = ⊥
  Judged evidence (c ∷ candidates) s [] s' = ⊥
  Judged evidence (c ∷ candidates) s (v ∷ verdicts) s' =
      (next : O.State) × (O.evaluate c (evidence_for O event options c.candidate_id evidence) s
        ≡ some (v, next))
      × Judged evidence candidates next verdicts s'

  -- Every candidate is judged, the evidence stays, and there is a message for each claim.
  abbrev pub IsGated :
      List PersistedCandidate → IngestState O → List GateVerdict → IngestState O → Type 0
  IsGated candidates σ verdicts σ' =
      Judged σ'.evidence candidates σ.inner verdicts σ'.inner
      × (σ'.evidence ≡ σ.evidence)
      × (σ'.messages ≡ σ.messages ++ messages_of O event options verdicts)

  pub gate_all-IsGated :
      (candidates : List PersistedCandidate) (σ σ' : IngestState O) (verdicts : List GateVerdict)
      → gate_all O event options candidates σ ≡ some (verdicts, σ')
      → IsGated candidates σ verdicts σ'
  unfolding gate_all
  gate_all-IsGated [] σ σ' verdicts h =
      subst (λ (x : List GateVerdict × IngestState O). IsGated [] σ x.0 x.1) (some-injective h)
        (refl, refl, sym (append_nil σ.messages))
  gate_all-IsGated (c ∷ candidates) σ σ' verdicts h =
      elim (Option-cases
        (O.evaluate c (evidence_for O event options c.candidate_id σ.evidence) σ.inner)) [
          | inl threw ↦ absurd (cc (rw (gate_all, threw) at h))
          | inr ((v, s), went) ↦
              let next = record σ {
                inner = s;
                messages = σ.messages ++ project_message O event options v;
              } in
              elim (Option-cases (gate_all O event options candidates next)) [
                | inl threw ↦ absurd (cc (rw (gate_all, went, threw) at h))
                | inr ((vs, σ''), rest) ↦
                    let ih = gate_all-IsGated candidates next σ'' vs rest in
                    let own =
                      subst
                        (λ rows.
                          O.evaluate c (evidence_for O event options c.candidate_id rows) σ.inner
                          ≡ some (v, s))
                        (sym ih.1) went in
                    subst
                      (λ (x : List GateVerdict × IngestState O). IsGated (c ∷ candidates) σ x.0 x.1)
                      (some-injective (rw (gate_all, went, rest) at h))
                      (
                        (s, own, ih.0),
                        ih.1,
                        ih.2
                            ∙ append_assoc σ.messages (project_message O event options v)
                                (messages_of O event options vs),
                      )
              ]
        ]
