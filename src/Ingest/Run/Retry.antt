-- ===== src/Ingest/Run/Retry.antt =====
-- What a retry of the same proposal finds.
use verity_mem.Prelude.{
  ℕ, ◌≡◌, refl, sym, subst, inl, inr, true, some, List, find, string_eq, beq_refl, Option-cases,
  arith,
}
use verity_mem.Contracts.Vocabulary.{ClaimKind}
use verity_mem.Store.{Value}
use verity_mem.Ledger.Spans.{SpanRecord}
use verity_mem.Ingest.{Extractor}
use verity_mem.Ingest.Records.{
  IngestOps, IngestEvent, IngestOptions, IngestState, PersistedCandidate, Proposal,
}
use verity_mem.Ingest.Run.{
  find_or_insert, is_candidate_of, with_candidate, new_candidate, persisted,
}

-- The equality of the database finds a value equal to itself.
pub record IsReflexive (O : IngestOps) : Type 0 where
  pub kind : (k : ClaimKind) → O.same_kind k k ≡ true
  pub object : (v : Value) → O.same_object v v ≡ true

module _ (O : IngestOps) (event : IngestEvent) (options : IngestOptions) where
  abbrev Again :
      Extractor → Proposal → ℕ → List SpanRecord → PersistedCandidate × IngestState O → Type 0
  Again e p scope' spans' x =
      find_or_insert O event options e p scope' spans' x.1
      ≡ (persisted O event options x.0.candidate_id e p scope' spans', x.1)

  found-Again :
      (e : Extractor) (p : Proposal) (scope scope' : ℕ) (spans spans' : List SpanRecord)
      (σ : IngestState O) (v : PersistedCandidate × IngestState O)
      → find_or_insert O event options e p scope spans σ ≡ v
      → Again e p scope' spans' v
      → Again e p scope' spans' (find_or_insert O event options e p scope spans σ)
  found-Again e p scope scope' spans spans' σ v first again =
      subst (Again e p scope' spans') (sym first) again

  -- A retry of the same proposal finds the candidate of the first time: it gets the same identifier,
  -- and no row is written, whatever scope and spans the retry resolved.
  pub find_or_insert-again :
      (e : Extractor) (p : Proposal) (scope scope' : ℕ) (spans spans' : List SpanRecord)
      (σ : IngestState O)
      → IsReflexive O
      → find_or_insert O event options e p scope' spans'
          (find_or_insert O event options e p scope spans σ).1
        ≡ (
          persisted O event options
              (find_or_insert O event options e p scope spans σ).0.candidate_id
              e
              p
              scope'
              spans',
          (find_or_insert O event options e p scope spans σ).1,
        )
  unfolding find_or_insert
  find_or_insert-again e p scope scope' spans spans' σ same =
      elim (Option-cases (find (is_candidate_of O event options e p) σ.candidates)) [
        | inr (prior, hit) ↦
            found-Again e p scope scope' spans spans' σ
              (persisted O event options prior.candidate_id e p scope spans, σ)
              (rw (find_or_insert, hit) refl) (rw (find_or_insert, hit) refl)
        | inl miss ↦
            let own : find (is_candidate_of O event options e p)
                  (with_candidate O event options e p scope spans σ).candidates
                ≡ some (new_candidate O event options e p scope spans σ) =
              ground (
                arith,
                same.kind p.kind,
                same.object p.object,
                beq_refl e.id,
                beq_refl p.subject,
                beq_refl p.predicate,
              ) in
            found-Again e p scope scope' spans spans' σ
              (
                persisted O event options σ.next_candidate e p scope spans,
                with_candidate O event options e p scope spans σ,
              )
              (rw (find_or_insert, miss) refl) (rw (find_or_insert, own) refl)
      ]
