-- ===== src/Tests/ProjectionRuns.antt =====
-- Runs of the projections and of the ingest pipeline.
use verity_mem.Prelude.{ℕ, ◌≡◌, refl, true, false, ◌&&◌, none, some, [], ◌∷◌, any, Option}
use verity_mem.Contracts.Vocabulary.{OriginKind, Sensitivity, ClaimKind, ClaimStatus}
use verity_mem.Store.{Value}
use verity_mem.Projections.{ProjectionTables, ProjectionRuntime, is_projected, project_claim}
use verity_mem.Projections.Laws.{project_claim-found}
use verity_mem.Projections.Rebuild.{is_wanted, rebuild_projections}
use verity_mem.Projections.Rebuild.Laws.{has_index, is_vectored, rebuild_projections-index}
use verity_mem.Ingest.{admit, requested_input}
use verity_mem.Ingest.Records.{
  put_each_evidence, put_evidence, IngestOps, IngestEvent, IngestOptions, IngestState, IngestResult,
  Proposal, RunnableExtractor,
}
use verity_mem.Ingest.Run.{find_or_insert, persisted, ingest}
use verity_mem.Ingest.Run.Laws.{IsAccounted, ingest-IsAccounted}
use verity_mem.Ingest.Run.Retry.{IsReflexive, find_or_insert-again}
use verity_mem.Tests.World.{home, earlier_claim, cited, cited_span}

abbrev runtime : ProjectionRuntime
runtime = record {
  trim = λ s. s;
  to_lower = λ s. s;
  length = λ s. 3;
  collapsed = λ a b c. a;
  embed = λ s. some (1 ∷ []);
  model_id = "m";
}

abbrev nothing : ProjectionTables
nothing = record {
  claim_embeddings = [];
  entity_aliases = [];
  claim_entities = [];
  projection_versions = [];
}

project_claim-found_example : is_projected ClaimStatus.accepted ≡ true
unfolding project_claim
project_claim-found_example =
    project_claim-found runtime true [] (earlier_claim ∷ []) earlier_claim 1 nothing refl refl

rebuild_projections-index_example :
    has_index 1 1 (rebuild_projections runtime [] (earlier_claim ∷ []) (λ rows. 0) 1 true nothing).0
    ≡ any
        (λ c. is_wanted 1 c && is_vectored runtime [] (earlier_claim ∷ []) 1 1 c)
        (earlier_claim ∷ [])
rebuild_projections-index_example =
    rebuild_projections-index runtime [] (earlier_claim ∷ []) (λ rows. 0) 1 1 nothing (refl, tt)

-- A ledger that hands the cited span back, and a gate that accepts everything.
abbrev ops : IngestOps
ops = record {
  State = ℕ;
  ensure_scope = λ input s. (some 9, s);
  write_spans = λ event spans s. (some (cited_span ∷ []), s);
  evaluate =
      λ c rows s. some (record { decision_id = 1; claim_id = some 1; accepted_scope_id = 1 }, s);
  same_kind = λ a b. true;
  same_object = λ a b. true;
}

abbrev heard : IngestEvent
heard = record {
  event_id = 1;
  tenant_id = 1;
  scope = home;
  origin = OriginKind.user;
  sensitivity = Sensitivity.normal;
  content = some (104 ∷ 101 ∷ 121 ∷ 33 ∷ []);
}

abbrev idea : Proposal
idea = record {
  kind = ClaimKind.preference;
  subject = "user:alice";
  predicate = "editor";
  object = Value.text "vim";
  spans = record { input = cited; role = none } ∷ [];
  authority = none;
  requested_scope = record {
    project = none;
    user = none;
    agent = none;
    session = none;
    purpose = none;
  };
}

abbrev defaults : IngestOptions
defaults = record {
  requested_scope = record {
    project = none;
    user = none;
    agent = none;
    session = none;
    purpose = none;
  };
  authority_override = none;
  deterministic_only = false;
}

abbrev rules : RunnableExtractor
rules = record {
  declared = record { id = "rules"; is_model_call = false; produces = ClaimKind.preference ∷ [] };
  extract = λ content. some (idea ∷ []);
}

abbrev fresh : IngestState ops
fresh = record { inner = 0; candidates = []; evidence = []; messages = []; next_candidate = 1 }

abbrev taken : Option (IngestResult × IngestState ops)
taken = ingest ops heard defaults [] (rules ∷ []) (some rules) fresh

abbrev taken_or : Option (IngestResult × IngestState ops) → IngestResult × IngestState ops
taken_or none = (
  record { candidates = []; decisions = []; model_calls = 0; extractor_versions = []; notes = [] },
  fresh,
)
taken_or (some r) = r

went : taken ≡ some ((taken_or taken).0, (taken_or taken).1)
unfolding ingest requested_input put_each_evidence put_evidence
went = refl

ingest-IsAccounted_example :
    IsAccounted ops heard defaults heard.content
      (admit [] OriginKind.user heard.content Sensitivity.normal)
      (rules ∷ [])
      (some rules)
      (taken_or taken).0
      (taken_or taken).1
ingest-IsAccounted_example =
    ingest-IsAccounted ops heard defaults [] (rules ∷ []) (some rules) fresh (taken_or taken).1
      (taken_or taken).0 went

ops-IsReflexive : IsReflexive ops
ops-IsReflexive = record { kind = λ k. refl; object = λ v. refl }

find_or_insert-again_example :
    find_or_insert ops heard defaults rules.declared idea 1
      (cited_span ∷ [])
      (find_or_insert ops heard defaults rules.declared idea 1 (cited_span ∷ []) fresh).1
    ≡ (
      persisted ops heard defaults
          (find_or_insert ops heard defaults rules.declared idea 1
            (cited_span ∷ [])
            fresh).0.candidate_id
          rules.declared
          idea
          1
          (cited_span ∷ []),
      (find_or_insert ops heard defaults rules.declared idea 1 (cited_span ∷ []) fresh).1,
    )
find_or_insert-again_example =
    find_or_insert-again ops heard defaults rules.declared idea 1 1 (cited_span ∷ [])
      (cited_span ∷ []) fresh ops-IsReflexive
