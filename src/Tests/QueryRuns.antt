-- ===== src/Tests/QueryRuns.antt =====
-- Runs of the planner, of fusion and of the packet on one stored claim.
use verity_mem.Prelude.{
  ℕ, ◌+◌, ◌/◌, ◌≡◌, refl, String, Bool, true, false, none, some, List, [], ◌∷◌, filter, contains,
  nat_eq, ltb, ◌=?◌,
}
use verity_mem.Contracts.Vocabulary.{usable, clarify}
use verity_mem.Claims.Use.{evaluate_use, evaluate_guards, evaluate_strength, age_in_days}
use verity_mem.Store.{ClaimRow, Database}
use verity_mem.Ledger.Spans.{verify_spans, verify_span, verify_content, get_last}
use verity_mem.Retrieval.Planner.{AccessTables, ScopeSelector, member_scopes, resolve_scopes}
use verity_mem.Retrieval.Planner.Keyed.{IsKeyed, has_scope, find_scope, holds_of}
use verity_mem.Retrieval.Planner.Laws.{is_reachable, resolve_scopes-reach}
use verity_mem.Retrieval.Plan.{QueryRequest, Channel, plan_query, scope_request}
use verity_mem.Retrieval.Fusion.{
  ScoreOps, ChannelHit, ChannelResult, FusedCandidate, add_hit, add_hits, add_results,
  insert_candidate, sort_candidates, fuse_results,
}
use verity_mem.Retrieval.Fusion.Laws.{count_candidates, bit, was_hit, fuse_results-once}
use verity_mem.Retrieval.Reads.{evidence_rows, relations_of}
use verity_mem.Retrieval.Compose.{Dependencies, MemoryPacket, combine_decisions, describe_gaps}
use verity_mem.Retrieval.Compose.Hydrate.{
  entries_of, packet_evidence, packet_claim, hydrate_from, hydrate,
}
use verity_mem.Retrieval.Compose.Answer.{run_channel, ranked, compose_within, compose}
use verity_mem.Retrieval.Compose.Laws.{IsAnswer, compose-IsAnswer}
use verity_mem.Retrieval.Compose.Oracle.{compose-no_oracle}
use verity_mem.Tests.World.{digest, said, cited_row, home, stored}

-- Scores in hundred-millionths.
abbrev fixed_point : ScoreOps ℕ
fixed_point = record {
  nothing = 0;
  add_reciprocal = λ s n. s + 100000000 / n;
  rounded = λ s. s;
  same = λ a b. a =? b;
  greater = λ a b. ltb b a;
}

abbrev lexical_result : ChannelResult ℕ
lexical_result = record {
  channel = Channel.lexical;
  hits = record { claim_id = 4; score = 9 } ∷ record { claim_id = 1; score = 5 } ∷ [];
  ran = true;
}

abbrev dense_result : ChannelResult ℕ
dense_result = record {
  channel = Channel.dense;
  hits = record { claim_id = 1; score = 7 } ∷ [];
  ran = true;
}

abbrev two_results : List (ChannelResult ℕ)
two_results = lexical_result ∷ dense_result ∷ []

fuse_results-once_example :
    count_candidates 1 (fuse_results fixed_point ltb none none two_results)
    ≡ bit (was_hit 1 two_results)
fuse_results-once_example = fuse_results-once fixed_point ltb none two_results 1

abbrev ids_of : List (FusedCandidate ℕ) → List ℕ
ids_of [] = []
ids_of (c ∷ rest) = c.claim_id ∷ ids_of rest

-- Two channels put a claim before the winner of one.
fused_order : ids_of (fuse_results fixed_point ltb none (some 1) two_results) ≡ 1 ∷ []
unfolding fuse_results add_results add_hits add_hit sort_candidates insert_candidate
fused_order = refl

abbrev within_scopes : List ℕ → Database → Database
within_scopes ids db = record db {
  claims = filter (λ (c : ClaimRow). contains ids c.scope_id) db.claims;
}

abbrev lexical_arm : Channel → List (ChannelHit ℕ) × Bool
lexical_arm Channel.lexical = (record { claim_id = 1; score = 5 } ∷ [], true)
lexical_arm Channel.temporal = ([], false)
lexical_arm channel = ([], true)

abbrev deps : Dependencies ℕ ℕ
deps = record {
  sha256 = digest;
  ops = fixed_point;
  locale_before = ltb;
  row_security = λ tenant principal ids purposes db. within_scopes ids db;
  arm = λ channel db query. lexical_arm channel;
  embed = λ text. none;
  dense_arm = λ vector db query. ([], true);
  entity_terms = λ text. [];
  is_model_call = false;
  gate_backend = none;
}

abbrev anyone : ScopeSelector
anyone = record { project = none; user = none; agent = none; session = none }

abbrev tables : AccessTables
tables = record {
  scopes = home ∷ [];
  principal_scopes = record { tenant_id = 1; principal_id = "alice"; scope_id = 1 } ∷ [];
  grants =
      record {
        grant_id = 1;
        tenant_id = 1;
        subject = "bob";
        matrix = record anyone { project = some "apollo" };
        actions = "read" ∷ [];
        purpose = [];
        expires_at = some 950;
      }
      ∷ [];
}

abbrev question : QueryRequest
question = record {
  query = "which editor";
  scope = record anyone { project = some "apollo" };
  purpose = "coding";
  time = none;
  action_risk = none;
  kinds = none;
  subjects = none;
  limit = none;
}

tables-IsKeyed : IsKeyed tables.scopes tables.scopes
tables-IsKeyed = (refl, tt)

-- The grant reaches the scope until it expires.
resolve_scopes-reach_example :
    has_scope 1 (resolve_scopes tables (scope_request 900 1 "bob" question)).scopes
    ≡ holds_of
        (is_reachable (scope_request 900 1 "bob" question) tables)
        (find_scope tables.scopes 1)
resolve_scopes-reach_example =
    resolve_scopes-reach tables (scope_request 900 1 "bob" question) 1 tables-IsKeyed

granted : has_scope 1 (resolve_scopes tables (scope_request 900 1 "bob" question)).scopes ≡ true
unfolding resolve_scopes member_scopes
granted = refl

expired : has_scope 1 (resolve_scopes tables (scope_request 950 1 "bob" question)).scopes ≡ false
unfolding resolve_scopes member_scopes
expired = refl

abbrev packet_for : String → Database → MemoryPacket ℕ
packet_for principal db =
    compose deps (said ∷ []) (cited_row ∷ []) 900 890 tables db 1 principal question none 0 1 0

-- The claim is returned with verified evidence, and may be used.
answered : (packet_for "alice" stored).decision ≡ usable
unfolding compose compose_within plan_query resolve_scopes member_scopes run_channel ranked
    fuse_results add_results add_hits add_hit sort_candidates insert_candidate hydrate hydrate_from
    packet_claim packet_evidence entries_of evidence_rows relations_of combine_decisions
    describe_gaps evaluate_use evaluate_guards evaluate_strength verify_spans verify_span
    verify_content get_last age_in_days
answered = refl

compose-IsAnswer_example :
    IsAnswer deps
      (said ∷ [])
      (cited_row ∷ [])
      900
      (within_scopes (plan_query tables 890 1 "alice" question [] none).authorized_scope_ids stored)
      12
      (packet_for "alice" stored)
compose-IsAnswer_example =
    compose-IsAnswer deps (said ∷ []) (cited_row ∷ []) 900 890 tables stored 1 "alice" question none
      0 1 0

abbrev emptied : Database
emptied = record stored { claims = [] }

compose-no_oracle_example :
    (packet_for "carol" stored
      ≡ compose deps [] [] 900 890 tables emptied 1 "carol" question none 5 1 0)
    × (((packet_for "carol" stored).claims ≡ []) × ((packet_for "carol" stored).decision ≡ clarify))
compose-no_oracle_example =
    compose-no_oracle deps (said ∷ []) [] (cited_row ∷ []) [] 900 890 tables stored emptied 1
      "carol" question none 0 5 1 0 tables-IsKeyed refl
