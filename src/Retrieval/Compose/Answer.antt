-- ===== src/Retrieval/Compose/Answer.antt =====
-- `runChannels` and `compose` of packages/retrieval/src/compose.ts.
use verity_mem.Prelude.{
  ℕ, ◌*◌, String, Bool, false, Option, none, some, List, [], ◌∷◌, ◌++◌, map, filter, take, length,
  is_empty, unique, leb, nat_eq, string_eq, if◌then◌else◌,
}
use verity_mem.Contracts.Vocabulary.{clarify}
use verity_mem.Contracts.ReasonCodes
use verity_mem.Store.{Database}
use verity_mem.Ledger.Spans.{LedgerEvent, SpanRow}
use verity_mem.Retrieval.Planner.{AccessTables}
use verity_mem.Retrieval.Plan.{QueryRequest, QueryPlan, Channel, plan_query, otherwise}
use verity_mem.Retrieval.Fusion.{ChannelHit, ChannelResult, FusedCandidate, fuse_results}
use verity_mem.Retrieval.Compose.{
  ChannelQuery, PacketClaim, MemoryPacket, Dependencies, combine_decisions, describe_gaps,
}
use verity_mem.Retrieval.Compose.Hydrate.{hydrate}

module _ {Score Vector : Type 0} (deps : Dependencies Score Vector) (events : List LedgerEvent)
    (spans : List SpanRow) (now : ℕ) where
  abbrev pub channel_result : Channel → List (ChannelHit Score) × Bool → ChannelResult Score
  channel_result channel (hits, ran) = record { channel = channel; hits = hits; ran = ran }

  -- One planned channel; the dense one does not run without a vector.
  unfoldable pub run_channel : Database → ChannelQuery → Channel → ChannelResult Score
  run_channel db query Channel.dense = elim (deps.embed query.text) [
    | none ↦ channel_result Channel.dense ([], false)
    | some vector ↦ channel_result Channel.dense (deps.dense_arm vector db query)
  ]
  run_channel db query channel = channel_result channel (deps.arm channel db query)

  abbrev pub run_channels : Database → ChannelQuery → List Channel → List (ChannelResult Score)
  run_channels db query channels = map (run_channel db query) channels

  abbrev pub channel_query : ℕ → QueryRequest → QueryPlan → ChannelQuery
  channel_query tenant query plan = record {
    tenant_id = tenant;
    text = query.query;
    authorized_scopes = plan.authorized_scopes;
    purposes = query.purpose ∷ [];
    time = plan.time;
    kinds = plan.kinds;
    subjects = plan.subjects;
    entity_terms = plan.entity_terms;
    limit = if leb 24 (plan.limit * 4) then plan.limit * 4 else 24;
    now = now;
  }

  abbrev pub hit_ids : List (ChannelResult Score) → List ℕ
  hit_ids [] = []
  hit_ids (r ∷ results) = map (λ (h : ChannelHit Score). h.claim_id) r.hits ++ hit_ids results

  abbrev pub used_codes : List (PacketClaim Score) → List String
  used_codes [] = []
  used_codes (c ∷ claims) = c.use_reason_codes ++ used_codes claims

  unfoldable pub empty_packet : QueryPlan → ℕ → ℕ → MemoryPacket Score
  unfolding describe_gaps
  empty_packet plan trace latency = record {
    trace_id = trace;
    decision = clarify;
    decision_reason_codes = ReasonCodes.use_scope_narrower_than_query ∷ [];
    claims = [];
    missing = describe_gaps {Score = Score} [] plan 0;
    channels_used = [];
    candidates_considered = 0;
    candidates_after_authz = 0;
    candidates_returned = 0;
    candidates_denied_by_authz = 0;
    time_mode = plan.time;
    projection_watermark = 0;
    policy_version = plan.policy_version;
    gate_backend = otherwise deps.gate_backend "unknown";
    model_calls = 0;
    latency_ms = latency;
  }

  -- The fused candidates, in the order of the reranker when there is one.
  unfoldable pub ranked :
      List (ChannelResult Score)
      → QueryPlan
      → Option (List (FusedCandidate Score) → List (FusedCandidate Score))
      → List (FusedCandidate Score)
  unfolding fuse_results
  ranked channels plan rerank =
      otherwise rerank (λ c. c)
        (fuse_results deps.ops deps.locale_before none (some (plan.limit * 3)) channels)

  -- `compose` from the bound boundary on, on what row-level security lets through.
  unfoldable pub compose_within :
      Database
      → ℕ
      → QueryRequest
      → QueryPlan
      → Option (List (FusedCandidate Score) → List (FusedCandidate Score))
      → ℕ
      → ℕ
      → ℕ
      → MemoryPacket Score
  unfolding hydrate run_channel ranked combine_decisions describe_gaps
  compose_within visible tenant query plan rerank watermark trace latency =
      let channels = run_channels visible (channel_query tenant query plan) plan.channels in
      let returned =
        take plan.limit
          (hydrate deps events spans now visible query.action_risk (ranked channels plan rerank)) in
      let considered = length (unique (hit_ids channels)) in
      record {
        trace_id = trace;
        decision = combine_decisions (map (λ (c : PacketClaim Score). c.decision) returned);
        decision_reason_codes = unique (used_codes returned);
        claims = returned;
        missing = describe_gaps returned plan considered;
        channels_used =
            map (λ (r : ChannelResult Score). r.channel)
              (filter (λ (r : ChannelResult Score). r.ran) channels);
        candidates_considered = considered;
        candidates_after_authz = considered;
        candidates_returned = length returned;
        candidates_denied_by_authz = 0;
        time_mode = plan.time;
        projection_watermark = watermark;
        policy_version = plan.policy_version;
        gate_backend = otherwise deps.gate_backend "unknown";
        model_calls = if deps.is_model_call then 1 else 0;
        latency_ms = latency;
      }

  -- `compose`: the plan, and nothing but the plan when it authorises no scope. The planner reads a
  -- clock of its own, `planned_at`.
  unfoldable pub compose :
      ℕ
      → AccessTables
      → Database
      → ℕ
      → String
      → QueryRequest
      → Option (List (FusedCandidate Score) → List (FusedCandidate Score))
      → ℕ
      → ℕ
      → ℕ
      → MemoryPacket Score
  unfolding compose_within empty_packet plan_query
  compose planned_at tables db tenant principal query rerank watermark trace latency =
      let plan =
        plan_query tables planned_at tenant principal query (deps.entity_terms query.query) none in
      let visible =
        deps.row_security tenant principal plan.authorized_scope_ids (query.purpose ∷ []) db in
      if is_empty plan.authorized_scope_ids
      then empty_packet plan trace latency
      else compose_within visible tenant query plan rerank watermark trace latency
