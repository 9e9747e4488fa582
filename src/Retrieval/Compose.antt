-- ===== src/Retrieval/Compose.antt =====
-- packages/retrieval/src/compose.ts: hydration and the packet. What the database and the runtime do is
-- in `Dependencies`: row-level security, the statements of the arms, embedding, hashes and scores.
-- Identifiers stand for their public form; a claim's scope is its id, and a conflict is the relation
-- with its direction. The trace that is written beside the packet is left out.
pub mod Evidence
pub mod Hydrate
pub mod Answer
pub mod Weakest
pub mod Laws
pub mod Oracle
use verity_mem.Prelude.{
  ℕ, ◌*◌, ◌≤◌, String, Bool, true, false, not, ◌&&◌, ◌||◌, Option, none, some, List, [], ◌∷◌, ◌++◌,
  map, any, all, filter, take, length, is_empty, unique, sort_on, leb, ltb, ◌=?◌, nat_eq, string_eq,
  if◌then◌else◌,
}
use verity_mem.Contracts.Vocabulary.{
  ActionRisk, ClaimKind, ClaimStatus, AuthorityClass, RelationKind, UseDecision, usable, verify,
  clarify, deny, TimeSpec,
}
use verity_mem.Contracts.ReasonCodes
use verity_mem.Claims.Use.{UseEvaluationInput, evaluate_use, age_in_days, is_stale}
use verity_mem.Store.{ScopeRow, ClaimRow, Database}
use verity_mem.Ledger.Spans.{
  Bytes, LedgerEvent, SpanRow, SpanRecord, SpanVerification, verified, verify_spans, get_last,
}
use verity_mem.Retrieval.Planner.{AccessTables, DeniedDimension}
use verity_mem.Retrieval.Plan.{QueryRequest, QueryPlan, Channel, plan_query, otherwise}
use verity_mem.Retrieval.Fusion.{
  ScoreOps, LocaleBefore, ChannelHit, ChannelResult, Signals, FusedCandidate, fuse_results,
}
use verity_mem.Retrieval.Reads.{
  ClaimRelation, find_claim, claim_map, relations_of, is_live_contradiction, evidence_rows,
  is_verified,
}
use verity_mem.Retrieval.Action.{decision_eq}

pub record ChannelQuery : Type 0 where
  pub tenant_id : ℕ
  pub text : String
  pub authorized_scopes : List ScopeRow
  pub purposes : List String
  pub time : TimeSpec
  pub kinds : Option (List ClaimKind)
  pub subjects : Option (List String)
  pub entity_terms : List String
  pub limit : ℕ
  pub now : ℕ

pub record PacketEvidence : Type 0 where
  pub event_id : ℕ
  pub span_id : ℕ
  pub start : ℕ
  pub end : ℕ
  pub quote : Option Bytes
  pub digest : ℕ
  pub digest_ok : Bool

pub record PacketConflict : Type 0 where
  pub rel : RelationKind
  pub outgoing : Bool

pub record PacketClaim (Score : Type 0) : Type 0 where
  pub claim_id : ℕ
  pub kind : ClaimKind
  pub status : ClaimStatus
  pub authority : AuthorityClass
  pub decision : UseDecision
  pub use_reason_codes : List String
  pub scope_id : ℕ
  pub valid_from : ℕ
  pub valid_to : Option ℕ
  pub age_days : ℕ
  pub stale : Bool
  pub expires_at : Option ℕ
  pub evidence : List PacketEvidence
  pub conflicts : List PacketConflict
  pub signals : Signals Score
  pub fuse_score : Score
  pub channels : List Channel

-- The texts of `missing`.
pub data Gap : Type 0 where
  no_match none_survived : Gap
  outside_authorization : List DeniedDimension → Gap
  contradictions stale_claims unusable_claims : ℕ → Gap

pub record MemoryPacket (Score : Type 0) : Type 0 where
  pub trace_id : ℕ
  pub decision : UseDecision
  pub decision_reason_codes : List String
  pub claims : List (PacketClaim Score)
  pub missing : List Gap
  pub channels_used : List Channel
  pub candidates_considered : ℕ
  pub candidates_after_authz : ℕ
  pub candidates_returned : ℕ
  pub candidates_denied_by_authz : ℕ
  pub time_mode : TimeSpec
  pub projection_watermark : ℕ
  pub policy_version : String
  pub gate_backend : String
  pub model_calls : ℕ
  pub latency_ms : ℕ

pub record Dependencies (Score Vector : Type 0) : Type 0 where
  pub sha256 : Bytes → ℕ
  pub ops : ScoreOps Score
  pub locale_before : LocaleBefore
  pub row_security : ℕ → String → List ℕ → List String → Database → Database
  pub arm : Channel → Database → ChannelQuery → List (ChannelHit Score) × Bool
  pub embed : String → Option Vector
  pub dense_arm : Vector → Database → ChannelQuery → List (ChannelHit Score) × Bool
  pub entity_terms : String → List String
  pub is_model_call : Bool
  pub gate_backend : Option String

-- `combineDecisions`: the first of the order that is there.
abbrev pub first_of : List UseDecision → List UseDecision → UseDecision
first_of [] decisions = clarify
first_of (d ∷ order) decisions =
    let later = first_of order decisions in if any (decision_eq d) decisions then d else later

unfoldable pub combine_decisions : List UseDecision → UseDecision
combine_decisions [] = clarify
combine_decisions (d ∷ decisions) = first_of (deny ∷ clarify ∷ verify ∷ usable ∷ []) (d ∷ decisions)

abbrev pub is_conflicting : PacketConflict → Bool
is_conflicting c = elim c.rel [ RelationKind.contradicts ↦ true | _ ↦ false ]

abbrev pub count_gap : (ℕ → Gap) → ℕ → List Gap
count_gap gap n = if ltb 0 n then gap n ∷ [] else []

unfoldable pub describe_gaps :
    {Score : Type 0} → List (PacketClaim Score) → QueryPlan → ℕ → List Gap
describe_gaps {Score} claims plan considered =
    (if is_empty claims then (if considered =? 0 then no_match else none_survived) ∷ [] else [])
    ++ (if is_empty plan.denied_dimensions
        then []
        else outside_authorization plan.denied_dimensions ∷ [])
    ++ count_gap contradictions
        (length (filter (λ (c : PacketClaim Score). any is_conflicting c.conflicts) claims))
    ++ count_gap stale_claims (length (filter (λ (c : PacketClaim Score). c.stale) claims))
    ++ count_gap unusable_claims (
        length (
          filter
            (λ (c : PacketClaim Score).
              decision_eq deny c.decision || decision_eq verify c.decision)
            claims))
