-- ===== src/Contracts/Profiles/Laws.antt =====
-- The authorization matrix of profiles.ts as one order of privilege.
use verity_mem.Prelude.{ℕ, ◌≡◌, arith, leb}
use verity_mem.Contracts.Vocabulary.{ToolProfile, reader, contributor, reviewer, privacy_admin}
use verity_mem.Contracts.Profiles.{
  ToolName, memory_query, memory_compose, memory_explain, memory_trace, memory_claim_read,
  memory_candidate_read, memory_event_read, memory_record, memory_propose, memory_feedback,
  memory_decide, memory_relate, memory_reverify, action_gate, profile_allows,
}

-- Increasing privilege.
abbrev pub profile_rank : ToolProfile → ℕ
profile_rank reader = 0
profile_rank contributor = 1
profile_rank reviewer = 2
profile_rank privacy_admin = 3

-- The least profile that is meant to hold a tool: reads, then writing and gating, then deciding,
-- then sharing and forgetting.
abbrev pub required_rank : ToolName → ℕ
required_rank memory_query = 0
required_rank memory_compose = 0
required_rank memory_explain = 0
required_rank memory_trace = 0
required_rank memory_claim_read = 0
required_rank memory_candidate_read = 0
required_rank memory_event_read = 0
required_rank memory_record = 1
required_rank memory_propose = 1
required_rank memory_feedback = 1
required_rank action_gate = 1
required_rank memory_decide = 2
required_rank memory_relate = 2
required_rank memory_reverify = 2
required_rank _ = 3

-- A profile holds a tool exactly when its rank reaches the rank that the tool requires: so each
-- profile holds all that the ones below it hold, only reviewers and above decide, and only the
-- privacy administrator shares, forgets, replays and evaluates.
pub profile_allows-eq-rank :
    (p : ToolProfile) (t : ToolName) → profile_allows p t ≡ leb (required_rank t) (profile_rank p)
unfolding profile_allows
profile_allows-eq-rank reader t = ground arith
profile_allows-eq-rank contributor t = ground arith
profile_allows-eq-rank reviewer t = ground arith
profile_allows-eq-rank privacy_admin t = ground arith
