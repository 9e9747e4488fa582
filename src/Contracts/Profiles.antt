-- ===== src/Contracts/Profiles.antt =====
-- packages/contracts/src/profiles.ts: which operations each capability profile holds.
pub mod Laws
use verity_mem.Prelude.{ℕ, ◌≡◌, ◌↔◌, Bool, true, List, [], ◌∷◌, arith, Eq, ◌=?◌, contains}
use verity_mem.Contracts.Vocabulary.{ToolProfile}

-- `TOOL_NAMES`.
pub data ToolName : Type 0 where
  memory_query memory_compose memory_explain memory_trace memory_claim_read memory_candidate_read
        memory_event_read memory_record memory_propose memory_feedback memory_decide memory_relate
        memory_reverify action_gate memory_share memory_forget memory_replay memory_evaluate :
      ToolName

abbrev pub tool_index : ToolName → ℕ
tool_index memory_query = 0
tool_index memory_compose = 1
tool_index memory_explain = 2
tool_index memory_trace = 3
tool_index memory_claim_read = 4
tool_index memory_candidate_read = 5
tool_index memory_event_read = 6
tool_index memory_record = 7
tool_index memory_propose = 8
tool_index memory_feedback = 9
tool_index memory_decide = 10
tool_index memory_relate = 11
tool_index memory_reverify = 12
tool_index action_gate = 13
tool_index memory_share = 14
tool_index memory_forget = 15
tool_index memory_replay = 16
tool_index memory_evaluate = 17

pub tool_beq_iff : (a b : ToolName) → ((tool_index a =? tool_index b) ≡ true) ↔ (a ≡ b)
tool_beq_iff a b = ground arith

instance abbrev pub tool_eq : Eq ToolName
tool_eq = record { test = λ a b. tool_index a =? tool_index b; test_iff = tool_beq_iff }

-- `PROFILE_TOOLS`.
unfoldable pub profile_tools : ToolProfile → List ToolName
profile_tools ToolProfile.reader =
    memory_query ∷ memory_compose ∷ memory_explain ∷ memory_trace ∷ memory_claim_read
    ∷ memory_candidate_read ∷ memory_event_read ∷ []
profile_tools ToolProfile.contributor =
    memory_query ∷ memory_compose ∷ memory_explain ∷ memory_trace ∷ memory_claim_read
    ∷ memory_candidate_read ∷ memory_event_read ∷ memory_record ∷ memory_propose ∷ memory_feedback
    ∷ action_gate ∷ []
profile_tools ToolProfile.reviewer =
    memory_query ∷ memory_compose ∷ memory_explain ∷ memory_trace ∷ memory_claim_read
    ∷ memory_candidate_read ∷ memory_event_read ∷ memory_record ∷ memory_propose ∷ memory_feedback
    ∷ action_gate ∷ memory_decide ∷ memory_relate ∷ memory_reverify ∷ []
profile_tools ToolProfile.privacy_admin =
    memory_query ∷ memory_compose ∷ memory_explain ∷ memory_trace ∷ memory_claim_read
    ∷ memory_candidate_read ∷ memory_event_read ∷ memory_record ∷ memory_propose ∷ memory_feedback
    ∷ action_gate ∷ memory_decide ∷ memory_relate ∷ memory_reverify ∷ memory_share ∷ memory_forget
    ∷ memory_replay ∷ memory_evaluate ∷ []

-- `profileAllows`.
unfoldable pub profile_allows : ToolProfile → ToolName → Bool
unfolding profile_tools
profile_allows profile tool = contains (profile_tools profile) tool
