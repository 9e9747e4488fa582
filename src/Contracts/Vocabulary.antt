-- ===== src/Contracts/Vocabulary.antt =====
-- packages/contracts/src/primitives.ts: the closed vocabularies as data types. An index gives the
-- comparison `===` of two literals; a test `x === "literal"` is a function of its own.
use verity_mem.Prelude.{ℕ, ◌≡◌, ◌↔◌, true, arith, Eq, ◌=?◌}

pub data OriginKind : Type 0 where
  user agent tool document database model_inference : OriginKind

pub data AuthorityClass : Type 0 where
  verified_record observation user_self_report hearsay inference : AuthorityClass

pub data ClaimStatus : Type 0 where
  proposed accepted disputed superseded rejected revoked expired : ClaimStatus

pub data ClaimKind : Type 0 where
  observation user_self_report preference event decision plan hypothesis procedure permission
        derived_summary :
      ClaimKind

pub data DecisionOutcome : Type 0 where
  accept accept_limited_scope needs_review quarantine reject revoke : DecisionOutcome

pub data RelationKind : Type 0 where
  duplicates narrows contradicts supersedes derived_from : RelationKind

pub data EvidenceRole : Type 0 where
  supports refutes : EvidenceRole

pub data CandidateState : Type 0 where
  pending extracted validated gated failed : CandidateState

pub data Sensitivity : Type 0 where
  normal private high : Sensitivity

pub data ActionRisk : Type 0 where
  low medium high : ActionRisk

pub data UseDecision : Type 0 where
  usable verify clarify deny : UseDecision

pub data EntailmentResult : Type 0 where
  entailed neutral contradiction unknown : EntailmentResult

pub data ToolProfile : Type 0 where
  reader contributor reviewer privacy_admin : ToolProfile

abbrev pub kind_index : ClaimKind → ℕ
kind_index ClaimKind.observation = 0
kind_index ClaimKind.user_self_report = 1
kind_index ClaimKind.preference = 2
kind_index ClaimKind.event = 3
kind_index ClaimKind.decision = 4
kind_index ClaimKind.plan = 5
kind_index ClaimKind.hypothesis = 6
kind_index ClaimKind.procedure = 7
kind_index ClaimKind.permission = 8
kind_index ClaimKind.derived_summary = 9

pub kind_beq_iff : (a b : ClaimKind) → ((kind_index a =? kind_index b) ≡ true) ↔ (a ≡ b)
kind_beq_iff a b = ground arith

instance abbrev pub kind_eq : Eq ClaimKind
kind_eq = record { test = λ a b. kind_index a =? kind_index b; test_iff = kind_beq_iff }

abbrev pub authority_index : AuthorityClass → ℕ
authority_index AuthorityClass.verified_record = 0
authority_index AuthorityClass.observation = 1
authority_index AuthorityClass.user_self_report = 2
authority_index AuthorityClass.hearsay = 3
authority_index AuthorityClass.inference = 4

pub authority_beq_iff :
    (a b : AuthorityClass) → ((authority_index a =? authority_index b) ≡ true) ↔ (a ≡ b)
authority_beq_iff a b = ground arith

instance abbrev pub authority_eq : Eq AuthorityClass
authority_eq = record {
  test = λ a b. authority_index a =? authority_index b;
  test_iff = authority_beq_iff;
}

abbrev pub use_index : UseDecision → ℕ
use_index UseDecision.usable = 0
use_index UseDecision.verify = 1
use_index UseDecision.clarify = 2
use_index UseDecision.deny = 3

pub use_test_iff : (a b : UseDecision) → ((use_index a =? use_index b) ≡ true) ↔ (a ≡ b)
use_test_iff a b = ground arith

instance abbrev pub use_eq : Eq UseDecision
use_eq = record { test = λ a b. use_index a =? use_index b; test_iff = use_test_iff }

-- `TimeSpec` of packages/contracts/src/packet.ts.
pub data TimeSpec : Type 0 where
  current : TimeSpec
  as_of : ℕ → TimeSpec
  during : ℕ → ℕ → TimeSpec
