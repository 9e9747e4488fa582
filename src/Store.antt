-- ===== src/Store.antt =====
-- The tables that the gate and the claim lifecycle write (migrations/0001_core.sql), and the error
-- that a statement or a guard raises. Identifiers are opaque and stand as numbers; instants are
-- milliseconds. A database holds the rows that the calling transaction may see.
pub mod Triggers
pub mod Update
pub mod Invariant
use verity_mem.Prelude.{ℕ, ◌≡◌, refl, ◌⊎◌, inl, inr, String, Option, List}
use verity_mem.Contracts.Vocabulary.{
  ClaimStatus, ClaimKind, AuthorityClass, DecisionOutcome, RelationKind, EvidenceRole,
  CandidateState,
}

-- A claim's object: a composite value stands as its JSON text with sorted keys, so two values that
-- differ in key order only are one; a number or Boolean stands as its text.
pub data Value : Type 0 where
  null : Value
  text : String → Value
  scalar : String → Value
  composite : String → Value

pub record ScopeRow : Type 0 where
  pub scope_id : ℕ
  pub tenant_id : ℕ
  pub project : Option String
  pub user_id : Option String
  pub agent_id : Option String
  pub session_id : Option String
  pub purpose : List String

pub record ClaimRow : Type 0 where
  pub claim_id : ℕ
  pub tenant_id : ℕ
  pub scope_id : ℕ
  pub kind : ClaimKind
  pub subject : String
  pub predicate : String
  pub object : Value
  pub status : ClaimStatus
  pub authority : AuthorityClass
  pub valid_from : ℕ
  pub valid_to : Option ℕ
  pub recorded_at : ℕ
  pub expires_at : Option ℕ
  pub origin_event_id : ℕ
  pub extractor : String
  pub model_version : Option String
  pub prompt_version : Option String

pub record EvidenceRow : Type 0 where
  pub claim_id : ℕ
  pub span_id : ℕ
  pub role : EvidenceRole

pub record RelationRow : Type 0 where
  pub from_claim : ℕ
  pub to_claim : ℕ
  pub rel : RelationKind

pub record DecisionRow : Type 0 where
  pub decision_id : ℕ
  pub tenant_id : ℕ
  pub candidate_id : Option ℕ
  pub claim_id : Option ℕ
  pub policy_version : String
  pub outcome : DecisionOutcome
  pub reason_codes : List String
  pub approver : Option String

-- The columns of `claim_candidates` that the gate changes.
pub record CandidateRow : Type 0 where
  pub candidate_id : ℕ
  pub state : CandidateState

pub record Database : Type 0 where
  pub scopes : List ScopeRow
  pub claims : List ClaimRow
  pub claim_evidence : List EvidenceRow
  pub claim_relations : List RelationRow
  pub decisions : List DecisionRow
  pub candidates : List CandidateRow

pub data DbError : Type 0 where
  duplicate_key illegal_transition reopened_interval shortened_interval undecided_transition
        check_violation missing_scope missing_claim :
      DbError

-- What a statement or a function that can throw returns; an error rolls the transaction back.
pub data Result {ℓ} (A : Type ℓ) : Type ℓ where
  ok : A → Result A
  err : DbError → Result A

infixl 5 ◌>>=◌
abbrev pub ◌>>=◌ {ℓ κ} : {A : Type ℓ} {B : Type κ} → Result A → (A → Result B) → Result B
ok a >>= f = f a
err e >>= f = err e

pub ok_injective {ℓ} : {A : Type ℓ} {a b : A} → ok a ≡ ok b → a ≡ b
ok_injective h = cc

pub Result-cases {ℓ} :
    {A : Type ℓ} (r : Result A) → ((a : A) × (r ≡ ok a)) ⊎ ((e : DbError) × (r ≡ err e))
Result-cases (ok a) = inl (a, refl)
Result-cases (err e) = inr (e, refl)

abbrev pub FirstReturned {ℓ κ} :
    {A : Type ℓ} {B : Type κ} → (A → Result B) → Result A → B → Type (ℓ ⊔ κ)
FirstReturned {A} f r b = (x : A) × (r ≡ ok x) × (f x ≡ ok b)

-- Where a chain that returned has been: the first part returned too, and the rest from its value.
pub >>=-eq-ok {ℓ κ} :
    {A : Type ℓ} {B : Type κ} {b : B} (f : A → Result B) (r : Result A) (done : (r >>= f) ≡ ok b)
    → FirstReturned f r b
>>=-eq-ok f (ok x) done = (x, refl, done)
>>=-eq-ok f (err e) done = absurd (cc done)
