-- ===== src/Retrieval/Compose/Oracle.antt =====
-- What a caller that reaches nothing can learn from a packet.
use verity_mem.Prelude.{
  ℕ, ◌≡◌, refl, sym, ap, ◌∙◌, inl, inr, String, Bool, true, false, Option, none, some, List, [],
  ◌∷◌, map, any, find, is_empty, ◌=?◌, Bool-cases, Option-cases, arith,
}
use verity_mem.Contracts.Vocabulary.{clarify}
use verity_mem.Store.{ScopeRow, Database}
use verity_mem.Ledger.Spans.{LedgerEvent, SpanRow}
use verity_mem.Retrieval.Planner.{AccessTables, ScopeRequest, resolve_scopes}
use verity_mem.Retrieval.Planner.Keyed.{IsKeyed, has_scope, find_scope}
use verity_mem.Retrieval.Planner.Laws.{is_reachable, resolve_scopes-reach}
use verity_mem.Retrieval.Plan.{QueryRequest, plan_query, scope_request}
use verity_mem.Retrieval.Fusion.{FusedCandidate}
use verity_mem.Retrieval.Compose.{Dependencies}
use verity_mem.Retrieval.Compose.Answer.{compose, empty_packet}

find-holds {ℓ} :
    {A : Type ℓ} (p q : A → Bool) (xs : List A) {a : A}
    → find p xs ≡ some a
    → q a ≡ true
    → any q xs ≡ true
find-holds p q [] h k = absurd (cc h)
find-holds p q (x ∷ xs) {a} h k = elim (Bool-cases (p x)) [
  | inl hit ↦
      let found : some x ≡ some a = rw hit at h in
      let same : x ≡ a = cc found in ground (arith, ap q same, k)
  | inr miss ↦ ground (arith, find-holds p q xs {a = a} (rw miss at h) k)
]

no_scopes :
    (tables : AccessTables) (input : ScopeRequest) (scopes : List ScopeRow)
    → IsKeyed tables.scopes tables.scopes
    → any (is_reachable input tables) tables.scopes ≡ false
    → (resolve_scopes tables input).scopes ≡ scopes
    → is_empty (map (λ (s : ScopeRow). s.scope_id) scopes) ≡ true
no_scopes tables input [] keyed nothing e = refl
no_scopes tables input (s ∷ rest) keyed nothing e =
    let here : has_scope s.scope_id (resolve_scopes tables input).scopes ≡ true =
      ap (has_scope s.scope_id) e ∙ ground arith in
    let spec = sym (resolve_scopes-reach tables input s.scope_id keyed) ∙ here in
    elim (Option-cases (find_scope tables.scopes s.scope_id)) [
      | inl absent ↦ absurd (cc (rw absent at spec))
      | inr (t, there) ↦
          let found =
            find-holds (λ (x : ScopeRow). x.scope_id =? s.scope_id) (is_reachable input tables)
              tables.scopes there (rw there at spec) in
          absurd (cc (nothing, found))
    ]

-- A caller for whom no scope is reachable gets a packet that does not depend on what is stored: it is
-- the same for any two databases, events, spans and projections, with no claim and the decision
-- `clarify`. Nothing there and nothing visible cannot be told apart.
pub compose-no_oracle :
    {Score Vector : Type 0} (deps : Dependencies Score Vector) (events events' : List LedgerEvent)
    (spans spans' : List SpanRow) (now planned_at : ℕ) (tables : AccessTables) (db db' : Database)
    (tenant : ℕ) (principal : String) (query : QueryRequest)
    (rerank : Option (List (FusedCandidate Score) → List (FusedCandidate Score)))
    (watermark watermark' trace latency : ℕ)
    → IsKeyed tables.scopes tables.scopes
    → any (is_reachable (scope_request planned_at tenant principal query) tables) tables.scopes
      ≡ false
    → (compose deps events spans now planned_at tables db tenant principal query rerank watermark
          trace latency
        ≡ compose deps events' spans' now planned_at tables db' tenant principal query rerank
            watermark' trace latency)
      × (((compose deps events spans now planned_at tables db tenant principal query rerank
              watermark trace latency).claims
            ≡ [])
          × ((compose deps events spans now planned_at tables db tenant principal query rerank
                watermark trace latency).decision
              ≡ clarify))
unfolding compose empty_packet plan_query
compose-no_oracle deps events events' spans spans' now planned_at tables db db' tenant principal
      query rerank watermark watermark' trace latency keyed nothing =
    let plan =
      plan_query tables planned_at tenant principal query (deps.entity_terms query.query) none in
    let shut : is_empty plan.authorized_scope_ids ≡ true =
      no_scopes tables (scope_request planned_at tenant principal query)
        (resolve_scopes tables (scope_request planned_at tenant principal query)).scopes keyed
        nothing refl in
    let here : compose deps events spans now planned_at tables db tenant principal query rerank
          watermark trace latency
        ≡ empty_packet deps events spans now plan trace latency =
      rw (shut, compose) refl in
    let there : compose deps events' spans' now planned_at tables db' tenant principal query rerank
          watermark' trace latency
        ≡ empty_packet deps events' spans' now plan trace latency =
      rw (shut, compose) refl in
    (here ∙ sym there, (ap (λ p. p.claims) here, ap (λ p. p.decision) here))
