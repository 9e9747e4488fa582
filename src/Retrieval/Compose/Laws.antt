-- ===== src/Retrieval/Compose/Laws.antt =====
-- What a packet says of its claims.
use verity_mem.Prelude.{
  ℕ, ◌≤◌, ◌≡◌, ◌≢◌, refl, sym, subst, ◌∙◌, inl, inr, ◌⊎◌, String, Bool, true, false, ◌&&◌, Option,
  none, some, List, [], ◌∷◌, map, any, all, take, length, is_empty, contains, ◌=?◌, nat_eq,
  Bool-cases, Option-cases, All, All-take, length-take-le, arith, any-filter, any_mono, find-any,
}
use verity_mem.Contracts.Vocabulary.{
  ActionRisk, ClaimStatus, UseDecision, usable, verify, clarify, deny,
}
use verity_mem.Claims.Use.{evaluate_use}
use verity_mem.Claims.Use.Laws.{evaluate_use-eq-usable_iff}
use verity_mem.Store.{ClaimRow, Database}
use verity_mem.Ledger.Spans.{Bytes, LedgerEvent, SpanRow}
use verity_mem.Retrieval.Planner.{AccessTables}
use verity_mem.Retrieval.Plan.{QueryRequest, QueryPlan, plan_query, otherwise}
use verity_mem.Retrieval.Fusion.{FusedCandidate}
use verity_mem.Retrieval.Reads.{ClaimRelation, find_claim, claim_map, relations_of}
use verity_mem.Retrieval.Compose.{PacketEvidence, PacketClaim, MemoryPacket, Dependencies}
use verity_mem.Retrieval.Compose.Hydrate.{
  packet_claim, packet_evidence, hydrate_from, hydrate, judged_input,
}
use verity_mem.Retrieval.Compose.Evidence.{IsGenuine, packet_evidence-IsGenuine}
use verity_mem.Retrieval.Compose.Answer.{
  compose, compose_within, empty_packet, ranked, run_channels, channel_query,
}
use verity_mem.Retrieval.Compose.Weakest.{IsWeakest, combine_decisions-IsWeakest}

-- What is said of a claim of the packet: it is a row that row-level security lets through; its evidence
-- shows stored spans that it cites, marked as verified only when they verify against the events; and if
-- it may be used it is accepted, not stale, and has evidence, all of it marked as verified.
abbrev pub IsBacked : {Score : Type 0} → PacketClaim Score → Type 0
IsBacked c =
    (c.status ≡ ClaimStatus.accepted)
    × ((c.stale ≡ false)
        × ((is_empty c.evidence ≡ false)
            × (all (λ (e : PacketEvidence). e.digest_ok) c.evidence ≡ true)))

abbrev pub IsSound :
    {Score : Type 0}
    → (Bytes → ℕ)
    → List LedgerEvent
    → List SpanRow
    → Database
    → PacketClaim Score
    → Type 0
IsSound sha256 events spans visible c =
    (any (λ (r : ClaimRow). r.claim_id =? c.claim_id) visible.claims ≡ true)
    × (All (IsGenuine sha256 events spans visible c.claim_id) c.evidence
        × ((c.decision ≢ usable) ⊎ IsBacked c))

not_empty {ℓ} : {A : Type ℓ} (xs : List A) → length xs ≢ 0 → is_empty xs ≡ false
not_empty [] h = absurd (h refl)
not_empty (x ∷ xs) h = refl

usable-cases : (d : UseDecision) → (d ≡ usable) ⊎ (d ≢ usable)
usable-cases usable = inl refl
usable-cases verify = inr (λ h. cc h)
usable-cases clarify = inr (λ h. cc h)
usable-cases deny = inr (λ h. cc h)

seen_in :
    (visible : Database) (ids : List ℕ) (id : ℕ) {claim : ClaimRow}
    → find_claim (claim_map visible ids) id ≡ some claim
    → any (λ (r : ClaimRow). r.claim_id =? id) visible.claims ≡ true
seen_in visible ids id seen =
    let test : ClaimRow → Bool = λ r. r.claim_id =? id in
    let found = find-any test (claim_map visible ids) seen in
    any_mono (λ (r : ClaimRow). contains ids r.claim_id && test r) test visible.claims
      (λ r both. ground (arith, both))
      (sym (any-filter test (λ (r : ClaimRow). contains ids r.claim_id) visible.claims) ∙ found)

module _ {Score Vector : Type 0} (deps : Dependencies Score Vector) (events : List LedgerEvent)
    (spans : List SpanRow) (now : ℕ) where
  usable-IsBacked :
      (risk : Option ActionRisk) (candidate : FusedCandidate Score) (claim : ClaimRow)
      (evidence : List PacketEvidence) (relations : List ClaimRelation)
      → (packet_claim deps events spans now risk candidate claim evidence relations).decision
        ≡ usable
      → IsBacked (packet_claim deps events spans now risk candidate claim evidence relations)
  unfolding packet_claim evaluate_use
  usable-IsBacked risk candidate claim evidence relations h =
      let r =
        (evaluate_use-eq-usable_iff
            (judged_input deps events spans now risk claim evidence relations)).0
          h in
      let some_span : is_empty evidence ≡ false = not_empty evidence r.citable.grounded.0 in
      (r.believed, (ground (arith, r.fresh), (some_span, ground (arith, r.citable.grounded.1))))

  packet_claim-IsSound :
      (visible : Database) (risk : Option ActionRisk) (candidate : FusedCandidate Score)
      (claim : ClaimRow) (evidence : List PacketEvidence) (relations : List ClaimRelation)
      → any (λ (r : ClaimRow). r.claim_id =? candidate.claim_id) visible.claims ≡ true
      → All (IsGenuine deps.sha256 events spans visible candidate.claim_id) evidence
      → IsSound deps.sha256 events spans visible
          (packet_claim deps events spans now risk candidate claim evidence relations)
  unfolding packet_claim
  packet_claim-IsSound visible risk candidate claim evidence relations seen genuine = (
    seen,
    (
      genuine,
      elim (usable-cases
          (packet_claim deps events spans now risk candidate claim evidence relations).decision) [
            | inl fit ↦ inr (usable-IsBacked risk candidate claim evidence relations fit)
            | inr unfit ↦ inl unfit
          ],
    ),
  )

  hydrate_from-IsSound :
      (visible : Database) (risk : Option ActionRisk) (ids : List ℕ)
      (fused : List (FusedCandidate Score))
      → All
          (IsSound deps.sha256 events spans visible)
          (hydrate_from deps events spans now visible risk ids fused)
  unfolding hydrate_from
  hydrate_from-IsSound visible risk ids [] = tt
  hydrate_from-IsSound visible risk ids (c ∷ rest) =
      elim (Option-cases (find_claim (claim_map visible ids) c.claim_id)) [
        | inl unseen ↦
            let value : hydrate_from deps events spans now visible risk ids (c ∷ rest)
                ≡ hydrate_from deps events spans now visible risk ids rest =
              rw (unseen, hydrate_from) refl in
            subst (All (IsSound deps.sha256 events spans visible)) (sym value)
              (hydrate_from-IsSound visible risk ids rest)
        | inr (claim, seen) ↦
            let evidence = packet_evidence deps.sha256 events spans visible ids c.claim_id in
            let relations = relations_of visible.claims c.claim_id visible.claim_relations in
            let value : hydrate_from deps events spans now visible risk ids (c ∷ rest)
                ≡ packet_claim deps events spans now risk c claim
                    (packet_evidence deps.sha256 events spans visible ids c.claim_id)
                    (relations_of visible.claims c.claim_id visible.claim_relations)
                  ∷ hydrate_from deps events spans now visible risk ids rest =
              rw (seen, hydrate_from) refl in
            subst (All (IsSound deps.sha256 events spans visible)) (sym value) (
              packet_claim-IsSound visible risk c claim evidence relations
                  (seen_in visible ids c.claim_id seen)
                  (packet_evidence-IsGenuine deps.sha256 events spans visible ids c.claim_id),
              hydrate_from-IsSound visible risk ids rest,
            )
      ]

  hydrate-IsSound :
      (visible : Database) (risk : Option ActionRisk) (fused : List (FusedCandidate Score))
      → All
          (IsSound deps.sha256 events spans visible)
          (hydrate deps events spans now visible risk fused)
  unfolding hydrate
  hydrate-IsSound visible risk fused =
      hydrate_from-IsSound visible risk (map (λ (c : FusedCandidate Score). c.claim_id) fused) fused

  -- `compose` past the plan: at most `limit` claims, each one sound, and the weakest decision.
  abbrev pub IsAnswer : Database → ℕ → MemoryPacket Score → Type 0
  IsAnswer visible limit p =
      (length p.claims ≤ limit)
      × (All (IsSound deps.sha256 events spans visible) p.claims
          × IsWeakest (map (λ (c : PacketClaim Score). c.decision) p.claims) p.decision)

  compose_within-IsAnswer :
      (visible : Database) (tenant : ℕ) (query : QueryRequest) (plan : QueryPlan)
      (rerank : Option (List (FusedCandidate Score) → List (FusedCandidate Score)))
      (watermark trace latency : ℕ)
      → IsAnswer visible plan.limit (
          compose_within deps events spans now visible tenant query plan rerank watermark trace
            latency)
  unfolding compose_within
  compose_within-IsAnswer visible tenant query plan rerank watermark trace latency =
      let channels =
        run_channels deps events spans now visible
          (channel_query deps events spans now tenant query plan) plan.channels in
      let hydrated =
        hydrate deps events spans now visible query.action_risk
          (ranked deps events spans now channels plan rerank) in
      let returned = take plan.limit hydrated in
      (
        length-take-le plan.limit hydrated,
        (
          All-take (IsSound deps.sha256 events spans visible) plan.limit hydrated (
              hydrate-IsSound visible query.action_risk
                (ranked deps events spans now channels plan rerank)),
          combine_decisions-IsWeakest (map (λ (c : PacketClaim Score). c.decision) returned),
        ),
      )

-- A packet has at most as many claims as the request asks for, 12 when it does not say. Each is a
-- claim that the database lets through under the planned scopes. Each entry of its evidence is of a
-- span that a visible evidence row of this very claim cites, has the event, bounds and digest of a
-- stored span of that id, and is marked `digest_ok` only when a stored span of that id verifies, on
-- the events of this read, against its digest. If the claim's decision is `use` it is accepted, not
-- stale, and has evidence, all of it marked so. The packet's own decision is `use` exactly when there
-- are claims and every one says `use`, and else never milder than any of them.
pub compose-IsAnswer :
    {Score Vector : Type 0} (deps : Dependencies Score Vector) (events : List LedgerEvent)
    (spans : List SpanRow) (now planned_at : ℕ) (tables : AccessTables) (db : Database) (tenant : ℕ)
    (principal : String) (query : QueryRequest)
    (rerank : Option (List (FusedCandidate Score) → List (FusedCandidate Score)))
    (watermark trace latency : ℕ)
    → IsAnswer deps events spans now
        (deps.row_security tenant principal
          (plan_query tables planned_at tenant principal query
            (deps.entity_terms query.query)
            none).authorized_scope_ids
          (query.purpose ∷ [])
          db)
        (otherwise query.limit 12)
        (compose deps events spans now planned_at tables db tenant principal query rerank watermark
          trace latency)
unfolding compose empty_packet plan_query
compose-IsAnswer deps events spans now planned_at tables db tenant principal query rerank watermark
      trace latency =
    let plan =
      plan_query tables planned_at tenant principal query (deps.entity_terms query.query) none in
    let visible =
      deps.row_security tenant principal plan.authorized_scope_ids (query.purpose ∷ []) db in
    elim (Bool-cases (is_empty plan.authorized_scope_ids)) [
      | inl nothing ↦
          let value : compose deps events spans now planned_at tables db tenant principal query
                rerank watermark trace latency
              ≡ empty_packet deps events spans now plan trace latency =
            rw (nothing, compose) refl in
          subst (IsAnswer deps events spans now visible (otherwise query.limit 12)) (sym value)
            (omega arith, (tt, combine_decisions-IsWeakest []))
      | inr reach ↦
          let value : compose deps events spans now planned_at tables db tenant principal query
                rerank watermark trace latency
              ≡ compose_within deps events spans now visible tenant query plan rerank watermark
                  trace latency =
            rw (reach, compose) refl in
          subst (IsAnswer deps events spans now visible (otherwise query.limit 12)) (sym value) (
            compose_within-IsAnswer deps events spans now visible tenant query plan rerank watermark
              trace latency)
    ]
