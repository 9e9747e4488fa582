-- ===== src/Lib.antt =====
-- VerityMem keeps what agents were told as an append-only ledger of events, cuts evidence spans out
-- of them, and lets a commit gate decide which proposed claims become belief. A use policy says how
-- far a stored claim may be relied on, and an action gate asks it again before a side effect. This
-- library models that core and states what makes it safe.
--
-- The parts, and the code that each models:
--   * Contracts: packages/contracts/src. The closed vocabularies of primitives.ts are data types
--     with its literals as constructors (`usable` is the literal "use"); policy.ts, profiles.ts and
--     reason-codes.ts are tables.
--   * Store: the tables of migrations/0001_core.sql that the gate writes, as lists of rows, and the
--     guards that fire on an UPDATE of `claims` (migrations/0002_integrity_and_rls.sql and
--     migrations/0010_claim_mutation_guard.sql). A statement returns a `Result`: an error is the
--     exception that rolls the transaction back, so the old database stays.
--   * Claims: packages/claims/src/index.ts. `evaluate_use` is evaluateUse, `apply_status` is
--     applyStatus, run over the guards of Store, and `list_claims` is listClaims.
--   * Ledger: packages/ledger/src/ledger.ts. `write_span` is writeSpan, `verify_span` is verifySpan.
--     A payload is the list of its UTF-8 bytes. `append` is append with ensureScope, its
--     idempotency key, sequence, link, participation and outbox row; its lookups read what row-level
--     security admits for the one scope of the write (`seen`); `verify_chain` is verifyChain.
--     The event table is kept newest first, and verifyChain's ORDER BY sorts it.
--     Ledger/Outbox: packages/ledger/src/outbox.ts over the functions of
--     migrations/0011_outbox_claim_functions.sql and 0012_outbox_claim_tenant_scope.sql. `claim`,
--     `complete` and `fail` change the queue, `run_once` and `drain` are runOnce and drain, and
--     `Step` is one call by any of several workers, so `Runs` is any interleaving of them.
--   * Gate: packages/gate/src/commit-gate.ts. `evaluate` is CommitGate.evaluate: it reads two
--     scopes, verifies the cited spans against the ledger, `establish`es the facts of its sections 1
--     to 7, decides (`decide_outcome`), and `persist`s the claim, its evidence and relations, the
--     supersession of older claims, the decision and the candidate's state.
--     Gate/Validation: packages/gate/src/validation.ts, `validate_spans` and `supporting_premise`.
--   * Retrieval: packages/retrieval/src. `evaluate_action` is evaluateAction of action-gate.ts; it
--     re-reads claims, relations and evidence, and asks `evaluate_use` for each claim.
--     `resolve_scopes` and `plan_query` are planner.ts, `fuse_results` is fuseResults of channels.ts,
--     and `compose` is compose.ts: it plans, runs the planned arms under row-level security, fuses,
--     `hydrate`s each candidate with evidence verified again, and forms the packet.
--   * Ingest: packages/model-adapters/src/pipeline.ts. `admit` is admit, `is_blocked` is isBlocked and
--     `requested_input` is resolveRequestedScope up to its call of ensureScope. Ingest/Run: `ingest`
--     runs the extractors, `persist_candidate`s what they propose and asks the gate, over the record
--     `IngestOps` of the operations of the ledger and the gate that it calls.
--   * Projections: packages/retrieval/src/projections.ts. `project_claim` is projectClaim with
--     projectEntities, and `rebuild_projections` is rebuildProjections.
--   * Retention: packages/retrieval/src/retention.ts. `forget` scrubs, revokes over the guards of
--     Store, reclaims blobs from any store that meets the contract of packages/ledger/src/blobs.ts
--     (`IsLawful`; MemoryBlobStore is shown to), and scans. `correct_claim` is correctClaim. Tables
--     hold every tenant's rows, and the tenant is a condition, as in the statements and policies.
--   * Tests: concrete runs, and each theorem applied to one.
--
-- Choices. Identifiers, digests and instants are numbers; instants are milliseconds. Ages are
-- hundredths of a day, the precision that ageInDays rounds to, so an age limit is multiplied by 100.
-- Scores and thresholds are millionths. A composite object of a claim stands as its JSON text with
-- sorted keys. The rows that row-level security lets a caller see are the database given. Every loop
-- of the source runs over a finite list and is structural recursion, but for the batches of `drain`,
-- whose bound is the code's own: more batches than the table has attempts left are enough.
-- `compose` is given two instants, since its planner reads a clock of its own. A call of the pipeline
-- that throws keeps what was written before it.
-- Tables are kept newest first, and a SELECT without an order returns rows in that order.
--
-- Parameters: SHA-256, the link hash as a function of the six fields it commits to, the blob store's
-- reference, the sort of a purpose list (one order for JavaScript and the database), the regular
-- expressions of the instruction scan, the entailment backend, JavaScript's trim, lower case, Number
-- and JSON.parse, its arithmetic of scores and order of texts, row-level security as a function from
-- the bound scopes to the database that is seen (for an append, from the one scope to the events
-- that are read), the statements of the retrieval arms, the embedding
-- backend, the digest of a rebuild, the bodies of the extractors, `lower` of the database, and the
-- handlers of the outbox. Nothing is assumed of them, but that the handlers add nothing to the queue
-- where `drain` is shown to end, that a blob store meets its documented contract where an erasure
-- relies on it, that the database finds a value equal to itself where a retry finds its candidate, and
-- that the scope of an append can read the whole stream where the append is shown to keep its chain.
--
-- Not modelled: the text and vector search of the arms and the extraction of entity terms, query
-- traces, replay and health, the bodies of the extractors, blobs on a file system, the row that
-- records a finished retention job, the HTTP server, the worker process and its processors, the
-- clients and integrations, the `detail` JSON of a decision, and statement rendering, which the
-- modelled decisions do not read. Transactions of the gate and the
-- ledger run one at a time, those of the outbox in any order; an identifier that the generator hands
-- out is new where the code takes it so.
pub mod Prelude
pub mod Contracts
pub mod Store
pub mod Claims
pub mod Ledger
pub mod Gate
pub mod Retrieval
pub mod Ingest
pub mod Projections
pub mod Retention
pub mod Tests
