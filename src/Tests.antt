-- ===== src/Tests.antt =====
-- Concrete runs of the models.
mod World
mod GateRuns
mod UseRuns
mod LedgerRuns
mod OutboxRuns
mod QueryRuns
mod IngestRuns
mod ForgetRuns
mod ProjectionRuns
