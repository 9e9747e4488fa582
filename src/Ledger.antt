-- ===== src/Ledger.antt =====
-- packages/ledger/src: events, spans, the append path, the hash chain and the outbox.
pub mod Spans
pub mod Chain
pub mod Tables
pub mod Append
pub mod Payload
pub mod Outbox
