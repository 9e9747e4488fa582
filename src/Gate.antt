-- ===== src/Gate.antt =====
-- packages/gate/src: the commit gate, from the evidence of a candidate to the rows it writes.
pub mod Scope
pub mod Conflict
pub mod Validation
pub mod Evidence
pub mod Decide
pub mod Persist
pub mod Evaluate
