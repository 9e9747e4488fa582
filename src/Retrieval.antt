-- ===== src/Retrieval.antt =====
-- packages/retrieval/src: the planner, fusion, the packet, and the action gate, which judges stored
-- claims before a side effect.
pub mod Reads
pub mod Action
pub mod Planner
pub mod Plan
pub mod Fusion
pub mod Compose
