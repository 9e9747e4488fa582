-- ===== src/Claims.antt =====
-- packages/claims/src/index.ts: the use policy, the claim lifecycle and the listing.
pub mod Use
pub mod Lifecycle
pub mod List
