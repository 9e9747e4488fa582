-- ===== src/Contracts.antt =====
-- packages/contracts/src: closed vocabularies, reason codes, policy constants, capability profiles.
pub mod Vocabulary
pub mod ReasonCodes
pub mod Policy
pub mod Profiles
