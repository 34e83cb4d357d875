-- ===== src/Core.antt =====
-- krep-core: attestations, their chains, and the hash that their ids are made with.
pub mod Field
pub mod Attestation
pub mod Chain
pub mod Kaspad
