-- ===== src/Hash.antt =====
-- plonky2/src/hash: Merkle trees, their proofs compressed, and sponges.
pub mod Merkle
pub mod PathCompression
pub mod Sponge
pub mod HashTypes
