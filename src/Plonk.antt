-- ===== src/Plonk.antt =====
-- plonky2/src/plonk: the parts of the proof system.
pub mod PermutationArgument
pub mod WirePartition
pub mod CopyConstraints
pub mod CircuitData
pub mod Proof
