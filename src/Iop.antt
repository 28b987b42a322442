-- ===== src/Iop.antt =====
-- plonky2/src/iop: the transcript of the interactive proof.
pub mod Challenger
pub mod RecursiveChallenger
