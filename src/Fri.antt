-- ===== src/Fri.antt =====
-- plonky2/src/fri: the low-degree test.
pub mod ReductionStrategies
pub mod Params
