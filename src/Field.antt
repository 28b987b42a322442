-- ===== src/Field.antt =====
-- field/src: the 64-bit prime field.
pub mod Goldilocks
