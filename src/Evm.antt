-- ===== src/Evm.antt =====
-- evm/src/cpu/kernel: the optimizer of the kernel's assembler, and the interpreter of its operations.
pub mod Windows
pub mod Ast
pub mod Interpreter
pub mod Optimizer
mod Tests
