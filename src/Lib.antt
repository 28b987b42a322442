-- ===== src/Lib.antt =====
-- The core of plonky2: a 64-bit prime field with fast reduction, the Merkle trees, the transcript,
-- the protocol parts and the formats that are built on it; and the optimizer of the EVM kernel.
--
-- Parts, and where they are modelled:
--
-- Common: tests, lists, slices, options, bits, congruences and 64-bit words. No program code.
-- Util: util/src/lib.rs, the logarithms of sizes.
-- Field.Goldilocks: field/src/goldilocks_field.rs, with `exp_power_of_2` and `exp_u64` of
--   field/src/types.rs. An element is its `u64`; `None` of the model is an overflow or a failed
--   assumption, so that a theorem which gives a result also says that none occurs.
-- Hash.Merkle: plonky2/src/hash/merkle_tree.rs and merkle_proofs.rs, over any hasher. A
--   buffer that the source fills in place is returned by the model; `None` is a panic.
-- Hash.Sponge: plonky2/src/hash/hashing.rs, the permutation's state of hash/poseidon.rs, and
--   `hash_pad` of plonk/config.rs, over any permutation of twelve elements.
-- Iop.Challenger, Iop.RecursiveChallenger: plonky2/src/iop/challenger.rs, the native transcript,
--   and the in-circuit one on the values of its targets.
-- Fri.ReductionStrategies: plonky2/src/fri/reduction_strategies.rs, the arities of the layers,
--   with the overflows of `usize`.
-- Plonk.PermutationArgument: plonky2/src/plonk/permutation_argument.rs, the disjoint-set forest of
--   the copy constraints, with the indices of iop/target.rs.
-- Plonk.WirePartition: the rest of that file, from the parents of a forest to the permutation sigma.
-- Plonk.CopyConstraints: `sigma_vecs` of plonky2/src/plonk/circuit_builder.rs, which builds a forest
--   from the copy constraints and takes sigma from it.
-- Util.PartialProducts: plonky2/src/util/partial_products.rs, over any field.
-- Hash.HashTypes: plonky2/src/hash/hash_types.rs, the bytes and the field elements of digests.
-- Serialization: plonky2/src/util/serialization/mod.rs, readers and writers over byte lists. A reader
--   takes the bytes that are left and returns a value with those left after it, an input error or a
--   panic; a writer returns its bytes. The types that they handle are in Fri.Params,
--   Plonk.CircuitData and Plonk.Proof (fri/mod.rs, plonk/circuit_data.rs, plonk/proof.rs,
--   fri/proof.rs). The serializers of gates and of witness generators are parameters.
-- Evm.Windows, Evm.Ast, Evm.Optimizer, Evm.Interpreter: evm/src/cpu/kernel: utils.rs (replacement of
--   windows), ast.rs, optimizer.rs with cost_estimator.rs, and the stack operations of
--   interpreter.rs. The operations of 256-bit words, the addresses of labels and all other operations
--   are parameters, which may read the program counter and the gas. `BYTE`, whose folding counts the
--   bytes from the other end than the interpreter does, `EXP`, a system call, and shifts, whose
--   folding panics from 2 ^ 64 on, are left out of the equivalence.
-- Hash.PathCompression: plonky2/src/hash/path_compression.rs, Merkle proofs of one tree without
--   the siblings that the other proofs imply.
--
-- How they interact: the trees ask `Util` for the logarithms of their sizes, and `exp_u64` for the
-- bit length of its exponent; the challengers use the state of the sponge. The readers and
-- writers handle the field's words, the Merkle trees and the targets of the permutation argument; the
-- optimizer's passes are instances of `Evm.Windows` and are compared by runs of `Evm.Interpreter`. A
-- function of the model has the name of the function of the source.
--
-- Bounds and fuel. Words are below 2 ^ 64. The recursion of `fill_subtree` halves its buffer and
-- has one round of fuel more than the buffer is long; `log_floor` has 64 rounds, since its power
-- doubles at least in each. The chunks of
-- an input have a round for each element; the loop of `hash_pad` has eight, as many as the rate;
-- the last loop of `hash_n_to_m_no_pad` has fuel that its theorem bounds. The loops of the
-- reduction strategies lower the degree or extend the prefix in every round, so they have one round
-- more than the degree.
-- `find` has more rounds than the forest has nodes, and `PermutationArgument.Bounds` shows that no
-- chain is longer than that.
-- `replace_windows` moves on or shortens its vector in each of at most w * length + 1 rounds, and all
-- passes of the optimizer but the last shorten the code.
--
-- Not modelled: proof generation and the circuit builder, the gates and gadgets, the STARK prover,
-- the kernel's assembly code and assembler, vectorised code, the compression of FRI proofs and timing.
pub mod Common
pub mod Util
pub mod Field
pub mod Hash
pub mod Iop
pub mod Fri
pub mod Plonk
pub mod Serialization
pub mod Evm
