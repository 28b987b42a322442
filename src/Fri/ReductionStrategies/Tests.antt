-- ===== src/Fri/ReductionStrategies/Tests.antt =====
-- The strategies on small polynomials.
use plonky.Common.{ℕ, ◌≤◌, ◌≡◌, refl, arith, none, some, List, [], ◌∷◌, replicate}
use plonky.Common.Words.{checked_add, checked_sub, checked_mul}
use plonky.Fri.ReductionStrategies.{
  constant_arity_bits, min_size, constant_loop, size_loop, relative_proof_size, try_arities,
  sum_from, min_size_arity_bits_helper, min_size_arity_bits, reduction_arity_bits,
}
use plonky.Fri.ReductionStrategies.Constant.{Reduced, constant-Reduced}
use plonky.Fri.ReductionStrategies.MinSize.{Allowed, stop, take_arity, min_size-optimal}

constant_fourteen : reduction_arity_bits (constant_arity_bits 4 5) 14 3 4 28 ≡ some (4 ∷ 4 ∷ 4 ∷ [])
unfolding reduction_arity_bits constant_loop checked_add checked_sub
constant_fourteen = refl

min_size_five : reduction_arity_bits (min_size none) 5 1 0 1 ≡ some (2 ∷ [])
unfolding reduction_arity_bits min_size_arity_bits min_size_arity_bits_helper try_arities
    relative_proof_size size_loop sum_from checked_add checked_sub checked_mul
min_size_five = refl

constant-Reduced_example :
    (steps : ℕ) × (reduction_arity_bits (constant_arity_bits 4 5) 14 3 4 28
      ≡ some (replicate steps 4))
    × Reduced 14 3 4 4 5 steps
constant-Reduced_example = constant-Reduced 14 3 4 28 4 5 (omega arith) (omega arith) (omega arith)

min_size-optimal_example :
    (bits : List ℕ) × (size : ℕ) × (other_size : ℕ) × (reduction_arity_bits (min_size none) 5 1 0 5
      ≡ some bits)
    × Allowed 4 5 bits
    × (relative_proof_size 5 1 5 bits ≡ some size)
    × (relative_proof_size 5 1 5 (2 ∷ 1 ∷ []) ≡ some other_size)
    × (size ≤ other_size)
min_size-optimal_example = min_size-optimal 5 1 0 5 none (2 ∷ 1 ∷ []) (omega arith) (
    take_arity (omega arith) (omega arith) (omega arith)
      (take_arity (omega arith) (omega arith) (omega arith) stop))
