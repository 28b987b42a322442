-- ===== src/Fri/ReductionStrategies.antt =====
-- plonky2/src/fri/reduction_strategies.rs. `none` is a panic, an overflow of a `usize` among them, or
-- a loop that has not ended within its fuel.
pub mod Constant
pub mod Budget
pub mod Search
pub mod MinSize
mod Tests
use plonky.Common.{
  ℕ, zero, suc, ◌+◌, ◌-◌, ◌*◌, ◌^◌, Bool, true, false, ◌&&◌, Option, none, some, List, [], ◌∷◌,
  ◌++◌, ltb, leb, if◌then◌else◌, assert, ◌>>=◌, ◌>>◌, min,
}
use plonky.Common.Words.{checked_add, checked_sub, checked_mul}

pub data FriReductionStrategy : Type 0 where
  fixed : List ℕ → FriReductionStrategy
  constant_arity_bits : ℕ → ℕ → FriReductionStrategy
  min_size : Option ℕ → FriReductionStrategy

-- The `while` of the constant strategy from `degree_bits` on: what it pushes.
unfoldable pub constant_loop : ℕ → ℕ → ℕ → ℕ → ℕ → ℕ → Option (List ℕ)
constant_loop zero degree_bits rate_bits cap_height arity_bits final_poly_bits = none
constant_loop (suc fuel) degree_bits rate_bits cap_height arity_bits final_poly_bits =
    let rest =
      constant_loop fuel (degree_bits - arity_bits) rate_bits cap_height arity_bits
        final_poly_bits in
    let pushed = (do
      assert (leb arity_bits degree_bits)
      result ← rest
      some (arity_bits ∷ result)) in
    let tall = (do
      height ← checked_add degree_bits rate_bits
      lower ← checked_sub height arity_bits
      if leb cap_height lower then pushed else some []) in
    if ltb final_poly_bits degree_bits then tall else some []

-- The loop of `relative_proof_size`, where `D` is 4; `1 << n` panics from 64 on.
unfoldable pub size_loop : ℕ → ℕ → ℕ → ℕ → List ℕ → Option ℕ
size_loop rate_bits num_queries current_layer_bits total_elems [] = do
  assert (leb rate_bits current_layer_bits)
  assert (ltb (current_layer_bits - rate_bits) 64)
  coeffs ← checked_mul 4 (2 ^ (current_layer_bits - rate_bits))
  checked_add total_elems coeffs
size_loop rate_bits num_queries current_layer_bits total_elems (arity_bits ∷ rest) = do
  assert (ltb arity_bits 64)
  neighbors ← checked_mul (2 ^ arity_bits - 1) 4
  evals ← checked_mul neighbors num_queries
  with_evals ← checked_add total_elems evals
  path ← checked_mul current_layer_bits 4
  siblings ← checked_mul path num_queries
  with_siblings ← checked_add with_evals siblings
  next_layer_bits ← checked_sub current_layer_bits arity_bits
  size_loop rate_bits num_queries next_layer_bits with_siblings rest

unfoldable pub relative_proof_size : ℕ → ℕ → ℕ → List ℕ → Option ℕ
relative_proof_size degree_bits rate_bits num_queries arity_bits = do
  current_layer_bits ← checked_add degree_bits rate_bits
  size_loop rate_bits num_queries current_layer_bits 0 arity_bits

-- `prefix.iter().sum()`, from the sum so far.
unfoldable pub sum_from : ℕ → List ℕ → Option ℕ
sum_from total [] = some total
sum_from total (x ∷ xs) = do s ← checked_add total x; sum_from s xs

-- The sum without a bound, of which the theorems speak.
abbrev pub sum : List ℕ → ℕ
sum [] = 0
sum (x ∷ xs) = x + sum xs

-- `prefix.last().copied().unwrap_or(default)`
abbrev pub last_or : ℕ → List ℕ → ℕ
last_or default [] = default
last_or default (x ∷ xs) = last_or x xs

-- The `for` loop over the next `left` arities from `next` on.
unfoldable pub try_arities : (ℕ → Option (List ℕ × ℕ)) → ℕ → ℕ → List ℕ × ℕ → Option (List ℕ × ℕ)
try_arities search zero next best = some best
try_arities search (suc left) next best = do
  found ← search next
  try_arities search left (next + 1) (if ltb (found.1) (best.1) then found else best)

-- Every call extends the prefix by a positive arity, so `degree_bits + 1` rounds are enough.
unfoldable pub min_size_arity_bits_helper : ℕ → ℕ → ℕ → ℕ → ℕ → List ℕ → Option (List ℕ × ℕ)
min_size_arity_bits_helper zero degree_bits rate_bits num_queries global_max_arity_bits prefix =
    none
min_size_arity_bits_helper (suc fuel) degree_bits rate_bits num_queries global_max_arity_bits
      prefix =
    do
      sum_of_arities ← sum_from 0 prefix
      height ← checked_add degree_bits rate_bits
      current_layer_bits ← checked_sub height sum_of_arities
      assert (leb rate_bits current_layer_bits)
      best_size ← relative_proof_size degree_bits rate_bits num_queries prefix
      let max_arity_bits =
          min (last_or global_max_arity_bits prefix) (current_layer_bits - rate_bits)
      try_arities
          (λ next_arity_bits.
            min_size_arity_bits_helper fuel degree_bits rate_bits num_queries max_arity_bits
              (prefix ++ (next_arity_bits ∷ [])))
          max_arity_bits 1 (prefix, best_size)

abbrev pub unwrap_or : ℕ → Option ℕ → ℕ
unwrap_or default none = default
unwrap_or default (some x) = x

unfoldable pub min_size_arity_bits : ℕ → ℕ → ℕ → Option ℕ → Option (List ℕ)
min_size_arity_bits degree_bits rate_bits num_queries opt_max_arity_bits = do
  (arity_bits, fri_proof_size) ←
      min_size_arity_bits_helper (degree_bits + 1) degree_bits rate_bits num_queries
        (unwrap_or 4 opt_max_arity_bits) []
  some arity_bits

-- The `while` lowers the degree in every round, if the arity is not zero.
unfoldable pub reduction_arity_bits : FriReductionStrategy → ℕ → ℕ → ℕ → ℕ → Option (List ℕ)
reduction_arity_bits (fixed arity_bits) degree_bits rate_bits cap_height num_queries =
    some arity_bits
reduction_arity_bits (constant_arity_bits arity_bits final_poly_bits) degree_bits rate_bits
      cap_height num_queries =
    constant_loop (degree_bits + 1) degree_bits rate_bits cap_height arity_bits final_poly_bits
reduction_arity_bits (min_size opt_max_arity_bits) degree_bits rate_bits cap_height num_queries =
    min_size_arity_bits degree_bits rate_bits num_queries opt_max_arity_bits
