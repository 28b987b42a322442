-- ===== src/Fri/Params.antt =====
-- plonky2/src/fri/mod.rs: the configuration of the FRI protocol and its parameters for one size.
-- Sums of sizes are taken not to overflow; `none` is a panic.
use plonky.Common.{
  ℕ, ◌+◌, ◌-◌, ◌^◌, Bool, Option, some, List, [], ◌∷◌, ltb, leb, assert, ◌>>=◌, ◌>>◌,
}
use plonky.Fri.ReductionStrategies.{FriReductionStrategy}

pub record FriConfig : Type 0 where
  pub rate_bits : ℕ
  pub cap_height : ℕ
  pub num_query_rounds : ℕ
  pub proof_of_work_bits : ℕ
  pub reduction_strategy : FriReductionStrategy

pub record FriParams : Type 0 where
  pub config : FriConfig
  pub hiding : Bool
  pub degree_bits : ℕ
  pub reduction_arity_bits : List ℕ

-- `1 << bits` on a `usize`, with overflow checks on.
unfoldable pub one_shl : ℕ → Option ℕ
one_shl bits = do assert (ltb bits 64); some (2 ^ bits)

unfoldable pub sum : List ℕ → ℕ
sum [] = 0
sum (x ∷ xs) = x + sum xs

unfoldable pub total_arities : FriParams → ℕ
total_arities p = sum p.reduction_arity_bits

-- `self.degree_bits - self.total_arities()` panics when it underflows.
unfoldable pub final_poly_bits : FriParams → Option ℕ
final_poly_bits p = do
  assert (leb (total_arities p) p.degree_bits)
  some (p.degree_bits - total_arities p)

unfoldable pub final_poly_len : FriParams → Option ℕ
final_poly_len p = do bits ← final_poly_bits p; one_shl bits
