-- ===== src/Serialization/Configs.antt =====
-- plonky2/src/util/serialization/mod.rs: configurations, selectors and lookup tables.
pub mod RoundTrip
use plonky.Common.{ℕ, Bool, true, false, Option, none, some, List, [], length, ◌==◌, if◌then◌else◌}
use plonky.Fri.Params.{FriConfig, FriParams}
use plonky.Fri.ReductionStrategies.{FriReductionStrategy, fixed, constant_arity_bits, min_size}
use plonky.Plonk.CircuitData.{CircuitConfig, SelectorsInfo}
use plonky.Serialization.{
  Reader, ◌>>=◌, ret, fail, ◌⊕◌, read_u8, read_u16, read_u32, read_usize, read_bool, write_u8,
  write_u16, write_u32, write_usize, write_bool, read_n, write_each, read_vec, write_vec,
  read_usize_vec, write_usize_vec,
}

unfoldable pub read_fixed : Reader FriReductionStrategy
read_fixed = do arities ← read_usize_vec; ret (fixed arities)

unfoldable pub read_constant_arity_bits : Reader FriReductionStrategy
read_constant_arity_bits = do
  arity_bits ← read_usize
  final_poly_bits ← read_usize
  ret (constant_arity_bits arity_bits final_poly_bits)

unfoldable pub read_max : Reader FriReductionStrategy
read_max = do max ← read_usize; ret (min_size (some max))

unfoldable pub match_is_some : ℕ → Reader FriReductionStrategy
match_is_some is_some =
    if is_some == 0 then ret (min_size none) else if is_some == 1 then read_max else fail

unfoldable pub read_min_size : Reader FriReductionStrategy
read_min_size = do is_some ← read_u8; match_is_some is_some

unfoldable pub match_variant : ℕ → Reader FriReductionStrategy
match_variant variant =
    if variant == 0
    then read_fixed
    else if variant == 1
    then read_constant_arity_bits
    else if variant == 2
    then read_min_size
    else fail

unfoldable pub read_fri_reduction_strategy : Reader FriReductionStrategy
read_fri_reduction_strategy = do variant ← read_u8; match_variant variant

unfoldable pub write_fri_reduction_strategy : FriReductionStrategy → Option (List ℕ)
write_fri_reduction_strategy (fixed seq) = write_u8 0 ⊕ write_usize_vec seq
write_fri_reduction_strategy (constant_arity_bits arity_bits final_poly_bits) =
    write_u8 1 ⊕ write_usize arity_bits ⊕ write_usize final_poly_bits
write_fri_reduction_strategy (min_size (some max)) = write_u8 2 ⊕ write_u8 1 ⊕ write_usize max
write_fri_reduction_strategy (min_size none) = write_u8 2 ⊕ write_u8 0

unfoldable pub read_fri_config : Reader FriConfig
read_fri_config = do
  rate_bits ← read_usize
  cap_height ← read_usize
  num_query_rounds ← read_usize
  proof_of_work_bits ← read_u32
  reduction_strategy ← read_fri_reduction_strategy
  ret (record {
    rate_bits = rate_bits;
    cap_height = cap_height;
    num_query_rounds = num_query_rounds;
    proof_of_work_bits = proof_of_work_bits;
    reduction_strategy = reduction_strategy;
  })

unfoldable pub write_fri_config : FriConfig → Option (List ℕ)
write_fri_config c =
    write_usize c.rate_bits
    ⊕ write_usize c.cap_height
    ⊕ write_usize c.num_query_rounds
    ⊕ write_u32 c.proof_of_work_bits
    ⊕ write_fri_reduction_strategy c.reduction_strategy

unfoldable pub read_circuit_config : Reader CircuitConfig
read_circuit_config = do
  num_wires ← read_usize
  num_routed_wires ← read_usize
  num_constants ← read_usize
  security_bits ← read_usize
  num_challenges ← read_usize
  max_quotient_degree_factor ← read_usize
  use_base_arithmetic_gate ← read_bool
  zero_knowledge ← read_bool
  fri_config ← read_fri_config
  ret (record {
    num_wires = num_wires;
    num_routed_wires = num_routed_wires;
    num_constants = num_constants;
    security_bits = security_bits;
    num_challenges = num_challenges;
    max_quotient_degree_factor = max_quotient_degree_factor;
    use_base_arithmetic_gate = use_base_arithmetic_gate;
    zero_knowledge = zero_knowledge;
    fri_config = fri_config;
  })

unfoldable pub write_circuit_config : CircuitConfig → Option (List ℕ)
write_circuit_config c =
    write_usize c.num_wires
    ⊕ write_usize c.num_routed_wires
    ⊕ write_usize c.num_constants
    ⊕ write_usize c.security_bits
    ⊕ write_usize c.num_challenges
    ⊕ write_usize c.max_quotient_degree_factor
    ⊕ write_bool c.use_base_arithmetic_gate
    ⊕ write_bool c.zero_knowledge
    ⊕ write_fri_config c.fri_config

unfoldable pub read_fri_params : Reader FriParams
read_fri_params = do
  config ← read_fri_config
  reduction_arity_bits ← read_usize_vec
  degree_bits ← read_usize
  hiding ← read_bool
  ret (record {
    config = config;
    reduction_arity_bits = reduction_arity_bits;
    degree_bits = degree_bits;
    hiding = hiding;
  })

unfoldable pub write_fri_params : FriParams → Option (List ℕ)
write_fri_params p =
    write_fri_config p.config
    ⊕ write_usize_vec p.reduction_arity_bits
    ⊕ write_usize p.degree_bits
    ⊕ write_bool p.hiding

unfoldable pub read_range : Reader (ℕ × ℕ)
read_range = do start ← read_usize; end ← read_usize; ret (start, end)

unfoldable pub write_range : ℕ × ℕ → Option (List ℕ)
write_range (start, end) = write_usize start ⊕ write_usize end

unfoldable pub read_selectors_info : Reader SelectorsInfo
read_selectors_info = do
  selector_indices ← read_usize_vec
  groups ← read_vec read_range
  ret (record { selector_indices = selector_indices; groups = groups })

unfoldable pub write_selectors_info : SelectorsInfo → Option (List ℕ)
write_selectors_info s = write_usize_vec s.selector_indices ⊕ write_vec write_range s.groups

unfoldable pub read_lut_entry : Reader (ℕ × ℕ)
read_lut_entry = do a ← read_u16; b ← read_u16; ret (a, b)

unfoldable pub write_lut_entry : ℕ × ℕ → Option (List ℕ)
write_lut_entry (a, b) = write_u16 a ⊕ write_u16 b

unfoldable pub read_lut : Reader (List (ℕ × ℕ))
read_lut = read_vec read_lut_entry

unfoldable pub write_lut : List (ℕ × ℕ) → Option (List ℕ)
write_lut lut = write_vec write_lut_entry lut
