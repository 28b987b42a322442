-- ===== src/Serialization/Configs/RoundTrip.antt =====
-- plonky2/src/util/serialization/mod.rs: configurations, selectors and lookup tables are read as they
-- were written.
use plonky.Common.{ℕ, ◌^◌, ◌<◌, refl, arith, none, some, List}
use plonky.Fri.Params.{FriConfig, FriParams}
use plonky.Fri.ReductionStrategies.{FriReductionStrategy, fixed, constant_arity_bits, min_size}
use plonky.Plonk.CircuitData.{CircuitConfig, SelectorsInfo}
use plonky.Serialization.{ret}
use plonky.Serialization.Encodes.{Encodes, Encodes-bind, Encodes-map, Encodes-last}
use plonky.Serialization.Words.{
  Encodes-u8, Encodes-u16, Encodes-u32, Encodes-usize, Encodes-bool, Encodes-usize_vec, Encodes-vec,
  IsUsize, IsVec,
}
use plonky.Serialization.Configs.{
  read_fixed, read_constant_arity_bits, read_max, match_is_some, read_min_size, match_variant,
  read_fri_reduction_strategy, write_fri_reduction_strategy, read_fri_config, write_fri_config,
  read_circuit_config, write_circuit_config, read_fri_params, write_fri_params, read_range,
  write_range, read_selectors_info, write_selectors_info, read_lut_entry, write_lut_entry, read_lut,
  write_lut,
}

abbrev pub IsFriReductionStrategy : FriReductionStrategy → Type 0
IsFriReductionStrategy (fixed seq) = IsVec IsUsize seq
IsFriReductionStrategy (constant_arity_bits a b) = IsUsize a × IsUsize b
IsFriReductionStrategy (min_size none) = Unit
IsFriReductionStrategy (min_size (some max)) = IsUsize max

pub Encodes-fri_reduction_strategy :
    (s : FriReductionStrategy)
    → IsFriReductionStrategy s
    → Encodes read_fri_reduction_strategy s (write_fri_reduction_strategy s)
unfolding read_fri_reduction_strategy write_fri_reduction_strategy match_variant read_fixed
    read_constant_arity_bits read_min_size match_is_some read_max ret
Encodes-fri_reduction_strategy (fixed seq) h =
    Encodes-bind match_variant (Encodes-u8 (omega arith))
      (Encodes-map fixed (Encodes-usize_vec seq h))
Encodes-fri_reduction_strategy (constant_arity_bits a b) (ha, hb) =
    Encodes-bind match_variant (Encodes-u8 (omega arith))
      (Encodes-bind _ (Encodes-usize ha) (Encodes-map _ (Encodes-usize hb)))
Encodes-fri_reduction_strategy (min_size none) h =
    Encodes-bind match_variant (Encodes-u8 (omega arith))
      (Encodes-last match_is_some (Encodes-u8 (omega arith)) (λ rest. refl))
Encodes-fri_reduction_strategy (min_size (some max)) h =
    Encodes-bind match_variant (Encodes-u8 (omega arith))
      (Encodes-bind match_is_some (Encodes-u8 (omega arith)) (Encodes-map _ (Encodes-usize h)))

pub record IsFriConfig (c : FriConfig) : Type 0 where
  pub rate_bits : IsUsize c.rate_bits
  pub cap_height : IsUsize c.cap_height
  pub num_query_rounds : IsUsize c.num_query_rounds
  pub proof_of_work_bits : c.proof_of_work_bits < 2 ^ 32
  pub reduction_strategy : IsFriReductionStrategy c.reduction_strategy

Encodes-fri_config :
    (c : FriConfig) → IsFriConfig c → Encodes read_fri_config c (write_fri_config c)
unfolding read_fri_config write_fri_config
Encodes-fri_config c h = Encodes-bind _ (Encodes-usize h.rate_bits) (
    Encodes-bind _ (Encodes-usize h.cap_height) (
      Encodes-bind _ (Encodes-usize h.num_query_rounds) (
        Encodes-bind _ (Encodes-u32 h.proof_of_work_bits) (
          Encodes-map _
            (Encodes-fri_reduction_strategy c.reduction_strategy h.reduction_strategy)))))

pub record IsCircuitConfig (c : CircuitConfig) : Type 0 where
  pub num_wires : IsUsize c.num_wires
  pub num_routed_wires : IsUsize c.num_routed_wires
  pub num_constants : IsUsize c.num_constants
  pub security_bits : IsUsize c.security_bits
  pub num_challenges : IsUsize c.num_challenges
  pub max_quotient_degree_factor : IsUsize c.max_quotient_degree_factor
  pub fri_config : IsFriConfig c.fri_config

pub Encodes-circuit_config :
    (c : CircuitConfig) → IsCircuitConfig c → Encodes read_circuit_config c (write_circuit_config c)
unfolding read_circuit_config write_circuit_config
Encodes-circuit_config c h = Encodes-bind _ (Encodes-usize h.num_wires) (
    Encodes-bind _ (Encodes-usize h.num_routed_wires) (
      Encodes-bind _ (Encodes-usize h.num_constants) (
        Encodes-bind _ (Encodes-usize h.security_bits) (
          Encodes-bind _ (Encodes-usize h.num_challenges) (
            Encodes-bind _ (Encodes-usize h.max_quotient_degree_factor) (
              Encodes-bind _ Encodes-bool (
                Encodes-bind _ Encodes-bool
                  (Encodes-map _ (Encodes-fri_config c.fri_config h.fri_config)))))))))

pub record IsFriParams (p : FriParams) : Type 0 where
  pub config : IsFriConfig p.config
  pub reduction_arity_bits : IsVec IsUsize p.reduction_arity_bits
  pub degree_bits : IsUsize p.degree_bits

pub Encodes-fri_params :
    (p : FriParams) → IsFriParams p → Encodes read_fri_params p (write_fri_params p)
unfolding read_fri_params write_fri_params
Encodes-fri_params p h = Encodes-bind _ (Encodes-fri_config p.config h.config) (
    Encodes-bind _ (Encodes-usize_vec p.reduction_arity_bits h.reduction_arity_bits)
      (Encodes-bind _ (Encodes-usize h.degree_bits) (Encodes-map _ Encodes-bool)))

abbrev pub IsRange : ℕ × ℕ → Type 0
IsRange (start, end) = IsUsize start × IsUsize end

Encodes-range : (r : ℕ × ℕ) → IsRange r → Encodes read_range r (write_range r)
unfolding read_range write_range
Encodes-range (start, end) (hs, he) =
    Encodes-bind _ (Encodes-usize hs) (Encodes-map _ (Encodes-usize he))

pub record IsSelectorsInfo (s : SelectorsInfo) : Type 0 where
  pub selector_indices : IsVec IsUsize s.selector_indices
  pub groups : IsVec IsRange s.groups

pub Encodes-selectors_info :
    (s : SelectorsInfo) → IsSelectorsInfo s → Encodes read_selectors_info s (write_selectors_info s)
unfolding read_selectors_info write_selectors_info
Encodes-selectors_info s h =
    Encodes-bind _ (Encodes-usize_vec s.selector_indices h.selector_indices)
      (Encodes-map _ (Encodes-vec IsRange Encodes-range s.groups h.groups))

abbrev pub IsLutEntry : ℕ × ℕ → Type 0
IsLutEntry (a, b) = (a < 2 ^ 16) × (b < 2 ^ 16)

Encodes-lut_entry : (x : ℕ × ℕ) → IsLutEntry x → Encodes read_lut_entry x (write_lut_entry x)
unfolding read_lut_entry write_lut_entry
Encodes-lut_entry (a, b) (ha, hb) = Encodes-bind _ (Encodes-u16 ha) (Encodes-map _ (Encodes-u16 hb))

abbrev pub IsLut : List (ℕ × ℕ) → Type 0
IsLut lut = IsVec IsLutEntry lut

pub Encodes-lut : (lut : List (ℕ × ℕ)) → IsLut lut → Encodes read_lut lut (write_lut lut)
unfolding read_lut write_lut
Encodes-lut lut h = Encodes-vec IsLutEntry Encodes-lut_entry lut h
