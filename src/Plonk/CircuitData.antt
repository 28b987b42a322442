-- ===== src/Plonk/CircuitData.antt =====
-- plonky2/src/plonk/circuit_data.rs, with the types of its parts: the data of a circuit. The types of
-- gates `G`, of witness generators `W` and of digests `H` are parameters; a field element is its
-- word, a polynomial its coefficients, a Merkle cap its digests. Sums and products of sizes are taken
-- not to overflow.
use plonky.Common.{ℕ, ◌*◌, Bool, Option, List, if◌then◌else◌}
use plonky.Fri.Params.{FriConfig, FriParams}
use plonky.Hash.Merkle.{MerkleTree}
use plonky.Plonk.PermutationArgument.{Target}

pub record CircuitConfig : Type 0 where
  pub num_wires : ℕ
  pub num_routed_wires : ℕ
  pub num_constants : ℕ
  pub security_bits : ℕ
  pub num_challenges : ℕ
  pub max_quotient_degree_factor : ℕ
  pub use_base_arithmetic_gate : Bool
  pub zero_knowledge : Bool
  pub fri_config : FriConfig

-- A group is a `Range<usize>`, its start and its end.
pub record SelectorsInfo : Type 0 where
  pub selector_indices : List ℕ
  pub groups : List (ℕ × ℕ)

pub record CommonCircuitData (G : Type 0) : Type 0 where
  pub config : CircuitConfig
  pub fri_params : FriParams
  pub gates : List G
  pub selectors_info : SelectorsInfo
  pub quotient_degree_factor : ℕ
  pub num_gate_constraints : ℕ
  pub num_constants : ℕ
  pub num_public_inputs : ℕ
  pub k_is : List ℕ
  pub num_partial_products : ℕ
  pub num_lookup_polys : ℕ
  pub num_lookup_selectors : ℕ
  pub luts : List (List (ℕ × ℕ))

unfoldable pub num_all_lookup_polys : {G : Type 0} → CommonCircuitData G → ℕ
num_all_lookup_polys c = c.config.num_challenges * c.num_lookup_polys

unfoldable pub salt_size : Bool → ℕ
salt_size salted = if salted then 4 else 0

pub record PolynomialBatch (H : Type 0) : Type 0 where
  pub polynomials : List (List ℕ)
  pub merkle_tree : MerkleTree ℕ H
  pub degree_log : ℕ
  pub rate_bits : ℕ
  pub blinding : Bool

pub record LookupWire : Type 0 where
  pub last_lu_gate : ℕ
  pub last_lut_gate : ℕ
  pub first_lut_gate : ℕ

-- `generator_indices_by_watches` is a `BTreeMap`: its entries, in the order of its iterator.
pub record ProverOnlyCircuitData (W H : Type 0) : Type 0 where
  pub generators : List W
  pub generator_indices_by_watches : List (ℕ × List ℕ)
  pub constants_sigmas_commitment : PolynomialBatch H
  pub sigmas : List (List ℕ)
  pub subgroup : List ℕ
  pub public_inputs : List Target
  pub representative_map : List ℕ
  pub fft_root_table : Option (List (List ℕ))
  pub circuit_digest : H
  pub lookup_rows : List LookupWire
  pub lut_to_lookups : List (List (Target × Target))

pub record VerifierOnlyCircuitData (H : Type 0) : Type 0 where
  pub constants_sigmas_cap : List H
  pub circuit_digest : H

pub record CircuitData (G W H : Type 0) : Type 0 where
  pub prover_only : ProverOnlyCircuitData W H
  pub verifier_only : VerifierOnlyCircuitData H
  pub common : CommonCircuitData G

pub record ProverCircuitData (G W H : Type 0) : Type 0 where
  pub prover_only : ProverOnlyCircuitData W H
  pub common : CommonCircuitData G

pub record VerifierCircuitData (G H : Type 0) : Type 0 where
  pub verifier_only : VerifierOnlyCircuitData H
  pub common : CommonCircuitData G
