-- ===== src/Serialization/Tests/Circuit.antt =====
-- plonky2/src/util/serialization/mod.rs: the data of a small circuit, and the theorems at it. A gate
-- and a generator are a number, which their serializers write as a byte.
use plonky.Common.{ℕ, ◌≡◌, arith, false, none, some, List, [], ◌∷◌, ◌++◌}
use plonky.Plonk.CircuitData.{ProverOnlyCircuitData, VerifierOnlyCircuitData, CircuitData}
use plonky.Plonk.PermutationArgument.{wire, virtual_target}
use plonky.Serialization.{ok, read_u8, write_u8}
use plonky.Serialization.Words.{Encodes-u8}
use plonky.Serialization.Configs.RoundTrip.{IsFriConfig}
use plonky.Serialization.CommonData.{GateSerializer}
use plonky.Serialization.CommonData.RoundTrip.{IsCommonFields, IsCommonCircuitData}
use plonky.Serialization.Circuits.{
  WitnessGeneratorSerializer, read_circuit_data, write_circuit_data, read_verifier_circuit_data,
  write_verifier_circuit_data,
}
use plonky.Serialization.Circuits.RoundTrip.{IsProverOnlyCircuitData, IsVerifierOnlyCircuitData}
use plonky.Serialization.Circuits.Whole.{
  IsCircuitData, read-write_circuit_data, read-write_verifier_circuit_data,
}
use plonky.Serialization.Tests.{hashes, common_data, config, digest, digest-IsHash, digest-IsCap}

abbrev gates : GateSerializer ℕ
gates = record { read_gate = λ c. read_u8; write_gate = λ g c. write_u8 g }

abbrev generators : WitnessGeneratorSerializer ℕ ℕ
generators = record { read_generator = λ c. read_u8; write_generator = λ w c. write_u8 w }

abbrev prover_only : ProverOnlyCircuitData ℕ (List ℕ)
prover_only = record {
  generators = 7 ∷ [];
  generator_indices_by_watches = (2, 0 ∷ []) ∷ (5, 0 ∷ []) ∷ [];
  constants_sigmas_commitment = record {
    polynomials = (1 ∷ 2 ∷ []) ∷ [];
    merkle_tree = record { leaves = (3 ∷ []) ∷ []; digests = []; cap = digest ∷ [] };
    degree_log = 1;
    rate_bits = 1;
    blinding = false;
  };
  sigmas = (4 ∷ []) ∷ [];
  subgroup = 1 ∷ [];
  public_inputs = wire (record { row = 0; column = 1 }) ∷ virtual_target 3 ∷ [];
  representative_map = 0 ∷ 0 ∷ [];
  fft_root_table = none;
  circuit_digest = digest;
  lookup_rows = record { last_lu_gate = 1; last_lut_gate = 2; first_lut_gate = 3 } ∷ [];
  lut_to_lookups = [];
}

abbrev verifier_only : VerifierOnlyCircuitData (List ℕ)
verifier_only = record { constants_sigmas_cap = digest ∷ []; circuit_digest = digest }

abbrev circuit : CircuitData ℕ ℕ (List ℕ)
circuit = record { prover_only = prover_only; verifier_only = verifier_only; common = common_data }

fri_config-IsFriConfig : IsFriConfig config.fri_config
fri_config-IsFriConfig = record {
  rate_bits = omega arith;
  cap_height = omega arith;
  num_query_rounds = omega arith;
  proof_of_work_bits = omega arith;
  reduction_strategy = omega arith;
}

common_data-IsCommonFields : IsCommonFields common_data
common_data-IsCommonFields = record {
  config = record {
    num_wires = omega arith;
    num_routed_wires = omega arith;
    num_constants = omega arith;
    security_bits = omega arith;
    num_challenges = omega arith;
    max_quotient_degree_factor = omega arith;
    fri_config = fri_config-IsFriConfig;
  };
  fri_params = record {
    config = fri_config-IsFriConfig;
    reduction_arity_bits = (omega arith, (omega arith, tt));
    degree_bits = omega arith;
  };
  selectors_info = record {
    selector_indices = (omega arith, (omega arith, tt));
    groups = (omega arith, ((omega arith, omega arith), tt));
  };
  quotient_degree_factor = omega arith;
  num_gate_constraints = omega arith;
  num_constants = omega arith;
  num_public_inputs = omega arith;
  k_is = (omega arith, (omega arith, tt));
  num_partial_products = omega arith;
  num_lookup_polys = omega arith;
  num_lookup_selectors = omega arith;
  luts = (omega arith, ((omega arith, ((omega arith, omega arith), tt)), tt));
}

common_data-IsCommonCircuitData : IsCommonCircuitData gates common_data
common_data-IsCommonCircuitData = record {
  fields = common_data-IsCommonFields;
  gates = (omega arith, (Encodes-u8 (omega arith), tt));
}

verifier_only-IsVerifierOnly : IsVerifierOnlyCircuitData hashes verifier_only
verifier_only-IsVerifierOnly = record {
  height = 0;
  constants_sigmas_cap = digest-IsCap;
  circuit_digest = digest-IsHash;
}

prover_only-IsProverOnly : IsProverOnlyCircuitData hashes generators common_data prover_only
prover_only-IsProverOnly = record {
  generators = (omega arith, (Encodes-u8 (omega arith), tt));
  watches_length = omega arith;
  watches_order = ((omega arith, tt), (tt, tt));
  watches = (
    (omega arith, (omega arith, (omega arith, tt))),
    ((omega arith, (omega arith, (omega arith, tt))), tt),
  );
  constants_sigmas_commitment = record {
    polynomials = (omega arith, ((omega arith, (omega arith, (omega arith, tt))), tt));
    merkle_tree = record {
      cap_height = 0;
      leaves = (omega arith, ((omega arith, (omega arith, tt)), tt));
      digests = (omega arith, tt);
      cap = digest-IsCap;
    };
    degree_log = omega arith;
    rate_bits = omega arith;
  };
  sigmas = (omega arith, ((omega arith, (omega arith, tt)), tt));
  subgroup = (omega arith, (omega arith, tt));
  public_inputs = (omega arith, ((omega arith, omega arith), (omega arith, tt)));
  representative_map = (omega arith, (omega arith, (omega arith, tt)));
  fft_root_table = tt;
  circuit_digest = digest-IsHash;
  lookup_rows = (
    omega arith,
    (
      record {
        last_lu_gate = omega arith;
        last_lut_gate = omega arith;
        first_lut_gate = omega arith;
      },
      tt,
    ),
  );
  lut_to_lookups = (omega arith, tt);
}

circuit-IsCircuitData : IsCircuitData hashes generators gates circuit
circuit-IsCircuitData = record {
  prover_only = prover_only-IsProverOnly;
  verifier_only = verifier_only-IsVerifierOnly;
  common_data = common_data-IsCommonCircuitData;
}

read-write_circuit_data_example :
    (bytes : List ℕ) × (write_circuit_data hashes generators gates circuit ≡ some bytes)
    × (read_circuit_data hashes generators gates (bytes ++ (1 ∷ [])) ≡ ok (circuit, 1 ∷ []))
read-write_circuit_data_example =
    read-write_circuit_data hashes generators gates circuit (1 ∷ []) circuit-IsCircuitData

read-write_verifier_circuit_data_example :
    (bytes : List ℕ) × (write_verifier_circuit_data hashes gates
        (record { verifier_only = verifier_only; common = common_data })
      ≡ some bytes)
    × (read_verifier_circuit_data hashes gates (bytes ++ (1 ∷ []))
        ≡ ok (record { verifier_only = verifier_only; common = common_data }, 1 ∷ []))
read-write_verifier_circuit_data_example =
    read-write_verifier_circuit_data hashes gates
      (record { verifier_only = verifier_only; common = common_data }) (1 ∷ [])
      (record {
        verifier_only = verifier_only-IsVerifierOnly;
        common_data = common_data-IsCommonCircuitData;
      })
