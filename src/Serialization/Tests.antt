-- ===== src/Serialization/Tests.antt =====
-- plonky2/src/util/serialization/mod.rs: small data, their bytes, and the theorems at them.
mod Circuit
mod Compressed
mod Bytes
mod Targets
use plonky.Common.{
  ℕ, ◌≡◌, refl, arith, Bool, true, false, Option, none, some, List, [], ◌∷◌, ◌++◌, take, drop, ◌≢◌,
}
use plonky.Fri.Params.{
  FriConfig, FriParams, final_poly_len, final_poly_bits, total_arities, sum, one_shl,
}
use plonky.Fri.ReductionStrategies.{FriReductionStrategy, fixed, constant_arity_bits, min_size}
use plonky.Hash.HashTypes.BytesHash.{keccak_hash_bytes, from_bytes, to_vec, to_vec-injective}
use plonky.Plonk.CircuitData.{
  CircuitConfig, SelectorsInfo, CommonCircuitData, num_all_lookup_polys, salt_size,
}
use plonky.Plonk.Proof.{
  FriQueryStep, FriQueryRound, FriProof, OpeningSet, Proof, ProofWithPublicInputs,
}
use plonky.Serialization.{
  IoResult, ok, io_error, ◌⊕◌, write_each, write_field, write_field_vec, to_le_bytes,
  write_length_u8, write_u8, write_usize,
}
use plonky.Field.Goldilocks.{to_canonical_u64}
use plonky.Serialization.Words.{IsArray}
use plonky.Serialization.Hashes.{
  HashBytes, write_hash, write_merkle_cap, write_merkle_proof, write_field_row,
}
use plonky.Serialization.Hashes.RoundTrip.{IsHash, IsCap}
use plonky.Serialization.Proofs.{
  leaf_lengths, read_proof_with_public_inputs, write_proof_with_public_inputs, write_field_ext,
  write_field_ext_vec, write_opening_set, write_evals_proof, write_fri_initial_proof,
  write_fri_query_step, write_fri_query_round, write_fri_query_rounds, write_fri_proof, write_proof,
}
use plonky.Serialization.Proofs.RoundTrip.{IsExt, IsEvalsProof, IsOpeningSet}
use plonky.Serialization.Proofs.Whole.{
  IsFriQueryRound, IsFriProof, IsProof, IsProofWithPublicInputs, read-write_proof,
  read-truncated_proof,
}

abbrev pub config : CircuitConfig
config = record {
  num_wires = 1;
  num_routed_wires = 1;
  num_constants = 1;
  security_bits = 1;
  num_challenges = 1;
  max_quotient_degree_factor = 1;
  use_base_arithmetic_gate = true;
  zero_knowledge = false;
  fri_config = record {
    rate_bits = 1;
    cap_height = 0;
    num_query_rounds = 1;
    proof_of_work_bits = 0;
    reduction_strategy = min_size (some 3);
  };
}

-- A circuit with one gate, which is a number.
abbrev pub common_data : CommonCircuitData ℕ
common_data = record {
  config = config;
  fri_params = record {
    config = config.fri_config;
    hiding = false;
    degree_bits = 1;
    reduction_arity_bits = 1 ∷ [];
  };
  gates = 5 ∷ [];
  selectors_info = record { selector_indices = 0 ∷ []; groups = (0, 1) ∷ [] };
  quotient_degree_factor = 1;
  num_gate_constraints = 1;
  num_constants = 1;
  num_public_inputs = 1;
  k_is = 1 ∷ [];
  num_partial_products = 0;
  num_lookup_polys = 0;
  num_lookup_selectors = 0;
  luts = ((2, 3) ∷ []) ∷ [];
}

-- Digests of one byte.
abbrev pub hashes : HashBytes (List ℕ)
hashes = keccak_hash_bytes 1

abbrev pub digest : List ℕ
digest = 9 ∷ []

abbrev pub one_value : List (List ℕ)
one_value = (4 ∷ []) ∷ []

abbrev pub evals_proof : List ℕ × List (List ℕ)
evals_proof = (6 ∷ [], digest ∷ [])

abbrev query_round : FriQueryRound (List ℕ)
query_round = record {
  initial_trees_proof = (6 ∷ 7 ∷ [], []) ∷ evals_proof ∷ evals_proof ∷ evals_proof ∷ [];
  steps = record { evals = (1 ∷ []) ∷ (2 ∷ []) ∷ []; merkle_proof = digest ∷ [] } ∷ [];
}

abbrev pub proof : ProofWithPublicInputs (List ℕ)
proof = record {
  proof = record {
    wires_cap = digest ∷ [];
    plonk_zs_partial_products_cap = digest ∷ [];
    quotient_polys_cap = digest ∷ [];
    openings = record {
      constants = one_value;
      plonk_sigmas = one_value;
      wires = one_value;
      plonk_zs = one_value;
      plonk_zs_next = one_value;
      lookup_zs = [];
      lookup_zs_next = [];
      partial_products = [];
      quotient_polys = one_value;
    };
    opening_proof = record {
      commit_phase_merkle_caps = (digest ∷ []) ∷ [];
      query_round_proofs = query_round ∷ [];
      final_poly = one_value;
      pow_witness = 8;
    };
  };
  public_inputs = 3 ∷ [];
}

pub digest-IsHash : IsHash hashes digest
unfolding keccak_hash_bytes from_bytes
digest-IsHash = (refl, refl)

pub digest-IsCap : IsCap hashes 0 (digest ∷ [])
digest-IsCap = (omega arith, (refl, (digest-IsHash, tt)))

pub one_value-IsArray : IsArray 1 (IsExt 1) one_value
one_value-IsArray = (refl, ((refl, (omega arith, tt)), tt))

pub evals_proof-IsEvalsProof : IsEvalsProof hashes 1 1 evals_proof
evals_proof-IsEvalsProof = ((refl, (omega arith, tt)), (omega arith, (digest-IsHash, tt)))

pub openings-IsOpeningSet : IsOpeningSet 1 common_data proof.proof.openings
unfolding num_all_lookup_polys
openings-IsOpeningSet = record {
  constants = one_value-IsArray;
  plonk_sigmas = one_value-IsArray;
  wires = one_value-IsArray;
  plonk_zs = one_value-IsArray;
  plonk_zs_next = one_value-IsArray;
  lookup_zs = (refl, tt);
  lookup_zs_next = (refl, tt);
  partial_products = (refl, tt);
  quotient_polys = one_value-IsArray;
}

round-IsFriQueryRound : IsFriQueryRound hashes 1 common_data query_round
unfolding leaf_lengths salt_size
round-IsFriQueryRound = record {
  initial_trees_proof = (
    ((refl, (omega arith, (omega arith, tt))), (omega arith, tt)),
    (evals_proof-IsEvalsProof, (evals_proof-IsEvalsProof, (evals_proof-IsEvalsProof, tt))),
  );
  steps = (
    omega arith,
    record {
      evals = (refl, ((refl, (omega arith, tt)), ((refl, (omega arith, tt)), tt)));
      merkle_proof = (omega arith, (digest-IsHash, tt));
    },
    tt,
  );
}

opening_proof-IsFriProof : IsFriProof hashes 1 common_data proof.proof.opening_proof
unfolding final_poly_len final_poly_bits total_arities sum one_shl
opening_proof-IsFriProof = record {
  commit_phase_merkle_caps = (refl, (digest-IsCap, tt));
  query_round_proofs = (refl, (round-IsFriQueryRound, tt));
  final_poly_length = (1, refl);
  final_poly = one_value-IsArray;
  pow_witness = omega arith;
}

proof-IsProof : IsProofWithPublicInputs hashes 1 common_data proof
proof-IsProof = record {
  proof = record {
    wires_cap = digest-IsCap;
    plonk_zs_partial_products_cap = digest-IsCap;
    quotient_polys_cap = digest-IsCap;
    openings = openings-IsOpeningSet;
    opening_proof = opening_proof-IsFriProof;
  };
  public_inputs = (omega arith, (omega arith, tt));
}

read-write_proof_example :
    (bytes : List ℕ) × (write_proof_with_public_inputs hashes proof ≡ some bytes)
    × (read_proof_with_public_inputs hashes 1 common_data (bytes ++ (1 ∷ [])) ≡ ok (proof, 1 ∷ []))
read-write_proof_example = read-write_proof hashes 1 common_data proof (1 ∷ []) proof-IsProof

abbrev proof_bytes : List ℕ
proof_bytes =
    9 ∷ 9 ∷ 9 ∷ 4 ∷ 0 ∷ 0 ∷ 0 ∷ 0 ∷ 0 ∷ 0 ∷ 0 ∷ 4 ∷ 0 ∷ 0 ∷ 0 ∷ 0 ∷ 0 ∷ 0 ∷ 0 ∷ 4 ∷ 0 ∷ 0 ∷ 0 ∷ 0
    ∷ 0 ∷ 0 ∷ 0 ∷ 4 ∷ 0 ∷ 0 ∷ 0 ∷ 0 ∷ 0 ∷ 0 ∷ 0 ∷ 4 ∷ 0 ∷ 0 ∷ 0 ∷ 0 ∷ 0 ∷ 0 ∷ 0 ∷ 4 ∷ 0 ∷ 0 ∷ 0 ∷ 0
    ∷ 0 ∷ 0 ∷ 0 ∷ 9 ∷ 6 ∷ 0 ∷ 0 ∷ 0 ∷ 0 ∷ 0 ∷ 0 ∷ 0 ∷ 7 ∷ 0 ∷ 0 ∷ 0 ∷ 0 ∷ 0 ∷ 0 ∷ 0 ∷ 0 ∷ 6 ∷ 0 ∷ 0
    ∷ 0 ∷ 0 ∷ 0 ∷ 0 ∷ 0 ∷ 1 ∷ 9 ∷ 6 ∷ 0 ∷ 0 ∷ 0 ∷ 0 ∷ 0 ∷ 0 ∷ 0 ∷ 1 ∷ 9 ∷ 6 ∷ 0 ∷ 0 ∷ 0 ∷ 0 ∷ 0 ∷ 0
    ∷ 0 ∷ 1 ∷ 9 ∷ 1 ∷ 0 ∷ 0 ∷ 0 ∷ 0 ∷ 0 ∷ 0 ∷ 0 ∷ 2 ∷ 0 ∷ 0 ∷ 0 ∷ 0 ∷ 0 ∷ 0 ∷ 0 ∷ 1 ∷ 9 ∷ 4 ∷ 0 ∷ 0
    ∷ 0 ∷ 0 ∷ 0 ∷ 0 ∷ 0 ∷ 8 ∷ 0 ∷ 0 ∷ 0 ∷ 0 ∷ 0 ∷ 0 ∷ 0 ∷ 1 ∷ 0 ∷ 0 ∷ 0 ∷ 0 ∷ 0 ∷ 0 ∷ 0 ∷ 3 ∷ 0 ∷ 0
    ∷ 0 ∷ 0 ∷ 0 ∷ 0 ∷ 0 ∷ []

proof-bytes : write_proof_with_public_inputs hashes proof ≡ some proof_bytes
unfolding write_proof_with_public_inputs write_proof write_merkle_cap write_hash write_each ◌⊕◌
    keccak_hash_bytes write_opening_set write_field_ext_vec write_field_ext write_field to_le_bytes
    to_canonical_u64 write_fri_proof write_fri_query_rounds write_fri_query_round
    write_fri_initial_proof write_evals_proof write_field_vec write_merkle_proof write_length_u8
    write_u8 write_fri_query_step write_field_row write_usize
proof-bytes = refl

read-truncated_proof_example :
    read_proof_with_public_inputs hashes 1 common_data (take 52 proof_bytes) ≡ io_error
read-truncated_proof_example =
    read-truncated_proof hashes 1 common_data proof (take 52 proof_bytes) (drop 53 proof_bytes) 6
      proof-IsProof proof-bytes

to_vec-injective_example :
    (us : List ℕ) × (vs : List ℕ) × (to_vec (1 ∷ 2 ∷ []) ≡ some us)
    × (to_vec (1 ∷ 0 ∷ []) ≡ some vs)
    × (us ≢ vs)
to_vec-injective_example =
    to_vec-injective (1 ∷ 2 ∷ []) (1 ∷ 0 ∷ []) refl (omega arith, (omega arith, tt))
      (omega arith, (omega arith, tt)) (λ e. cc)
