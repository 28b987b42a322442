-- ===== src/Serialization/Tests/Compressed.antt =====
-- plonky2/src/util/serialization/mod.rs: a small compressed proof, and the theorem at it.
use plonky.Common.{ℕ, ◌/◌, ◌^◌, ◌≡◌, refl, inl, inr, ap, arith, some, List, [], ◌∷◌}
use plonky.Fri.Params.{final_poly_len, final_poly_bits, total_arities, sum, one_shl}
use plonky.Plonk.CircuitData.{salt_size}
use plonky.Serialization.{ok}
use plonky.Serialization.Compressed.{
  CompressedFriQueryRounds, CompressedProofWithPublicInputs,
  read_compressed_proof_with_public_inputs, write_compressed_proof_with_public_inputs,
}
use plonky.Serialization.Compressed.Keys.{IsKeys}
use plonky.Serialization.Compressed.Whole.{
  IsCompressedFriQueryRounds, IsCompressedProof, read-write_compressed_proof,
}
use plonky.Serialization.Proofs.{leaf_lengths}
use plonky.Serialization.Tests.{
  hashes, common_data, digest, digest-IsHash, digest-IsCap, evals_proof, evals_proof-IsEvalsProof,
  one_value, one_value-IsArray, proof, openings-IsOpeningSet,
}

-- One query at index 3, whose step has the index 1.
abbrev rounds : CompressedFriQueryRounds (List ℕ)
rounds = record {
  indices = 3 ∷ [];
  initial_trees_proofs = (3, (6 ∷ 7 ∷ [], []) ∷ evals_proof ∷ evals_proof ∷ evals_proof ∷ []) ∷ [];
  steps = ((1, record { evals = one_value; merkle_proof = digest ∷ [] }) ∷ []) ∷ [];
}

abbrev compressed : CompressedProofWithPublicInputs (List ℕ)
compressed = record {
  proof = record {
    wires_cap = digest ∷ [];
    plonk_zs_partial_products_cap = digest ∷ [];
    quotient_polys_cap = digest ∷ [];
    openings = proof.proof.openings;
    opening_proof = record {
      commit_phase_merkle_caps = (digest ∷ []) ∷ [];
      query_round_proofs = rounds;
      final_poly = one_value;
      pow_witness = 8;
    };
  };
  public_inputs = 3 ∷ 4 ∷ [];
}

one_key : (shift i : ℕ) → IsKeys shift (i ∷ []) ((i / 2 ^ shift) ∷ [])
one_key shift i = record {
  ascending = (tt, tt);
  comes = λ k n. elim n [ inl e ↦ (i, inl refl, e) | inr m ↦ absurd m ];
  kept = λ j n. elim n [ inl e ↦ inl (ap (λ (t : ℕ). t / 2 ^ shift) e) | inr m ↦ absurd m ];
}

rounds-IsRounds : IsCompressedFriQueryRounds hashes 1 common_data rounds
unfolding leaf_lengths salt_size
rounds-IsRounds = record {
  indices = (refl, (omega arith, tt));
  initial_trees_proofs = (
    one_key 0 3,
    (
      (
        ((refl, (omega arith, (omega arith, tt))), (omega arith, tt)),
        (evals_proof-IsEvalsProof, (evals_proof-IsEvalsProof, (evals_proof-IsEvalsProof, tt))),
      ),
      tt,
    ),
  );
  steps = (
    omega arith,
    (
      one_key 1 3,
      (record { evals = one_value-IsArray; merkle_proof = (omega arith, (digest-IsHash, tt)) }, tt),
    ),
    tt,
  );
}

compressed-IsCompressedProof : IsCompressedProof hashes 1 common_data compressed.proof
unfolding final_poly_len final_poly_bits total_arities sum one_shl
compressed-IsCompressedProof = record {
  wires_cap = digest-IsCap;
  plonk_zs_partial_products_cap = digest-IsCap;
  quotient_polys_cap = digest-IsCap;
  openings = openings-IsOpeningSet;
  opening_proof = record {
    commit_phase_merkle_caps = (refl, (digest-IsCap, tt));
    query_round_proofs = rounds-IsRounds;
    final_poly_length = (1, refl);
    final_poly = one_value-IsArray;
    pow_witness = omega arith;
  };
}

read-write_compressed_proof_example :
    (bytes : List ℕ) × (write_compressed_proof_with_public_inputs hashes compressed ≡ some bytes)
    × (read_compressed_proof_with_public_inputs hashes 1 common_data bytes ≡ ok (compressed, []))
read-write_compressed_proof_example =
    read-write_compressed_proof hashes 1 common_data compressed compressed-IsCompressedProof
      (omega arith, (omega arith, tt))
