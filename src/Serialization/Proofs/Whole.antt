-- ===== src/Serialization/Proofs/Whole.antt =====
-- plonky2/src/util/serialization/mod.rs: whole proofs are read as they were written, and none is read
-- from less than its bytes.
use plonky.Common.{ℕ, ◌≡◌, some, List, ◌∷◌, ◌++◌, length}
use plonky.Fri.Params.{final_poly_len}
use plonky.Plonk.CircuitData.{CommonCircuitData}
use plonky.Plonk.Proof.{FriQueryRound, FriProof, Proof, ProofWithPublicInputs}
use plonky.Serialization.{ok, io_error}
use plonky.Serialization.Encodes.{Encodes, Encodes-bind, Encodes-map, round_trip, proper_prefix}
use plonky.Serialization.Words.{Encodes-field, Encodes-each, IsField, IsVec, IsArray}
use plonky.Serialization.Hashes.{HashBytes}
use plonky.Serialization.Hashes.RoundTrip.{
  Encodes-lift, Encodes-field_row, IsCap, Encodes-merkle_cap,
}
use plonky.Serialization.Proofs.{
  leaf_lengths, read_fri_query_round, write_fri_query_round, read_fri_query_rounds,
  write_fri_query_rounds, read_fri_proof, write_fri_proof, read_proof, write_proof,
  read_proof_with_public_inputs, write_proof_with_public_inputs,
}
use plonky.Serialization.Proofs.RoundTrip.{
  IsExt, Encodes-field_ext_vec, IsOpeningSet, Encodes-opening_set, IsEvalsProofs,
  Encodes-fri_initial_proof, IsFriQuerySteps, Encodes-fri_query_steps,
}

module _ {G H : Type 0} (hb : HashBytes H) (d : ℕ) (c : CommonCircuitData G) where
  pub record IsFriQueryRound (x : FriQueryRound H) : Type 0 where
    pub initial_trees_proof : IsEvalsProofs hb d (leaf_lengths c) x.initial_trees_proof
    pub steps : IsFriQuerySteps hb d c.fri_params.reduction_arity_bits x.steps

  Encodes-fri_query_round :
      (x : FriQueryRound H)
      → IsFriQueryRound x
      → Encodes (read_fri_query_round hb d c) x (write_fri_query_round hb x)
  unfolding read_fri_query_round write_fri_query_round
  Encodes-fri_query_round x h =
      Encodes-bind _ (Encodes-fri_initial_proof hb d c x.initial_trees_proof h.initial_trees_proof)
        (Encodes-map _ (Encodes-fri_query_steps hb d _ x.steps h.steps))

  Encodes-fri_query_rounds :
      (xs : List (FriQueryRound H))
      → IsArray c.config.fri_config.num_query_rounds IsFriQueryRound xs
      → Encodes (read_fri_query_rounds hb d c) xs (write_fri_query_rounds hb xs)
  unfolding read_fri_query_rounds write_fri_query_rounds
  Encodes-fri_query_rounds xs h = Encodes-each IsFriQueryRound Encodes-fri_query_round h

  pub record IsFriProof (x : FriProof H) : Type 0 where
    pub commit_phase_merkle_caps :
        IsArray
          (length c.fri_params.reduction_arity_bits)
          (IsCap hb c.config.fri_config.cap_height)
          x.commit_phase_merkle_caps
    pub query_round_proofs :
        IsArray c.config.fri_config.num_query_rounds IsFriQueryRound x.query_round_proofs
    pub final_poly_length : (n : ℕ) × (final_poly_len c.fri_params ≡ some n)
    pub final_poly : IsArray (final_poly_length.0) (IsExt d) x.final_poly
    pub pow_witness : IsField x.pow_witness

  Encodes-fri_proof :
      (x : FriProof H) → IsFriProof x → Encodes (read_fri_proof hb d c) x (write_fri_proof hb x)
  unfolding read_fri_proof write_fri_proof
  Encodes-fri_proof x h =
      Encodes-bind _
        (Encodes-each (IsCap hb c.config.fri_config.cap_height) (Encodes-merkle_cap hb)
          h.commit_phase_merkle_caps)
        (Encodes-bind _ (Encodes-fri_query_rounds x.query_round_proofs h.query_round_proofs) (
          Encodes-lift _ (h.final_poly_length.1) (
            Encodes-bind _ (Encodes-field_ext_vec d _ x.final_poly h.final_poly)
              (Encodes-map _ (Encodes-field h.pow_witness)))))

  pub record IsProof (x : Proof H) : Type 0 where
    pub wires_cap : IsCap hb c.config.fri_config.cap_height x.wires_cap
    pub plonk_zs_partial_products_cap :
        IsCap hb c.config.fri_config.cap_height x.plonk_zs_partial_products_cap
    pub quotient_polys_cap : IsCap hb c.config.fri_config.cap_height x.quotient_polys_cap
    pub openings : IsOpeningSet d c x.openings
    pub opening_proof : IsFriProof x.opening_proof

  Encodes-proof : (x : Proof H) → IsProof x → Encodes (read_proof hb d c) x (write_proof hb x)
  unfolding read_proof write_proof
  Encodes-proof x h = Encodes-bind _ (Encodes-merkle_cap hb x.wires_cap h.wires_cap) (
      Encodes-bind _
        (Encodes-merkle_cap hb x.plonk_zs_partial_products_cap h.plonk_zs_partial_products_cap)
        (Encodes-bind _ (Encodes-merkle_cap hb x.quotient_polys_cap h.quotient_polys_cap) (
          Encodes-bind _ (Encodes-opening_set d c x.openings h.openings)
            (Encodes-map _ (Encodes-fri_proof x.opening_proof h.opening_proof)))))

  -- A proof whose vectors have the lengths that the common data gives, whose caps have the height of
  -- the configuration, and whose field elements are canonical.
  pub record IsProofWithPublicInputs (x : ProofWithPublicInputs H) : Type 0 where
    pub proof : IsProof x.proof
    pub public_inputs : IsVec IsField x.public_inputs

  Encodes-proof_with_public_inputs :
      (x : ProofWithPublicInputs H)
      → IsProofWithPublicInputs x
      → Encodes (read_proof_with_public_inputs hb d c) x (write_proof_with_public_inputs hb x)
  unfolding read_proof_with_public_inputs write_proof_with_public_inputs
  Encodes-proof_with_public_inputs x h =
      Encodes-bind _ (Encodes-proof x.proof h.proof)
        (Encodes-map _ (Encodes-field_row x.public_inputs h.public_inputs))

  -- A proof that fits the common data is written without a panic, and what is written, with any bytes
  -- after it, is read back as the same proof, those bytes being left over.
  pub read-write_proof :
      (x : ProofWithPublicInputs H) (rest : List ℕ)
      → IsProofWithPublicInputs x
      → (bytes : List ℕ) × (write_proof_with_public_inputs hb x ≡ some bytes)
        × (read_proof_with_public_inputs hb d c (bytes ++ rest) ≡ ok (x, rest))
  read-write_proof x rest h = round_trip (Encodes-proof_with_public_inputs x h) rest

  -- From a proper prefix of the bytes of a proof that fits the common data, the reader returns an
  -- input error: it neither panics nor accepts.
  pub read-truncated_proof :
      (x : ProofWithPublicInputs H) (front back : List ℕ) (byte : ℕ)
      → IsProofWithPublicInputs x
      → write_proof_with_public_inputs hb x ≡ some (front ++ (byte ∷ back))
      → read_proof_with_public_inputs hb d c front ≡ io_error
  read-truncated_proof x front back byte h w =
      proper_prefix (Encodes-proof_with_public_inputs x h) front back byte w
