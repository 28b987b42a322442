-- ===== src/Serialization/Proofs.antt =====
-- plonky2/src/util/serialization/mod.rs: proofs. The lengths of their vectors come from the common
-- data; `d` is the degree `D` of the extension field. The type of gates plays no part.
pub mod RoundTrip
pub mod Whole
use plonky.Common.{
  ℕ, ◌+◌, ◌-◌, ◌*◌, Bool, true, false, Option, some, List, [], ◌∷◌, length, if◌then◌else◌,
}
use plonky.Fri.Params.{FriConfig, FriParams, one_shl, final_poly_len}
use plonky.Plonk.CircuitData.{CircuitConfig, CommonCircuitData, num_all_lookup_polys, salt_size}
use plonky.Plonk.Proof.{
  FriInitialTreeProof, FriQueryStep, FriQueryRound, FriProof, OpeningSet, Proof,
  ProofWithPublicInputs,
}
use plonky.Serialization.{
  Reader, ◌>>=◌, ret, ◌⊕◌, read_usize, write_usize, read_n, write_each, read_field, write_field,
  read_field_vec, write_field_vec,
}
use plonky.Serialization.Hashes.{
  HashBytes, lift, read_merkle_cap, write_merkle_cap, read_merkle_proof, write_merkle_proof,
  read_field_row, write_field_row,
}

-- `to_basefield_array` and `from_basefield_array` are the list of the coordinates.
unfoldable pub read_field_ext : ℕ → Reader (List ℕ)
read_field_ext d = read_n d read_field

unfoldable pub write_field_ext : List ℕ → Option (List ℕ)
write_field_ext x = write_each write_field x

unfoldable pub read_field_ext_vec : ℕ → ℕ → Reader (List (List ℕ))
read_field_ext_vec d length = read_n length (read_field_ext d)

unfoldable pub write_field_ext_vec : List (List ℕ) → Option (List ℕ)
write_field_ext_vec v = write_each write_field_ext v

unfoldable pub write_opening_set : OpeningSet → Option (List ℕ)
write_opening_set os =
    write_field_ext_vec os.constants
    ⊕ write_field_ext_vec os.plonk_sigmas
    ⊕ write_field_ext_vec os.wires
    ⊕ write_field_ext_vec os.plonk_zs
    ⊕ write_field_ext_vec os.plonk_zs_next
    ⊕ write_field_ext_vec os.lookup_zs
    ⊕ write_field_ext_vec os.lookup_zs_next
    ⊕ write_field_ext_vec os.partial_products
    ⊕ write_field_ext_vec os.quotient_polys

module _ {G : Type 0} (d : ℕ) where
  unfoldable pub read_opening_set : CommonCircuitData G → Reader OpeningSet
  read_opening_set c = do
    constants ← read_field_ext_vec d c.num_constants
    plonk_sigmas ← read_field_ext_vec d c.config.num_routed_wires
    wires ← read_field_ext_vec d c.config.num_wires
    plonk_zs ← read_field_ext_vec d c.config.num_challenges
    plonk_zs_next ← read_field_ext_vec d c.config.num_challenges
    lookup_zs ← read_field_ext_vec d (num_all_lookup_polys c)
    lookup_zs_next ← read_field_ext_vec d (num_all_lookup_polys c)
    partial_products ← read_field_ext_vec d (c.num_partial_products * c.config.num_challenges)
    quotient_polys ← read_field_ext_vec d (c.quotient_degree_factor * c.config.num_challenges)
    ret (record {
      constants = constants;
      plonk_sigmas = plonk_sigmas;
      wires = wires;
      plonk_zs = plonk_zs;
      plonk_zs_next = plonk_zs_next;
      lookup_zs = lookup_zs;
      lookup_zs_next = lookup_zs_next;
      partial_products = partial_products;
      quotient_polys = quotient_polys;
    })

module _ {H : Type 0} (hb : HashBytes H) where
  unfoldable pub read_evals_proof : ℕ → Reader (List ℕ × List H)
  read_evals_proof n = do v ← read_field_vec n; p ← read_merkle_proof hb; ret (v, p)

  unfoldable pub write_evals_proof : List ℕ × List H → Option (List ℕ)
  write_evals_proof (v, p) = write_field_vec v ⊕ write_merkle_proof hb p

  unfoldable pub write_fri_initial_proof : FriInitialTreeProof H → Option (List ℕ)
  write_fri_initial_proof fitp = write_each write_evals_proof fitp

  unfoldable pub write_fri_query_step : FriQueryStep H → Option (List ℕ)
  write_fri_query_step fqs = write_field_ext_vec fqs.evals ⊕ write_merkle_proof hb fqs.merkle_proof

  unfoldable pub write_fri_query_round : FriQueryRound H → Option (List ℕ)
  write_fri_query_round fqr =
      write_fri_initial_proof fqr.initial_trees_proof ⊕ write_each write_fri_query_step fqr.steps

  unfoldable pub write_fri_query_rounds : List (FriQueryRound H) → Option (List ℕ)
  write_fri_query_rounds fqrs = write_each write_fri_query_round fqrs

  unfoldable pub write_fri_proof : FriProof H → Option (List ℕ)
  write_fri_proof fp =
      write_each (write_merkle_cap hb) fp.commit_phase_merkle_caps
      ⊕ write_fri_query_rounds fp.query_round_proofs
      ⊕ write_field_ext_vec fp.final_poly
      ⊕ write_field fp.pow_witness

  unfoldable pub write_proof : Proof H → Option (List ℕ)
  write_proof p =
      write_merkle_cap hb p.wires_cap
      ⊕ write_merkle_cap hb p.plonk_zs_partial_products_cap
      ⊕ write_merkle_cap hb p.quotient_polys_cap
      ⊕ write_opening_set p.openings
      ⊕ write_fri_proof p.opening_proof

  unfoldable pub write_proof_with_public_inputs : ProofWithPublicInputs H → Option (List ℕ)
  write_proof_with_public_inputs p = write_proof p.proof ⊕ write_field_row p.public_inputs

-- The lengths of the four leaves that a query opens, one for each oracle.
unfoldable pub leaf_lengths : {G : Type 0} → CommonCircuitData G → List ℕ
leaf_lengths c =
    let salt = salt_size c.fri_params.hiding in
    let num_zs = 1 + c.num_partial_products + c.num_lookup_polys in
    (c.num_constants + c.config.num_routed_wires)
    ∷ (c.config.num_wires + salt)
    ∷ (c.config.num_challenges * num_zs + salt)
    ∷ (c.config.num_challenges * c.quotient_degree_factor + salt)
    ∷ []

module _ {H : Type 0} (hb : HashBytes H) (d : ℕ) where
  unfoldable pub read_evals_proofs : List ℕ → Reader (List (List ℕ × List H))
  read_evals_proofs [] = ret []
  read_evals_proofs (n ∷ ns) = do
    evals_proof ← read_evals_proof hb n
    evals_proofs ← read_evals_proofs ns
    ret (evals_proof ∷ evals_proofs)

  unfoldable pub read_fri_initial_proof :
      {G : Type 0} → CommonCircuitData G → Reader (FriInitialTreeProof H)
  read_fri_initial_proof c = read_evals_proofs (leaf_lengths c)

  -- `usize::from(compressed)` is taken off a positive arity.
  unfoldable pub read_fri_query_step : ℕ → Bool → Reader (FriQueryStep H)
  read_fri_query_step arity compressed = do
    evals ← read_field_ext_vec d (arity - (if compressed then 1 else 0))
    merkle_proof ← read_merkle_proof hb
    ret (record { evals = evals; merkle_proof = merkle_proof })

  unfoldable pub read_fri_query_steps : List ℕ → Reader (List (FriQueryStep H))
  read_fri_query_steps [] = ret []
  read_fri_query_steps (ar ∷ ars) = do
    arity ← lift (one_shl ar)
    step ← read_fri_query_step arity false
    steps ← read_fri_query_steps ars
    ret (step ∷ steps)

  unfoldable pub read_fri_query_round :
      {G : Type 0} → CommonCircuitData G → Reader (FriQueryRound H)
  read_fri_query_round c = do
    initial_trees_proof ← read_fri_initial_proof c
    steps ← read_fri_query_steps c.fri_params.reduction_arity_bits
    ret (record { initial_trees_proof = initial_trees_proof; steps = steps })

  unfoldable pub read_fri_query_rounds :
      {G : Type 0} → CommonCircuitData G → Reader (List (FriQueryRound H))
  read_fri_query_rounds c = read_n c.config.fri_config.num_query_rounds (read_fri_query_round c)

  unfoldable pub read_fri_proof : {G : Type 0} → CommonCircuitData G → Reader (FriProof H)
  read_fri_proof c = do
    commit_phase_merkle_caps ←
        read_n (length c.fri_params.reduction_arity_bits)
          (read_merkle_cap hb c.config.fri_config.cap_height)
    query_round_proofs ← read_fri_query_rounds c
    len ← lift (final_poly_len c.fri_params)
    final_poly ← read_field_ext_vec d len
    pow_witness ← read_field
    ret (record {
      commit_phase_merkle_caps = commit_phase_merkle_caps;
      query_round_proofs = query_round_proofs;
      final_poly = final_poly;
      pow_witness = pow_witness;
    })

  unfoldable pub read_proof : {G : Type 0} → CommonCircuitData G → Reader (Proof H)
  read_proof c = do
    wires_cap ← read_merkle_cap hb c.config.fri_config.cap_height
    plonk_zs_partial_products_cap ← read_merkle_cap hb c.config.fri_config.cap_height
    quotient_polys_cap ← read_merkle_cap hb c.config.fri_config.cap_height
    openings ← read_opening_set d c
    opening_proof ← read_fri_proof c
    ret (record {
      wires_cap = wires_cap;
      plonk_zs_partial_products_cap = plonk_zs_partial_products_cap;
      quotient_polys_cap = quotient_polys_cap;
      openings = openings;
      opening_proof = opening_proof;
    })

  unfoldable pub read_proof_with_public_inputs :
      {G : Type 0} → CommonCircuitData G → Reader (ProofWithPublicInputs H)
  read_proof_with_public_inputs c = do
    proof ← read_proof c
    public_inputs ← read_field_row
    ret (record { proof = proof; public_inputs = public_inputs })
