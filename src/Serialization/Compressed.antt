-- ===== src/Serialization/Compressed.antt =====
-- plonky2/src/util/serialization/mod.rs: compressed proofs. A `HashMap` is the list of its entries in
-- ascending order of their keys, in which it is written.
pub mod Sorting
pub mod Keys
pub mod RoundTrip
pub mod Whole
use plonky.Common.{
  ℕ, ◌/◌, ◌^◌, Bool, true, false, Option, some, List, [], ◌∷◌, map, length, leb, ◌==◌,
  if◌then◌else◌,
}
use plonky.Fri.Params.{FriConfig, FriParams, one_shl, final_poly_len}
use plonky.Plonk.CircuitData.{CircuitConfig, CommonCircuitData}
use plonky.Plonk.Proof.{FriInitialTreeProof, FriQueryStep, OpeningSet}
use plonky.Serialization.{
  Reader, ok, ◌>>=◌, ret, ◌⊕◌, read_u32, write_u32, read_n, write_each, read_field, write_field,
  read_field_vec, write_field_vec,
}
use plonky.Serialization.Circuits.{insert}
use plonky.Serialization.Hashes.{HashBytes, lift, read_merkle_cap, write_merkle_cap}
use plonky.Serialization.Proofs.{
  read_field_ext_vec, write_field_ext_vec, read_opening_set, write_opening_set,
  read_fri_initial_proof, write_fri_initial_proof, read_fri_query_step, write_fri_query_step,
}

pub record CompressedFriQueryRounds (H : Type 0) : Type 0 where
  pub indices : List ℕ
  pub initial_trees_proofs : List (ℕ × FriInitialTreeProof H)
  pub steps : List (List (ℕ × FriQueryStep H))

pub record CompressedFriProof (H : Type 0) : Type 0 where
  pub commit_phase_merkle_caps : List (List H)
  pub query_round_proofs : CompressedFriQueryRounds H
  pub final_poly : List (List ℕ)
  pub pow_witness : ℕ

pub record CompressedProof (H : Type 0) : Type 0 where
  pub wires_cap : List H
  pub plonk_zs_partial_products_cap : List H
  pub quotient_polys_cap : List H
  pub openings : OpeningSet
  pub opening_proof : CompressedFriProof H

pub record CompressedProofWithPublicInputs (H : Type 0) : Type 0 where
  pub proof : CompressedProof H
  pub public_inputs : List ℕ

-- `sort_unstable`
unfoldable pub place : ℕ → List ℕ → List ℕ
place x [] = x ∷ []
place x (y ∷ ys) = let rest = place x ys in if leb x y then x ∷ y ∷ ys else y ∷ rest

unfoldable pub sort_unstable : List ℕ → List ℕ
sort_unstable [] = []
sort_unstable (x ∷ xs) = place x (sort_unstable xs)

-- `dedup`: of equal neighbours the first is kept.
unfoldable pub keep_new : ℕ → List ℕ → List ℕ
keep_new last [] = []
keep_new last (x ∷ xs) =
    let same = keep_new last xs in
    let other = keep_new x xs in if x == last then same else x ∷ other

unfoldable pub dedup : List ℕ → List ℕ
dedup [] = []
dedup (x ∷ xs) = x ∷ keep_new x xs

module _ {A : Type 0} where
  unfoldable pub from_iter : List (ℕ × A) → List (ℕ × A) → List (ℕ × A)
  from_iter entries [] = entries
  from_iter entries ((k, v) ∷ pairs) = from_iter (insert k v entries) pairs

  -- One value for each index, in pairs with the indices.
  unfoldable pub read_pairs : Reader A → List ℕ → Reader (List (ℕ × A))
  read_pairs read [] = ret []
  read_pairs read (i ∷ indices) = do x ← read; pairs ← read_pairs read indices; ret ((i, x) ∷ pairs)

  unfoldable pub read_map : Reader A → List ℕ → Reader (List (ℕ × A))
  read_map read indices = do pairs ← read_pairs read indices; ret (from_iter [] pairs)

  unfoldable pub write_map : (A → Option (List ℕ)) → List (ℕ × A) → Option (List ℕ)
  write_map write entries = write_each (λ e. write (e.1)) entries

-- `self.remaining()`
unfoldable pub remaining_bytes : Reader ℕ
remaining_bytes bytes = ok (length bytes, bytes)

-- `*x >>= a` and `dedup`
unfoldable pub next_indices : ℕ → List ℕ → List ℕ
next_indices a indices = dedup (map (λ x. x / 2 ^ a) indices)

module _ {H : Type 0} (hb : HashBytes H) where
  unfoldable pub write_compressed_fri_query_rounds : CompressedFriQueryRounds H → Option (List ℕ)
  write_compressed_fri_query_rounds c =
      write_each write_u32 c.indices
      ⊕ write_map (write_fri_initial_proof hb) c.initial_trees_proofs
      ⊕ write_each (write_map (write_fri_query_step hb)) c.steps

  unfoldable pub write_compressed_fri_proof : CompressedFriProof H → Option (List ℕ)
  write_compressed_fri_proof fp =
      write_each (write_merkle_cap hb) fp.commit_phase_merkle_caps
      ⊕ write_compressed_fri_query_rounds fp.query_round_proofs
      ⊕ write_field_ext_vec fp.final_poly
      ⊕ write_field fp.pow_witness

  unfoldable pub write_compressed_proof : CompressedProof H → Option (List ℕ)
  write_compressed_proof p =
      write_merkle_cap hb p.wires_cap
      ⊕ write_merkle_cap hb p.plonk_zs_partial_products_cap
      ⊕ write_merkle_cap hb p.quotient_polys_cap
      ⊕ write_opening_set p.openings
      ⊕ write_compressed_fri_proof p.opening_proof

  -- The number of public inputs is not written.
  unfoldable pub write_compressed_proof_with_public_inputs :
      CompressedProofWithPublicInputs H → Option (List ℕ)
  write_compressed_proof_with_public_inputs p =
      write_compressed_proof p.proof ⊕ write_field_vec p.public_inputs

  module _ (d : ℕ) where
    unfoldable pub read_step_maps : List ℕ → List ℕ → Reader (List (List (ℕ × FriQueryStep H)))
    read_step_maps [] indices = ret []
    read_step_maps (a ∷ arities) indices = do
      arity ← lift (one_shl a)
      step ← read_map (read_fri_query_step hb d arity true) (next_indices a indices)
      steps ← read_step_maps arities (next_indices a indices)
      ret (step ∷ steps)

    unfoldable pub read_compressed_fri_query_rounds :
        {G : Type 0} → CommonCircuitData G → Reader (CompressedFriQueryRounds H)
    read_compressed_fri_query_rounds c = do
      original_indices ← read_n c.config.fri_config.num_query_rounds read_u32
      initial_trees_proofs ←
          read_map (read_fri_initial_proof hb d c) (dedup (sort_unstable original_indices))
      steps ←
          read_step_maps c.fri_params.reduction_arity_bits (dedup (sort_unstable original_indices))
      ret (record {
        indices = original_indices;
        initial_trees_proofs = initial_trees_proofs;
        steps = steps;
      })

    unfoldable pub read_compressed_fri_proof :
        {G : Type 0} → CommonCircuitData G → Reader (CompressedFriProof H)
    read_compressed_fri_proof c = do
      commit_phase_merkle_caps ←
          read_n (length c.fri_params.reduction_arity_bits)
            (read_merkle_cap hb c.config.fri_config.cap_height)
      query_round_proofs ← read_compressed_fri_query_rounds c
      len ← lift (final_poly_len c.fri_params)
      final_poly ← read_field_ext_vec d len
      pow_witness ← read_field
      ret (record {
        commit_phase_merkle_caps = commit_phase_merkle_caps;
        query_round_proofs = query_round_proofs;
        final_poly = final_poly;
        pow_witness = pow_witness;
      })

    unfoldable pub read_compressed_proof :
        {G : Type 0} → CommonCircuitData G → Reader (CompressedProof H)
    read_compressed_proof c = do
      wires_cap ← read_merkle_cap hb c.config.fri_config.cap_height
      plonk_zs_partial_products_cap ← read_merkle_cap hb c.config.fri_config.cap_height
      quotient_polys_cap ← read_merkle_cap hb c.config.fri_config.cap_height
      openings ← read_opening_set d c
      opening_proof ← read_compressed_fri_proof c
      ret (record {
        wires_cap = wires_cap;
        plonk_zs_partial_products_cap = plonk_zs_partial_products_cap;
        quotient_polys_cap = quotient_polys_cap;
        openings = openings;
        opening_proof = opening_proof;
      })

    unfoldable pub read_compressed_proof_with_public_inputs :
        {G : Type 0} → CommonCircuitData G → Reader (CompressedProofWithPublicInputs H)
    read_compressed_proof_with_public_inputs c = do
      proof ← read_compressed_proof c
      n ← remaining_bytes
      public_inputs ← read_field_vec (n / 8)
      ret (record { proof = proof; public_inputs = public_inputs })
