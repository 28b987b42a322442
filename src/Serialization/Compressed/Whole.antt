-- ===== src/Serialization/Compressed/Whole.antt =====
-- plonky2/src/util/serialization/mod.rs: whole compressed proofs are read as they were written.
use plonky.Common.{
  ℕ, ◌+◌, ◌-◌, ◌*◌, ◌/◌, ◌^◌, ◌<◌, ◌≡◌, refl, sym, ap, subst, arith, true, Option, some, none, List,
  [], ◌∷◌, ◌++◌, map, length, All, append_nil, length-append,
}
use plonky.Common.Options.{eq_of_some}
use plonky.Field.Goldilocks.{to_canonical_u64}
use plonky.Fri.Params.{final_poly_len}
use plonky.Plonk.CircuitData.{CommonCircuitData}
use plonky.Plonk.Proof.{FriQueryStep}
use plonky.Serialization.{
  ok, ret, ◌⊕◌, ◌>>=◌, write_each, write_field, write_field_vec, read_field_vec, to_le_bytes,
}
use plonky.Serialization.Compressed.{
  CompressedFriQueryRounds, CompressedFriProof, CompressedProof, CompressedProofWithPublicInputs,
  sort_unstable, dedup, next_indices, remaining_bytes, read_step_maps, write_map,
  read_compressed_fri_query_rounds, write_compressed_fri_query_rounds, read_compressed_fri_proof,
  write_compressed_fri_proof, read_compressed_proof, write_compressed_proof,
  read_compressed_proof_with_public_inputs, write_compressed_proof_with_public_inputs,
}
use plonky.Serialization.Compressed.Keys.{
  IsKeys, first-IsKeys, next-IsKeys, IsKeys-unique, Ascending-entries,
}
use plonky.Serialization.Compressed.RoundTrip.{Encodes-entries}
use plonky.Serialization.Encodes.{Encodes, Encodes-bind, Encodes-map, Encodes-ret}
use plonky.Serialization.Hashes.{HashBytes}
use plonky.Serialization.Hashes.RoundTrip.{Encodes-lift, one_shl-eq, IsCap, Encodes-merkle_cap}
use plonky.Serialization.Proofs.{leaf_lengths, write_fri_query_step}
use plonky.Serialization.Proofs.RoundTrip.{
  IsExt, Encodes-field_ext_vec, IsOpeningSet, Encodes-opening_set, IsEvalsProofs,
  Encodes-fri_initial_proof, IsFriQueryStep, Encodes-fri_query_step,
}
use plonky.Serialization.Words.{
  Encodes-u32, Encodes-field, Encodes-field_vec, Encodes-each, length-to_le_bytes, IsField, IsArray,
}

length-write_field_vec :
    (v bytes : List ℕ) → write_field_vec v ≡ some bytes → length bytes ≡ 8 * length v
unfolding write_field_vec write_each write_field ◌⊕◌
length-write_field_vec [] bytes e = ap length (sym (eq_of_some e))
length-write_field_vec (x ∷ v) bytes e =
    later (write_each write_field v) (length-write_field_vec v) refl e
  where
    later :
        (o : Option (List ℕ))
        → ((bs : List ℕ) → write_field_vec v ≡ some bs → length bs ≡ 8 * length v)
        → write_each write_field v ≡ o
        → some (to_le_bytes 8 (to_canonical_u64 x)) ⊕ o ≡ some bytes
        → length bytes ≡ 8 * length (x ∷ v)
    later none ih h e = absurd cc
    later (some bs) ih h e = omega (
      arith,
      ap length (eq_of_some e),
      ih bs h,
      length-append (to_le_bytes 8 (to_canonical_u64 x)) bs,
      length-to_le_bytes 8 (to_canonical_u64 x),
    )

module _ {H : Type 0} (hb : HashBytes H) (d : ℕ) where
  -- A map whose keys are the indices without their `shift` low bits.
  abbrev pub IsMap : {A : Type 0} → ℕ → List ℕ → (A → Type 0) → List (ℕ × A) → Type 0
  IsMap shift indices P entries =
      IsKeys shift indices (map (λ e. e.0) entries) × All (λ e. P (e.1)) entries

  -- One map for each arity, each after one more shift.
  abbrev pub IsStepMaps : List ℕ → ℕ → List ℕ → List (List (ℕ × FriQueryStep H)) → Type 0
  IsStepMaps [] shift indices [] = Unit
  IsStepMaps [] shift indices (x ∷ xs) = ⊥
  IsStepMaps (a ∷ as') shift indices [] = ⊥
  IsStepMaps (a ∷ as') shift indices (x ∷ xs) =
      (a < 64)
      × IsMap (shift + a) indices (IsFriQueryStep hb d (2 ^ a - 1)) x
      × IsStepMaps as' (shift + a) indices xs

  Encodes-step_maps :
      (arities : List ℕ) (shift : ℕ) (indices keys : List ℕ) (xs : List (List (ℕ × FriQueryStep H)))
      → IsKeys shift indices keys
      → IsStepMaps arities shift indices xs
      → Encodes
          (read_step_maps hb d arities keys)
          xs
          (write_each (write_map (write_fri_query_step hb)) xs)
  unfolding read_step_maps write_each
  Encodes-step_maps [] shift indices keys [] hk h = Encodes-ret
  Encodes-step_maps [] shift indices keys (x ∷ xs) hk h = absurd h
  Encodes-step_maps (a ∷ as') shift indices keys [] hk h = absurd h
  Encodes-step_maps (a ∷ as') shift indices keys (x ∷ xs) hk (small, (hx, steps), later) =
      let next = next-IsKeys a shift indices keys hk in
      let same =
        IsKeys-unique (shift + a) indices (map (λ e. e.0) x) (next_indices a keys) hx next in
      Encodes-lift _ (one_shl-eq a small) (
        Encodes-bind _
          (Encodes-entries (IsFriQueryStep hb d (2 ^ a - 1))
            (Encodes-fri_query_step hb d (2 ^ a) true) (next_indices a keys) x same
            (Ascending-entries x hx.ascending) steps)
          (Encodes-map _
            (Encodes-step_maps as' (shift + a) indices (next_indices a keys) xs next later)))

  module _ {G : Type 0} (c : CommonCircuitData G) where
    pub record IsCompressedFriQueryRounds (x : CompressedFriQueryRounds H) : Type 0 where
      pub indices : IsArray c.config.fri_config.num_query_rounds (λ i. i < 2 ^ 32) x.indices
      pub initial_trees_proofs :
          IsMap 0 x.indices (IsEvalsProofs hb d (leaf_lengths c)) x.initial_trees_proofs
      pub steps : IsStepMaps c.fri_params.reduction_arity_bits 0 x.indices x.steps

    Encodes-compressed_fri_query_rounds :
        (x : CompressedFriQueryRounds H)
        → IsCompressedFriQueryRounds x
        → Encodes
            (read_compressed_fri_query_rounds hb d c)
            x
            (write_compressed_fri_query_rounds hb x)
    unfolding read_compressed_fri_query_rounds write_compressed_fri_query_rounds
    Encodes-compressed_fri_query_rounds x h =
        let (hx, proofs) = h.initial_trees_proofs in
        let keys = dedup (sort_unstable x.indices) in
        let first = first-IsKeys x.indices in
        let same =
          IsKeys-unique 0 x.indices (map (λ e. e.0) x.initial_trees_proofs) keys hx first in
        Encodes-bind _ (Encodes-each (λ i. i < 2 ^ 32) (λ i hi. Encodes-u32 hi) h.indices) (
          Encodes-bind _
            (Encodes-entries (IsEvalsProofs hb d (leaf_lengths c))
              (Encodes-fri_initial_proof hb d c) keys x.initial_trees_proofs same
              (Ascending-entries x.initial_trees_proofs hx.ascending) proofs)
            (Encodes-map _ (
              Encodes-step_maps c.fri_params.reduction_arity_bits 0 x.indices keys x.steps first
                h.steps)))

    pub record IsCompressedFriProof (x : CompressedFriProof H) : Type 0 where
      pub commit_phase_merkle_caps :
          IsArray
            (length c.fri_params.reduction_arity_bits)
            (IsCap hb c.config.fri_config.cap_height)
            x.commit_phase_merkle_caps
      pub query_round_proofs : IsCompressedFriQueryRounds x.query_round_proofs
      pub final_poly_length : (n : ℕ) × (final_poly_len c.fri_params ≡ some n)
      pub final_poly : IsArray (final_poly_length.0) (IsExt d) x.final_poly
      pub pow_witness : IsField x.pow_witness

    Encodes-compressed_fri_proof :
        (x : CompressedFriProof H)
        → IsCompressedFriProof x
        → Encodes (read_compressed_fri_proof hb d c) x (write_compressed_fri_proof hb x)
    unfolding read_compressed_fri_proof write_compressed_fri_proof
    Encodes-compressed_fri_proof x h =
        Encodes-bind _
          (Encodes-each (IsCap hb c.config.fri_config.cap_height) (Encodes-merkle_cap hb)
            h.commit_phase_merkle_caps)
          (Encodes-bind _
            (Encodes-compressed_fri_query_rounds x.query_round_proofs h.query_round_proofs)
            (Encodes-lift _ (h.final_poly_length.1) (
              Encodes-bind _ (Encodes-field_ext_vec d _ x.final_poly h.final_poly)
                (Encodes-map _ (Encodes-field h.pow_witness)))))

    pub record IsCompressedProof (x : CompressedProof H) : Type 0 where
      pub wires_cap : IsCap hb c.config.fri_config.cap_height x.wires_cap
      pub plonk_zs_partial_products_cap :
          IsCap hb c.config.fri_config.cap_height x.plonk_zs_partial_products_cap
      pub quotient_polys_cap : IsCap hb c.config.fri_config.cap_height x.quotient_polys_cap
      pub openings : IsOpeningSet d c x.openings
      pub opening_proof : IsCompressedFriProof x.opening_proof

    Encodes-compressed_proof :
        (x : CompressedProof H)
        → IsCompressedProof x
        → Encodes (read_compressed_proof hb d c) x (write_compressed_proof hb x)
    unfolding read_compressed_proof write_compressed_proof
    Encodes-compressed_proof x h = Encodes-bind _ (Encodes-merkle_cap hb x.wires_cap h.wires_cap) (
        Encodes-bind _
          (Encodes-merkle_cap hb x.plonk_zs_partial_products_cap h.plonk_zs_partial_products_cap)
          (Encodes-bind _ (Encodes-merkle_cap hb x.quotient_polys_cap h.quotient_polys_cap) (
            Encodes-bind _ (Encodes-opening_set d c x.openings h.openings)
              (Encodes-map _ (Encodes-compressed_fri_proof x.opening_proof h.opening_proof)))))

    -- A compressed proof that fits the common data, whose maps hold one entry for each of the query
    -- indices without the bits that the steps before have shifted out, with canonical public inputs, is written without a
    -- panic, and it is read back from what is written when nothing follows.
    pub read-write_compressed_proof :
        (x : CompressedProofWithPublicInputs H)
        → IsCompressedProof x.proof
        → All IsField x.public_inputs
        → (bytes : List ℕ) × (write_compressed_proof_with_public_inputs hb x ≡ some bytes)
          × (read_compressed_proof_with_public_inputs hb d c bytes ≡ ok (x, []))
    unfolding write_compressed_proof_with_public_inputs read_compressed_proof_with_public_inputs
        remaining_bytes ret ◌>>=◌ ◌⊕◌
    read-write_compressed_proof x hp hi =
        let first = Encodes-compressed_proof x.proof hp in
        let n = length x.public_inputs in
        let second = Encodes-field_vec n x.public_inputs (refl, hi) in
        let size : length second.bytes / 8 ≡ n =
          omega (arith, length-write_field_vec x.public_inputs second.bytes second.writes) in
        let back =
          subst (λ bs. read_field_vec n bs ≡ ok (x.public_inputs, [])) (append_nil second.bytes)
            (second.reads []) in
        (
          first.bytes ++ second.bytes,
          rw (first.writes, second.writes) refl,
          rw (first.reads second.bytes, size, back) refl,
        )
