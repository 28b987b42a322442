-- ===== src/Serialization/Proofs/RoundTrip.antt =====
-- plonky2/src/util/serialization/mod.rs: proofs are read as they were written, where their vectors
-- have the lengths that the common data gives.
use plonky.Common.{
  ℕ, ◌-◌, ◌*◌, ◌^◌, ◌<◌, ◌≡◌, subst, arith, Bool, false, List, [], ◌∷◌, if◌then◌else◌,
}
use plonky.Plonk.CircuitData.{CommonCircuitData, num_all_lookup_polys}
use plonky.Plonk.Proof.{FriInitialTreeProof, FriQueryStep, OpeningSet}
use plonky.Serialization.{write_each}
use plonky.Serialization.Encodes.{Encodes, Encodes-bind, Encodes-map, Encodes-ret}
use plonky.Serialization.Words.{Encodes-field, Encodes-each, Encodes-field_vec, IsField, IsArray}
use plonky.Serialization.Hashes.{HashBytes}
use plonky.Serialization.Hashes.RoundTrip.{
  Encodes-lift, one_shl-eq, IsMerkleProof, Encodes-merkle_proof,
}
use plonky.Serialization.Proofs.{
  read_field_ext, write_field_ext, read_field_ext_vec, write_field_ext_vec, read_opening_set,
  write_opening_set, read_evals_proof, write_evals_proof, leaf_lengths, read_evals_proofs,
  read_fri_initial_proof, write_fri_initial_proof, read_fri_query_step, write_fri_query_step,
  read_fri_query_steps,
}

module _ (d : ℕ) where
  abbrev pub IsExt : List ℕ → Type 0
  IsExt x = IsArray d IsField x

  Encodes-field_ext : (x : List ℕ) → IsExt x → Encodes (read_field_ext d) x (write_field_ext x)
  unfolding read_field_ext write_field_ext
  Encodes-field_ext x h = Encodes-each IsField (λ y hy. Encodes-field hy) h

  pub Encodes-field_ext_vec :
      (n : ℕ) (v : List (List ℕ))
      → IsArray n IsExt v
      → Encodes (read_field_ext_vec d n) v (write_field_ext_vec v)
  unfolding read_field_ext_vec write_field_ext_vec
  Encodes-field_ext_vec n v h = Encodes-each IsExt Encodes-field_ext h

  pub record IsOpeningSet {G : Type 0} (c : CommonCircuitData G) (os : OpeningSet) : Type 0 where
    pub constants : IsArray c.num_constants IsExt os.constants
    pub plonk_sigmas : IsArray c.config.num_routed_wires IsExt os.plonk_sigmas
    pub wires : IsArray c.config.num_wires IsExt os.wires
    pub plonk_zs : IsArray c.config.num_challenges IsExt os.plonk_zs
    pub plonk_zs_next : IsArray c.config.num_challenges IsExt os.plonk_zs_next
    pub lookup_zs : IsArray (num_all_lookup_polys c) IsExt os.lookup_zs
    pub lookup_zs_next : IsArray (num_all_lookup_polys c) IsExt os.lookup_zs_next
    pub partial_products :
        IsArray (c.num_partial_products * c.config.num_challenges) IsExt os.partial_products
    pub quotient_polys :
        IsArray (c.quotient_degree_factor * c.config.num_challenges) IsExt os.quotient_polys

  pub Encodes-opening_set :
      {G : Type 0} (c : CommonCircuitData G) (os : OpeningSet)
      → IsOpeningSet c os
      → Encodes (read_opening_set d c) os (write_opening_set os)
  unfolding read_opening_set write_opening_set
  Encodes-opening_set c os h = Encodes-bind _ (Encodes-field_ext_vec _ os.constants h.constants) (
      Encodes-bind _ (Encodes-field_ext_vec _ os.plonk_sigmas h.plonk_sigmas) (
        Encodes-bind _ (Encodes-field_ext_vec _ os.wires h.wires) (
          Encodes-bind _ (Encodes-field_ext_vec _ os.plonk_zs h.plonk_zs) (
            Encodes-bind _ (Encodes-field_ext_vec _ os.plonk_zs_next h.plonk_zs_next) (
              Encodes-bind _ (Encodes-field_ext_vec _ os.lookup_zs h.lookup_zs) (
                Encodes-bind _ (Encodes-field_ext_vec _ os.lookup_zs_next h.lookup_zs_next) (
                  Encodes-bind _ (Encodes-field_ext_vec _ os.partial_products h.partial_products) (
                    Encodes-map _
                      (Encodes-field_ext_vec _ os.quotient_polys h.quotient_polys)))))))))

module _ {H : Type 0} (hb : HashBytes H) (d : ℕ) where
  -- A leaf of `n` elements with its Merkle proof, and one for each of some lengths.
  abbrev pub IsEvalsProof : ℕ → List ℕ × List H → Type 0
  IsEvalsProof n (v, p) = IsArray n IsField v × IsMerkleProof hb p

  abbrev pub IsEvalsProofs : List ℕ → List (List ℕ × List H) → Type 0
  IsEvalsProofs [] [] = Unit
  IsEvalsProofs [] (x ∷ xs) = ⊥
  IsEvalsProofs (n ∷ ns) [] = ⊥
  IsEvalsProofs (n ∷ ns) (x ∷ xs) = IsEvalsProof n x × IsEvalsProofs ns xs

  Encodes-evals_proof :
      (n : ℕ) (x : List ℕ × List H)
      → IsEvalsProof n x
      → Encodes (read_evals_proof hb n) x (write_evals_proof hb x)
  unfolding read_evals_proof write_evals_proof
  Encodes-evals_proof n (v, p) (hv, hp) =
      Encodes-bind _ (Encodes-field_vec n v hv) (Encodes-map _ (Encodes-merkle_proof hb p hp))

  Encodes-evals_proofs :
      (ns : List ℕ) (xs : List (List ℕ × List H))
      → IsEvalsProofs ns xs
      → Encodes (read_evals_proofs hb d ns) xs (write_each (write_evals_proof hb) xs)
  unfolding read_evals_proofs write_each
  Encodes-evals_proofs [] [] h = Encodes-ret
  Encodes-evals_proofs [] (x ∷ xs) h = absurd h
  Encodes-evals_proofs (n ∷ ns) [] h = absurd h
  Encodes-evals_proofs (n ∷ ns) (x ∷ xs) (hx, hxs) =
      Encodes-bind _ (Encodes-evals_proof n x hx) (Encodes-map _ (Encodes-evals_proofs ns xs hxs))

  pub Encodes-fri_initial_proof :
      {G : Type 0} (c : CommonCircuitData G) (xs : FriInitialTreeProof H)
      → IsEvalsProofs (leaf_lengths c) xs
      → Encodes (read_fri_initial_proof hb d c) xs (write_fri_initial_proof hb xs)
  unfolding read_fri_initial_proof write_fri_initial_proof
  Encodes-fri_initial_proof c xs h = Encodes-evals_proofs (leaf_lengths c) xs h

  pub record IsFriQueryStep (n : ℕ) (x : FriQueryStep H) : Type 0 where
    pub evals : IsArray n (IsExt d) x.evals
    pub merkle_proof : IsMerkleProof hb x.merkle_proof

  -- The steps of one query, for the arities of the reductions.
  abbrev pub IsFriQuerySteps : List ℕ → List (FriQueryStep H) → Type 0
  IsFriQuerySteps [] [] = Unit
  IsFriQuerySteps [] (x ∷ xs) = ⊥
  IsFriQuerySteps (ar ∷ ars) [] = ⊥
  IsFriQuerySteps (ar ∷ ars) (x ∷ xs) =
      (ar < 64) × IsFriQueryStep (2 ^ ar) x × IsFriQuerySteps ars xs

  pub Encodes-fri_query_step :
      (arity : ℕ) (compressed : Bool) (x : FriQueryStep H)
      → IsFriQueryStep (arity - (if compressed then 1 else 0)) x
      → Encodes (read_fri_query_step hb d arity compressed) x (write_fri_query_step hb x)
  unfolding read_fri_query_step write_fri_query_step
  Encodes-fri_query_step arity compressed x h =
      Encodes-bind _ (Encodes-field_ext_vec d _ x.evals h.evals)
        (Encodes-map _ (Encodes-merkle_proof hb x.merkle_proof h.merkle_proof))

  whole : (n : ℕ) → n ≡ n - (if false then 1 else 0)
  whole n = omega arith

  pub Encodes-fri_query_steps :
      (ars : List ℕ) (xs : List (FriQueryStep H))
      → IsFriQuerySteps ars xs
      → Encodes (read_fri_query_steps hb d ars) xs (write_each (write_fri_query_step hb) xs)
  unfolding read_fri_query_steps write_each
  Encodes-fri_query_steps [] [] h = Encodes-ret
  Encodes-fri_query_steps [] (x ∷ xs) h = absurd h
  Encodes-fri_query_steps (ar ∷ ars) [] h = absurd h
  Encodes-fri_query_steps (ar ∷ ars) (x ∷ xs) (small, hx, hxs) =
      Encodes-lift _ (one_shl-eq ar small) (
        Encodes-bind _
          (Encodes-fri_query_step (2 ^ ar) false x
            (subst (λ n. IsFriQueryStep n x) (whole (2 ^ ar)) hx))
          (Encodes-map _ (Encodes-fri_query_steps ars xs hxs)))
