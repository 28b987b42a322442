-- ===== src/Serialization/Targets/Proofs.antt =====
-- plonky2/src/util/serialization/mod.rs: the in-circuit versions of proofs and of the verifier's data
-- are read as they were written. A predicate of a value says that its indices and lengths have the
-- sizes that the format has room for.
use plonky.Common.{ℕ, ◌≡◌, some, List, ◌++◌}
use plonky.Plonk.PermutationArgument.{Target}
use plonky.Serialization.{ok}
use plonky.Serialization.Encodes.{Encodes, Encodes-bind, Encodes-map, round_trip}
use plonky.Serialization.Words.{Encodes-vec, IsVec}
use plonky.Serialization.Targets.RoundTrip.{
  IsTarget, Encodes-target, IsTargetVec, Encodes-target_vec, IsHashTarget, Encodes-target_hash,
  IsCapTarget, Encodes-target_merkle_cap, IsMerkleProofTarget, Encodes-target_merkle_proof,
  IsExtTargetVec, Encodes-target_ext_vec,
}
use plonky.Serialization.Targets.{
  FriInitialTreeProofTarget, FriQueryStepTarget, FriQueryRoundTarget, FriProofTarget,
  OpeningSetTarget, ProofTarget, ProofWithPublicInputsTarget, VerifierCircuitTarget,
  read_target_eval_proof, write_target_eval_proof, read_target_fri_initial_proof,
  write_target_fri_initial_proof, read_target_fri_query_step, write_target_fri_query_step,
  read_target_fri_query_round, write_target_fri_query_round, read_target_fri_query_rounds,
  write_target_fri_query_rounds, read_target_fri_proof, write_target_fri_proof,
  read_target_opening_set, write_target_opening_set, read_target_proof, write_target_proof,
  read_target_proof_with_public_inputs, write_target_proof_with_public_inputs,
  read_target_verifier_circuit, write_target_verifier_circuit, read_target_pair, write_target_pair,
  read_target_lut, write_target_lut,
}

abbrev pub IsEvalProofTarget : List Target × List (List Target) → Type 0
IsEvalProofTarget (v, p) = IsTargetVec v × IsMerkleProofTarget p

Encodes-target_eval_proof :
    (x : List Target × List (List Target))
    → IsEvalProofTarget x
    → Encodes read_target_eval_proof x (write_target_eval_proof x)
unfolding read_target_eval_proof write_target_eval_proof
Encodes-target_eval_proof (v, p) (hv, hp) =
    Encodes-bind _ (Encodes-target_vec v hv) (Encodes-map _ (Encodes-target_merkle_proof p hp))

abbrev pub IsFriInitialTreeProofTarget : FriInitialTreeProofTarget → Type 0
IsFriInitialTreeProofTarget x = IsVec IsEvalProofTarget x

Encodes-target_fri_initial_proof :
    (x : FriInitialTreeProofTarget)
    → IsFriInitialTreeProofTarget x
    → Encodes read_target_fri_initial_proof x (write_target_fri_initial_proof x)
unfolding read_target_fri_initial_proof write_target_fri_initial_proof
Encodes-target_fri_initial_proof x h = Encodes-vec IsEvalProofTarget Encodes-target_eval_proof x h

module _ (d : ℕ) where
  pub record IsFriQueryStepTarget (x : FriQueryStepTarget) : Type 0 where
    pub evals : IsExtTargetVec d x.evals
    pub merkle_proof : IsMerkleProofTarget x.merkle_proof

  Encodes-target_fri_query_step :
      (x : FriQueryStepTarget)
      → IsFriQueryStepTarget x
      → Encodes (read_target_fri_query_step d) x (write_target_fri_query_step x)
  unfolding read_target_fri_query_step write_target_fri_query_step
  Encodes-target_fri_query_step x h =
      Encodes-bind _ (Encodes-target_ext_vec d x.evals h.evals)
        (Encodes-map _ (Encodes-target_merkle_proof x.merkle_proof h.merkle_proof))

  pub record IsFriQueryRoundTarget (x : FriQueryRoundTarget) : Type 0 where
    pub initial_trees_proof : IsFriInitialTreeProofTarget x.initial_trees_proof
    pub steps : IsVec IsFriQueryStepTarget x.steps

  Encodes-target_fri_query_round :
      (x : FriQueryRoundTarget)
      → IsFriQueryRoundTarget x
      → Encodes (read_target_fri_query_round d) x (write_target_fri_query_round x)
  unfolding read_target_fri_query_round write_target_fri_query_round
  Encodes-target_fri_query_round x h =
      Encodes-bind _ (Encodes-target_fri_initial_proof x.initial_trees_proof h.initial_trees_proof)
        (Encodes-map _
          (Encodes-vec IsFriQueryStepTarget Encodes-target_fri_query_step x.steps h.steps))

  pub record IsFriProofTarget (x : FriProofTarget) : Type 0 where
    pub commit_phase_merkle_caps : IsVec IsCapTarget x.commit_phase_merkle_caps
    pub query_round_proofs : IsVec IsFriQueryRoundTarget x.query_round_proofs
    pub final_poly : IsExtTargetVec d x.final_poly
    pub pow_witness : IsTarget x.pow_witness

  Encodes-target_fri_query_rounds :
      (x : List FriQueryRoundTarget)
      → IsVec IsFriQueryRoundTarget x
      → Encodes (read_target_fri_query_rounds d) x (write_target_fri_query_rounds x)
  unfolding read_target_fri_query_rounds write_target_fri_query_rounds
  Encodes-target_fri_query_rounds x h =
      Encodes-vec IsFriQueryRoundTarget Encodes-target_fri_query_round x h

  Encodes-target_fri_proof :
      (x : FriProofTarget)
      → IsFriProofTarget x
      → Encodes (read_target_fri_proof d) x (write_target_fri_proof x)
  unfolding read_target_fri_proof write_target_fri_proof
  Encodes-target_fri_proof x h =
      Encodes-bind _
        (Encodes-vec IsCapTarget Encodes-target_merkle_cap x.commit_phase_merkle_caps
          h.commit_phase_merkle_caps)
        (Encodes-bind _ (Encodes-target_fri_query_rounds x.query_round_proofs h.query_round_proofs)
          (Encodes-bind _ (Encodes-target_ext_vec d x.final_poly h.final_poly)
            (Encodes-map _ (Encodes-target x.pow_witness h.pow_witness))))

  pub record IsOpeningSetTarget (x : OpeningSetTarget) : Type 0 where
    pub constants : IsExtTargetVec d x.constants
    pub plonk_sigmas : IsExtTargetVec d x.plonk_sigmas
    pub wires : IsExtTargetVec d x.wires
    pub plonk_zs : IsExtTargetVec d x.plonk_zs
    pub plonk_zs_next : IsExtTargetVec d x.plonk_zs_next
    pub lookup_zs : IsExtTargetVec d x.lookup_zs
    pub next_lookup_zs : IsExtTargetVec d x.next_lookup_zs
    pub partial_products : IsExtTargetVec d x.partial_products
    pub quotient_polys : IsExtTargetVec d x.quotient_polys

  Encodes-target_opening_set :
      (x : OpeningSetTarget)
      → IsOpeningSetTarget x
      → Encodes (read_target_opening_set d) x (write_target_opening_set x)
  unfolding read_target_opening_set write_target_opening_set
  Encodes-target_opening_set x h =
      Encodes-bind _ (Encodes-target_ext_vec d x.constants h.constants) (
        Encodes-bind _ (Encodes-target_ext_vec d x.plonk_sigmas h.plonk_sigmas) (
          Encodes-bind _ (Encodes-target_ext_vec d x.wires h.wires) (
            Encodes-bind _ (Encodes-target_ext_vec d x.plonk_zs h.plonk_zs) (
              Encodes-bind _ (Encodes-target_ext_vec d x.plonk_zs_next h.plonk_zs_next) (
                Encodes-bind _ (Encodes-target_ext_vec d x.lookup_zs h.lookup_zs) (
                  Encodes-bind _ (Encodes-target_ext_vec d x.next_lookup_zs h.next_lookup_zs) (
                    Encodes-bind _ (Encodes-target_ext_vec d x.partial_products h.partial_products)
                      (Encodes-map _
                        (Encodes-target_ext_vec d x.quotient_polys h.quotient_polys)))))))))

  pub record IsProofTarget (x : ProofTarget) : Type 0 where
    pub wires_cap : IsCapTarget x.wires_cap
    pub plonk_zs_partial_products_cap : IsCapTarget x.plonk_zs_partial_products_cap
    pub quotient_polys_cap : IsCapTarget x.quotient_polys_cap
    pub openings : IsOpeningSetTarget x.openings
    pub opening_proof : IsFriProofTarget x.opening_proof

  Encodes-target_proof :
      (x : ProofTarget) → IsProofTarget x → Encodes (read_target_proof d) x (write_target_proof x)
  unfolding read_target_proof write_target_proof
  Encodes-target_proof x h = Encodes-bind _ (Encodes-target_merkle_cap x.wires_cap h.wires_cap) (
      Encodes-bind _
        (Encodes-target_merkle_cap x.plonk_zs_partial_products_cap h.plonk_zs_partial_products_cap)
        (Encodes-bind _ (Encodes-target_merkle_cap x.quotient_polys_cap h.quotient_polys_cap) (
          Encodes-bind _ (Encodes-target_opening_set x.openings h.openings)
            (Encodes-map _ (Encodes-target_fri_proof x.opening_proof h.opening_proof)))))

  pub record IsProofWithPublicInputsTarget (x : ProofWithPublicInputsTarget) : Type 0 where
    pub proof : IsProofTarget x.proof
    pub public_inputs : IsTargetVec x.public_inputs

  pub Encodes-target_proof_with_public_inputs :
      (x : ProofWithPublicInputsTarget)
      → IsProofWithPublicInputsTarget x
      → Encodes (read_target_proof_with_public_inputs d) x (write_target_proof_with_public_inputs x)
  unfolding read_target_proof_with_public_inputs write_target_proof_with_public_inputs
  Encodes-target_proof_with_public_inputs x h =
      Encodes-bind _ (Encodes-target_proof x.proof h.proof)
        (Encodes-map _ (Encodes-target_vec x.public_inputs h.public_inputs))

  -- A proof of targets whose indices and lengths the format has room for is written without a panic,
  -- and what is written, with any bytes after it, is read back as the same proof, those bytes being
  -- left over.
  pub read-write_target_proof :
      (x : ProofWithPublicInputsTarget) (rest : List ℕ)
      → IsProofWithPublicInputsTarget x
      → (bytes : List ℕ) × (write_target_proof_with_public_inputs x ≡ some bytes)
        × (read_target_proof_with_public_inputs d (bytes ++ rest) ≡ ok (x, rest))
  read-write_target_proof x rest h = round_trip (Encodes-target_proof_with_public_inputs x h) rest

pub record IsVerifierCircuitTarget (x : VerifierCircuitTarget) : Type 0 where
  pub constants_sigmas_cap : IsCapTarget x.constants_sigmas_cap
  pub circuit_digest : IsHashTarget x.circuit_digest

pub Encodes-target_verifier_circuit :
    (x : VerifierCircuitTarget)
    → IsVerifierCircuitTarget x
    → Encodes read_target_verifier_circuit x (write_target_verifier_circuit x)
unfolding read_target_verifier_circuit write_target_verifier_circuit
Encodes-target_verifier_circuit x h =
    Encodes-bind _ (Encodes-target_merkle_cap x.constants_sigmas_cap h.constants_sigmas_cap)
      (Encodes-map _ (Encodes-target_hash x.circuit_digest h.circuit_digest))

abbrev pub IsTargetPair : Target × Target → Type 0
IsTargetPair (a, b) = IsTarget a × IsTarget b

Encodes-target_pair :
    (x : Target × Target) → IsTargetPair x → Encodes read_target_pair x (write_target_pair x)
unfolding read_target_pair write_target_pair
Encodes-target_pair (a, b) (ha, hb) =
    Encodes-bind _ (Encodes-target a ha) (Encodes-map _ (Encodes-target b hb))

pub Encodes-target_lut :
    (lut : List (Target × Target))
    → IsVec IsTargetPair lut
    → Encodes read_target_lut lut (write_target_lut lut)
unfolding read_target_lut write_target_lut
Encodes-target_lut lut h = Encodes-vec IsTargetPair Encodes-target_pair lut h
