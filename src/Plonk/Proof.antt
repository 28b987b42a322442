-- ===== src/Plonk/Proof.antt =====
-- plonky2/src/plonk/proof.rs and plonky2/src/fri/proof.rs: proofs. An element of the extension field
-- is the list of its coordinates, a Merkle cap and a Merkle proof are the lists of their digests.
use plonky.Common.{ℕ, List}

-- An `FriInitialTreeProof`: its `evals_proofs`.
abbrev pub FriInitialTreeProof : Type 0 → Type 0
FriInitialTreeProof H = List (List ℕ × List H)

pub record FriQueryStep (H : Type 0) : Type 0 where
  pub evals : List (List ℕ)
  pub merkle_proof : List H

pub record FriQueryRound (H : Type 0) : Type 0 where
  pub initial_trees_proof : FriInitialTreeProof H
  pub steps : List (FriQueryStep H)

pub record FriProof (H : Type 0) : Type 0 where
  pub commit_phase_merkle_caps : List (List H)
  pub query_round_proofs : List (FriQueryRound H)
  pub final_poly : List (List ℕ)
  pub pow_witness : ℕ

pub record OpeningSet : Type 0 where
  pub constants : List (List ℕ)
  pub plonk_sigmas : List (List ℕ)
  pub wires : List (List ℕ)
  pub plonk_zs : List (List ℕ)
  pub plonk_zs_next : List (List ℕ)
  pub lookup_zs : List (List ℕ)
  pub lookup_zs_next : List (List ℕ)
  pub partial_products : List (List ℕ)
  pub quotient_polys : List (List ℕ)

pub record Proof (H : Type 0) : Type 0 where
  pub wires_cap : List H
  pub plonk_zs_partial_products_cap : List H
  pub quotient_polys_cap : List H
  pub openings : OpeningSet
  pub opening_proof : FriProof H

pub record ProofWithPublicInputs (H : Type 0) : Type 0 where
  pub proof : Proof H
  pub public_inputs : List ℕ
