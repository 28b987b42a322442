-- ===== src/Serialization/Tests/Targets.antt =====
-- plonky2/src/util/serialization/mod.rs: a small proof of targets, and the theorem at it.
use plonky.Common.{ℕ, ◌≡◌, refl, arith, some, List, [], ◌∷◌, ◌++◌}
use plonky.Plonk.PermutationArgument.{Target, wire, virtual_target}
use plonky.Serialization.{ok}
use plonky.Serialization.Targets.{
  FriQueryStepTarget, FriQueryRoundTarget, ProofWithPublicInputsTarget,
  read_target_proof_with_public_inputs, write_target_proof_with_public_inputs,
}
use plonky.Serialization.Targets.RoundTrip.{IsHashTarget, IsCapTarget, IsExtTargetVec}
use plonky.Serialization.Targets.Proofs.{
  IsFriQueryRoundTarget, IsProofWithPublicInputsTarget, read-write_target_proof,
}

abbrev t : Target
t = virtual_target 5

abbrev hash : List Target
hash = wire (record { row = 1; column = 2 }) ∷ t ∷ t ∷ t ∷ []

abbrev exts : List (List Target)
exts = (t ∷ t ∷ []) ∷ []

abbrev step : FriQueryStepTarget
step = record { evals = exts; merkle_proof = hash ∷ [] }

abbrev round : FriQueryRoundTarget
round = record { initial_trees_proof = (t ∷ [], hash ∷ []) ∷ []; steps = step ∷ [] }

abbrev proof_target : ProofWithPublicInputsTarget
proof_target = record {
  proof = record {
    wires_cap = hash ∷ [];
    plonk_zs_partial_products_cap = hash ∷ hash ∷ [];
    quotient_polys_cap = [];
    openings = record {
      constants = exts;
      plonk_sigmas = [];
      wires = exts;
      plonk_zs = exts;
      plonk_zs_next = exts;
      lookup_zs = [];
      next_lookup_zs = [];
      partial_products = exts;
      quotient_polys = exts;
    };
    opening_proof = record {
      commit_phase_merkle_caps = (hash ∷ []) ∷ [];
      query_round_proofs = round ∷ [];
      final_poly = exts;
      pow_witness = t;
    };
  };
  public_inputs = t ∷ [];
}

hash-IsHashTarget : IsHashTarget hash
hash-IsHashTarget =
    (refl, ((omega arith, omega arith), (omega arith, (omega arith, (omega arith, tt)))))

exts-IsExtTargetVec : IsExtTargetVec 2 exts
exts-IsExtTargetVec = (omega arith, ((refl, (omega arith, (omega arith, tt))), tt))

none-IsExtTargetVec : IsExtTargetVec 2 []
none-IsExtTargetVec = (omega arith, tt)

one-IsCapTarget : IsCapTarget (hash ∷ [])
one-IsCapTarget = (omega arith, (hash-IsHashTarget, tt))

round-IsFriQueryRoundTarget : IsFriQueryRoundTarget 2 round
round-IsFriQueryRoundTarget = record {
  initial_trees_proof = (
    omega arith,
    (((omega arith, (omega arith, tt)), (omega arith, (hash-IsHashTarget, tt))), tt),
  );
  steps = (
    omega arith,
    (
      record { evals = exts-IsExtTargetVec; merkle_proof = (omega arith, (hash-IsHashTarget, tt)) },
      tt,
    ),
  );
}

proof_target-IsProof : IsProofWithPublicInputsTarget 2 proof_target
proof_target-IsProof = record {
  proof = record {
    wires_cap = one-IsCapTarget;
    plonk_zs_partial_products_cap = (omega arith, (hash-IsHashTarget, (hash-IsHashTarget, tt)));
    quotient_polys_cap = (omega arith, tt);
    openings = record {
      constants = exts-IsExtTargetVec;
      plonk_sigmas = none-IsExtTargetVec;
      wires = exts-IsExtTargetVec;
      plonk_zs = exts-IsExtTargetVec;
      plonk_zs_next = exts-IsExtTargetVec;
      lookup_zs = none-IsExtTargetVec;
      next_lookup_zs = none-IsExtTargetVec;
      partial_products = exts-IsExtTargetVec;
      quotient_polys = exts-IsExtTargetVec;
    };
    opening_proof = record {
      commit_phase_merkle_caps = (omega arith, (one-IsCapTarget, tt));
      query_round_proofs = (omega arith, (round-IsFriQueryRoundTarget, tt));
      final_poly = exts-IsExtTargetVec;
      pow_witness = omega arith;
    };
  };
  public_inputs = (omega arith, (omega arith, tt));
}

read-write_target_proof_example :
    (bytes : List ℕ) × (write_target_proof_with_public_inputs proof_target ≡ some bytes)
    × (read_target_proof_with_public_inputs 2 (bytes ++ (0 ∷ [])) ≡ ok (proof_target, 0 ∷ []))
read-write_target_proof_example =
    read-write_target_proof 2 proof_target (0 ∷ []) proof_target-IsProof
