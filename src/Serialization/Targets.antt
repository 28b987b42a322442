-- ===== src/Serialization/Targets.antt =====
-- plonky2/src/util/serialization/mod.rs: targets, and the in-circuit versions of proofs. An
-- `ExtensionTarget<D>` is its list of `D` targets, and a `HashOutTarget` its list of four; a
-- `MerkleCapTarget` and a `MerkleProofTarget` are lists of hashes.
pub mod RoundTrip
pub mod Proofs
use plonky.Common.{ℕ, Bool, true, false, Option, none, some, List, [], ◌∷◌, length, if◌then◌else◌}
use plonky.Plonk.PermutationArgument.{Wire, Target, wire, virtual_target}
use plonky.Serialization.{
  Reader, ◌>>=◌, ret, ◌⊕◌, read_bool, write_bool, read_u8, write_u8, read_usize, write_usize,
  read_n, write_each, read_vec, write_vec, write_length_u8,
}

pub record BoolTarget : Type 0 where
  pub target : Target

unfoldable pub read_virtual_target : Reader Target
read_virtual_target = do index ← read_usize; ret (virtual_target index)

unfoldable pub read_wire : Reader Target
read_wire = do
  row ← read_usize
  column ← read_usize
  ret (wire (record { row = row; column = column }))

unfoldable pub read_target : Reader Target
read_target = do is_wire ← read_bool; if is_wire then read_wire else read_virtual_target

unfoldable pub write_target : Target → Option (List ℕ)
write_target (wire w) = write_bool true ⊕ write_usize w.row ⊕ write_usize w.column
write_target (virtual_target index) = write_bool false ⊕ write_usize index

unfoldable pub read_target_bool : Reader BoolTarget
read_target_bool = do t ← read_target; ret (record { target = t })

unfoldable pub write_target_bool : BoolTarget → Option (List ℕ)
write_target_bool x = write_target x.target

unfoldable pub read_target_bool_vec : Reader (List BoolTarget)
read_target_bool_vec = read_vec read_target_bool

unfoldable pub write_target_bool_vec : List BoolTarget → Option (List ℕ)
write_target_bool_vec v = write_vec write_target_bool v

-- `read_target_array` and `write_target_array` are these at their length.
unfoldable pub read_target_ext : ℕ → Reader (List Target)
read_target_ext d = read_n d read_target

unfoldable pub write_target_ext : List Target → Option (List ℕ)
write_target_ext x = write_each write_target x

unfoldable pub read_target_vec : Reader (List Target)
read_target_vec = read_vec read_target

unfoldable pub write_target_vec : List Target → Option (List ℕ)
write_target_vec v = write_vec write_target v

unfoldable pub read_target_ext_vec : ℕ → Reader (List (List Target))
read_target_ext_vec d = read_vec (read_target_ext d)

unfoldable pub write_target_ext_vec : List (List Target) → Option (List ℕ)
write_target_ext_vec v = write_vec write_target_ext v

unfoldable pub read_target_hash : Reader (List Target)
read_target_hash = read_n 4 read_target

unfoldable pub write_target_hash : List Target → Option (List ℕ)
write_target_hash h = write_each write_target h

unfoldable pub read_target_merkle_cap : Reader (List (List Target))
read_target_merkle_cap = read_vec read_target_hash

unfoldable pub write_target_merkle_cap : List (List Target) → Option (List ℕ)
write_target_merkle_cap cap = write_vec write_target_hash cap

unfoldable pub read_target_merkle_proof : Reader (List (List Target))
read_target_merkle_proof = do length ← read_u8; read_n length read_target_hash

unfoldable pub write_target_merkle_proof : List (List Target) → Option (List ℕ)
write_target_merkle_proof pt = write_length_u8 (length pt) ⊕ write_each write_target_hash pt

unfoldable pub read_target_eval_proof : Reader (List Target × List (List Target))
read_target_eval_proof = do v ← read_target_vec; p ← read_target_merkle_proof; ret (v, p)

unfoldable pub write_target_eval_proof : List Target × List (List Target) → Option (List ℕ)
write_target_eval_proof (v, p) = write_target_vec v ⊕ write_target_merkle_proof p

abbrev pub FriInitialTreeProofTarget : Type 0
FriInitialTreeProofTarget = List (List Target × List (List Target))

unfoldable pub read_target_fri_initial_proof : Reader FriInitialTreeProofTarget
read_target_fri_initial_proof = read_vec read_target_eval_proof

unfoldable pub write_target_fri_initial_proof : FriInitialTreeProofTarget → Option (List ℕ)
write_target_fri_initial_proof fitpt = write_vec write_target_eval_proof fitpt

pub record FriQueryStepTarget : Type 0 where
  pub evals : List (List Target)
  pub merkle_proof : List (List Target)

unfoldable pub read_target_fri_query_step : ℕ → Reader FriQueryStepTarget
read_target_fri_query_step d = do
  evals ← read_target_ext_vec d
  merkle_proof ← read_target_merkle_proof
  ret (record { evals = evals; merkle_proof = merkle_proof })

unfoldable pub write_target_fri_query_step : FriQueryStepTarget → Option (List ℕ)
write_target_fri_query_step fqst =
    write_target_ext_vec fqst.evals ⊕ write_target_merkle_proof fqst.merkle_proof

pub record FriQueryRoundTarget : Type 0 where
  pub initial_trees_proof : FriInitialTreeProofTarget
  pub steps : List FriQueryStepTarget

unfoldable pub read_target_fri_query_round : ℕ → Reader FriQueryRoundTarget
read_target_fri_query_round d = do
  initial_trees_proof ← read_target_fri_initial_proof
  steps ← read_vec (read_target_fri_query_step d)
  ret (record { initial_trees_proof = initial_trees_proof; steps = steps })

unfoldable pub write_target_fri_query_round : FriQueryRoundTarget → Option (List ℕ)
write_target_fri_query_round fqr =
    write_target_fri_initial_proof fqr.initial_trees_proof
    ⊕ write_vec write_target_fri_query_step fqr.steps

unfoldable pub read_target_fri_query_rounds : ℕ → Reader (List FriQueryRoundTarget)
read_target_fri_query_rounds d = read_vec (read_target_fri_query_round d)

unfoldable pub write_target_fri_query_rounds : List FriQueryRoundTarget → Option (List ℕ)
write_target_fri_query_rounds fqrst = write_vec write_target_fri_query_round fqrst

pub record FriProofTarget : Type 0 where
  pub commit_phase_merkle_caps : List (List (List Target))
  pub query_round_proofs : List FriQueryRoundTarget
  pub final_poly : List (List Target)
  pub pow_witness : Target

unfoldable pub read_target_fri_proof : ℕ → Reader FriProofTarget
read_target_fri_proof d = do
  commit_phase_merkle_caps ← read_vec read_target_merkle_cap
  query_round_proofs ← read_target_fri_query_rounds d
  final_poly ← read_target_ext_vec d
  pow_witness ← read_target
  ret (record {
    commit_phase_merkle_caps = commit_phase_merkle_caps;
    query_round_proofs = query_round_proofs;
    final_poly = final_poly;
    pow_witness = pow_witness;
  })

unfoldable pub write_target_fri_proof : FriProofTarget → Option (List ℕ)
write_target_fri_proof fpt =
    write_vec write_target_merkle_cap fpt.commit_phase_merkle_caps
    ⊕ write_target_fri_query_rounds fpt.query_round_proofs
    ⊕ write_target_ext_vec fpt.final_poly
    ⊕ write_target fpt.pow_witness

pub record OpeningSetTarget : Type 0 where
  pub constants : List (List Target)
  pub plonk_sigmas : List (List Target)
  pub wires : List (List Target)
  pub plonk_zs : List (List Target)
  pub plonk_zs_next : List (List Target)
  pub lookup_zs : List (List Target)
  pub next_lookup_zs : List (List Target)
  pub partial_products : List (List Target)
  pub quotient_polys : List (List Target)

unfoldable pub read_target_opening_set : ℕ → Reader OpeningSetTarget
read_target_opening_set d = do
  constants ← read_target_ext_vec d
  plonk_sigmas ← read_target_ext_vec d
  wires ← read_target_ext_vec d
  plonk_zs ← read_target_ext_vec d
  plonk_zs_next ← read_target_ext_vec d
  lookup_zs ← read_target_ext_vec d
  next_lookup_zs ← read_target_ext_vec d
  partial_products ← read_target_ext_vec d
  quotient_polys ← read_target_ext_vec d
  ret (record {
    constants = constants;
    plonk_sigmas = plonk_sigmas;
    wires = wires;
    plonk_zs = plonk_zs;
    plonk_zs_next = plonk_zs_next;
    lookup_zs = lookup_zs;
    next_lookup_zs = next_lookup_zs;
    partial_products = partial_products;
    quotient_polys = quotient_polys;
  })

unfoldable pub write_target_opening_set : OpeningSetTarget → Option (List ℕ)
write_target_opening_set os =
    write_target_ext_vec os.constants
    ⊕ write_target_ext_vec os.plonk_sigmas
    ⊕ write_target_ext_vec os.wires
    ⊕ write_target_ext_vec os.plonk_zs
    ⊕ write_target_ext_vec os.plonk_zs_next
    ⊕ write_target_ext_vec os.lookup_zs
    ⊕ write_target_ext_vec os.next_lookup_zs
    ⊕ write_target_ext_vec os.partial_products
    ⊕ write_target_ext_vec os.quotient_polys

pub record ProofTarget : Type 0 where
  pub wires_cap : List (List Target)
  pub plonk_zs_partial_products_cap : List (List Target)
  pub quotient_polys_cap : List (List Target)
  pub openings : OpeningSetTarget
  pub opening_proof : FriProofTarget

unfoldable pub read_target_proof : ℕ → Reader ProofTarget
read_target_proof d = do
  wires_cap ← read_target_merkle_cap
  plonk_zs_partial_products_cap ← read_target_merkle_cap
  quotient_polys_cap ← read_target_merkle_cap
  openings ← read_target_opening_set d
  opening_proof ← read_target_fri_proof d
  ret (record {
    wires_cap = wires_cap;
    plonk_zs_partial_products_cap = plonk_zs_partial_products_cap;
    quotient_polys_cap = quotient_polys_cap;
    openings = openings;
    opening_proof = opening_proof;
  })

unfoldable pub write_target_proof : ProofTarget → Option (List ℕ)
write_target_proof proof =
    write_target_merkle_cap proof.wires_cap
    ⊕ write_target_merkle_cap proof.plonk_zs_partial_products_cap
    ⊕ write_target_merkle_cap proof.quotient_polys_cap
    ⊕ write_target_opening_set proof.openings
    ⊕ write_target_fri_proof proof.opening_proof

pub record ProofWithPublicInputsTarget : Type 0 where
  pub proof : ProofTarget
  pub public_inputs : List Target

unfoldable pub read_target_proof_with_public_inputs : ℕ → Reader ProofWithPublicInputsTarget
read_target_proof_with_public_inputs d = do
  proof ← read_target_proof d
  public_inputs ← read_target_vec
  ret (record { proof = proof; public_inputs = public_inputs })

unfoldable pub write_target_proof_with_public_inputs : ProofWithPublicInputsTarget → Option (List ℕ)
write_target_proof_with_public_inputs p =
    write_target_proof p.proof ⊕ write_target_vec p.public_inputs

pub record VerifierCircuitTarget : Type 0 where
  pub constants_sigmas_cap : List (List Target)
  pub circuit_digest : List Target

unfoldable pub read_target_verifier_circuit : Reader VerifierCircuitTarget
read_target_verifier_circuit = do
  constants_sigmas_cap ← read_target_merkle_cap
  circuit_digest ← read_target_hash
  ret (record { constants_sigmas_cap = constants_sigmas_cap; circuit_digest = circuit_digest })

unfoldable pub write_target_verifier_circuit : VerifierCircuitTarget → Option (List ℕ)
write_target_verifier_circuit v =
    write_target_merkle_cap v.constants_sigmas_cap ⊕ write_target_hash v.circuit_digest

unfoldable pub read_target_pair : Reader (Target × Target)
read_target_pair = do a ← read_target; b ← read_target; ret (a, b)

unfoldable pub write_target_pair : Target × Target → Option (List ℕ)
write_target_pair (a, b) = write_target a ⊕ write_target b

unfoldable pub read_target_lut : Reader (List (Target × Target))
read_target_lut = read_vec read_target_pair

unfoldable pub write_target_lut : List (Target × Target) → Option (List ℕ)
write_target_lut lut = write_vec write_target_pair lut
