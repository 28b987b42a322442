-- ===== src/Serialization/Circuits.antt =====
-- plonky2/src/util/serialization/mod.rs: the data of circuits. Gates and witness generators are read
-- and written by the serializers of the caller.
pub mod Watches
pub mod RoundTrip
pub mod Whole
use plonky.Common.{
  ℕ, zero, suc, Bool, true, false, Option, none, some, List, [], ◌∷◌, length, ltb, ◌==◌,
  if◌then◌else◌,
}
use plonky.Plonk.CircuitData.{
  CommonCircuitData, PolynomialBatch, LookupWire, ProverOnlyCircuitData, VerifierOnlyCircuitData,
  CircuitData, ProverCircuitData, VerifierCircuitData,
}
use plonky.Serialization.{
  Reader, ◌>>=◌, ret, ◌⊕◌, read_usize, write_usize, read_bool, write_bool, read_vec, write_vec,
  write_each, read_usize_vec, write_usize_vec,
}
use plonky.Serialization.CommonData.{
  GateSerializer, read_common_circuit_data, write_common_circuit_data,
}
use plonky.Serialization.Hashes.{
  HashBytes, read_hash, write_hash, read_merkle_cap, write_merkle_cap, read_field_row,
  write_field_row, write_checked, read_merkle_tree, write_merkle_tree,
}
use plonky.Serialization.Targets.{
  read_target_vec, write_target_vec, read_target_lut, write_target_lut,
}
use plonky.Util.{log2_strict}

-- The witness generator serializer of the caller.
pub record WitnessGeneratorSerializer (G W : Type 0) : Type 0 where
  pub read_generator : CommonCircuitData G → Reader W
  pub write_generator : W → CommonCircuitData G → Option (List ℕ)

-- `BTreeMap::insert`, on the entries in ascending order of their keys.
unfoldable pub insert : {A : Type 0} → ℕ → A → List (ℕ × A) → List (ℕ × A)
insert k v [] = (k, v) ∷ []
insert k v ((k', v') ∷ entries) =
    let rest = insert k v entries in
    if ltb k k'
    then (k, v) ∷ (k', v') ∷ entries
    else if k == k'
    then (k, v) ∷ entries
    else (k', v') ∷ rest

-- The loop that fills `generator_indices_by_watches`.
unfoldable pub read_watches : ℕ → List (ℕ × List ℕ) → Reader (List (ℕ × List ℕ))
read_watches zero entries = ret entries
read_watches (suc n) entries = do
  k ← read_usize
  v ← read_usize_vec
  read_watches n (insert k v entries)

unfoldable pub write_watch : ℕ × List ℕ → Option (List ℕ)
write_watch (k, v) = write_usize k ⊕ write_usize_vec v

unfoldable pub read_lookup_wire : Reader LookupWire
read_lookup_wire = do
  last_lu_gate ← read_usize
  last_lut_gate ← read_usize
  first_lut_gate ← read_usize
  ret (record {
    last_lu_gate = last_lu_gate;
    last_lut_gate = last_lut_gate;
    first_lut_gate = first_lut_gate;
  })

unfoldable pub write_lookup_wire : LookupWire → Option (List ℕ)
write_lookup_wire wire =
    write_usize wire.last_lu_gate ⊕ write_usize wire.last_lut_gate ⊕ write_usize wire.first_lut_gate

unfoldable pub read_table : Reader (Option (List (List ℕ)))
read_table = do table ← read_vec read_field_row; ret (some table)

unfoldable pub read_fft_root_table : Reader (Option (List (List ℕ)))
read_fft_root_table = do is_some ← read_bool; if is_some then read_table else ret none

unfoldable pub write_fft_root_table : Option (List (List ℕ)) → Option (List ℕ)
write_fft_root_table (some table) = write_bool true ⊕ write_vec write_field_row table
write_fft_root_table none = write_bool false

module _ {H : Type 0} (hb : HashBytes H) where
  unfoldable pub read_polynomial_batch : Reader (PolynomialBatch H)
  read_polynomial_batch = do
    polynomials ← read_vec read_field_row
    merkle_tree ← read_merkle_tree hb
    degree_log ← read_usize
    rate_bits ← read_usize
    blinding ← read_bool
    ret (record {
      polynomials = polynomials;
      merkle_tree = merkle_tree;
      degree_log = degree_log;
      rate_bits = rate_bits;
      blinding = blinding;
    })

  unfoldable pub write_polynomial_batch : PolynomialBatch H → Option (List ℕ)
  write_polynomial_batch b =
      write_vec write_field_row b.polynomials
      ⊕ write_merkle_tree hb b.merkle_tree
      ⊕ write_usize b.degree_log
      ⊕ write_usize b.rate_bits
      ⊕ write_bool b.blinding

  unfoldable pub read_verifier_only_circuit_data : Reader (VerifierOnlyCircuitData H)
  read_verifier_only_circuit_data = do
    height ← read_usize
    constants_sigmas_cap ← read_merkle_cap hb height
    circuit_digest ← read_hash hb
    ret (record { constants_sigmas_cap = constants_sigmas_cap; circuit_digest = circuit_digest })

  unfoldable pub write_verifier_only_circuit_data : VerifierOnlyCircuitData H → Option (List ℕ)
  write_verifier_only_circuit_data v =
      write_checked (log2_strict (length v.constants_sigmas_cap))
      ⊕ write_merkle_cap hb v.constants_sigmas_cap
      ⊕ write_hash hb v.circuit_digest

module _ {G W H : Type 0} (hb : HashBytes H) (ws : WitnessGeneratorSerializer G W) where
  unfoldable pub read_prover_only_circuit_data :
      CommonCircuitData G → Reader (ProverOnlyCircuitData W H)
  read_prover_only_circuit_data common_data = do
    generators ← read_vec (ws.read_generator common_data)
    map_len ← read_usize
    generator_indices_by_watches ← read_watches map_len []
    constants_sigmas_commitment ← read_polynomial_batch hb
    sigmas ← read_vec read_field_row
    subgroup ← read_field_row
    public_inputs ← read_target_vec
    representative_map ← read_usize_vec
    fft_root_table ← read_fft_root_table
    circuit_digest ← read_hash hb
    lookup_rows ← read_vec read_lookup_wire
    lut_to_lookups ← read_vec read_target_lut
    ret (record {
      generators = generators;
      generator_indices_by_watches = generator_indices_by_watches;
      constants_sigmas_commitment = constants_sigmas_commitment;
      sigmas = sigmas;
      subgroup = subgroup;
      public_inputs = public_inputs;
      representative_map = representative_map;
      fft_root_table = fft_root_table;
      circuit_digest = circuit_digest;
      lookup_rows = lookup_rows;
      lut_to_lookups = lut_to_lookups;
    })

  unfoldable pub write_prover_only_circuit_data :
      ProverOnlyCircuitData W H → CommonCircuitData G → Option (List ℕ)
  write_prover_only_circuit_data p common_data =
      write_vec (λ generator. ws.write_generator generator common_data) p.generators
      ⊕ write_usize (length p.generator_indices_by_watches)
      ⊕ write_each write_watch p.generator_indices_by_watches
      ⊕ write_polynomial_batch hb p.constants_sigmas_commitment
      ⊕ write_vec write_field_row p.sigmas
      ⊕ write_field_row p.subgroup
      ⊕ write_target_vec p.public_inputs
      ⊕ write_usize_vec p.representative_map
      ⊕ write_fft_root_table p.fft_root_table
      ⊕ write_hash hb p.circuit_digest
      ⊕ write_vec write_lookup_wire p.lookup_rows
      ⊕ write_vec write_target_lut p.lut_to_lookups

  module _ (gs : GateSerializer G) where
    unfoldable pub read_circuit_data : Reader (CircuitData G W H)
    read_circuit_data = do
      common' ← read_common_circuit_data gs
      prover_only ← read_prover_only_circuit_data common'
      verifier_only ← read_verifier_only_circuit_data hb
      ret (record { prover_only = prover_only; verifier_only = verifier_only; common = common' })

    unfoldable pub write_circuit_data : CircuitData G W H → Option (List ℕ)
    write_circuit_data c =
        write_common_circuit_data c.common gs
        ⊕ write_prover_only_circuit_data c.prover_only c.common
        ⊕ write_verifier_only_circuit_data hb c.verifier_only

    unfoldable pub read_prover_circuit_data : Reader (ProverCircuitData G W H)
    read_prover_circuit_data = do
      common' ← read_common_circuit_data gs
      prover_only ← read_prover_only_circuit_data common'
      ret (record { prover_only = prover_only; common = common' })

    unfoldable pub write_prover_circuit_data : ProverCircuitData G W H → Option (List ℕ)
    write_prover_circuit_data p =
        write_common_circuit_data p.common gs
        ⊕ write_prover_only_circuit_data p.prover_only p.common

module _ {G H : Type 0} (hb : HashBytes H) (gs : GateSerializer G) where
  unfoldable pub read_verifier_circuit_data : Reader (VerifierCircuitData G H)
  read_verifier_circuit_data = do
    verifier_only ← read_verifier_only_circuit_data hb
    common' ← read_common_circuit_data gs
    ret (record { verifier_only = verifier_only; common = common' })

  unfoldable pub write_verifier_circuit_data : VerifierCircuitData G H → Option (List ℕ)
  write_verifier_circuit_data v =
      write_verifier_only_circuit_data hb v.verifier_only ⊕ write_common_circuit_data v.common gs
