-- ===== src/Serialization/Circuits/RoundTrip.antt =====
-- plonky2/src/util/serialization/mod.rs: the parts of a circuit's data are read as they were written.
use plonky.Common.{ℕ, refl, false, Option, none, some, List, length, All}
use plonky.Plonk.CircuitData.{
  CommonCircuitData, PolynomialBatch, LookupWire, ProverOnlyCircuitData, VerifierOnlyCircuitData,
}
use plonky.Serialization.{ret}
use plonky.Serialization.Encodes.{Encodes, Encodes-bind, Encodes-last, Encodes-map}
use plonky.Serialization.Words.{
  Encodes-usize, Encodes-bool, Encodes-usize_vec, Encodes-vec, IsUsize, IsField, IsVec,
}
use plonky.Serialization.Hashes.{HashBytes}
use plonky.Serialization.Hashes.RoundTrip.{
  Encodes-field_row, IsFieldRows, Encodes-field_rows, IsHash, Encodes-hash, IsCap,
  Encodes-merkle_cap, Encodes-height, IsMerkleTree, Encodes-merkle_tree,
}
use plonky.Serialization.Targets.RoundTrip.{IsTargetVec, Encodes-target_vec}
use plonky.Serialization.Targets.Proofs.{IsTargetPair, Encodes-target_lut}
use plonky.Serialization.Circuits.{
  WitnessGeneratorSerializer, read_lookup_wire, write_lookup_wire, read_table, read_fft_root_table,
  write_fft_root_table, read_polynomial_batch, write_polynomial_batch,
  read_verifier_only_circuit_data, write_verifier_only_circuit_data, read_prover_only_circuit_data,
  write_prover_only_circuit_data,
}
use plonky.Serialization.Circuits.Watches.{IsAscending, IsWatch, Encodes-watches}

pub record IsLookupWire (w : LookupWire) : Type 0 where
  pub last_lu_gate : IsUsize w.last_lu_gate
  pub last_lut_gate : IsUsize w.last_lut_gate
  pub first_lut_gate : IsUsize w.first_lut_gate

Encodes-lookup_wire :
    (w : LookupWire) → IsLookupWire w → Encodes read_lookup_wire w (write_lookup_wire w)
unfolding read_lookup_wire write_lookup_wire
Encodes-lookup_wire w h = Encodes-bind _ (Encodes-usize h.last_lu_gate) (
    Encodes-bind _ (Encodes-usize h.last_lut_gate) (Encodes-map _ (Encodes-usize h.first_lut_gate)))

abbrev pub IsFftRootTable : Option (List (List ℕ)) → Type 0
IsFftRootTable none = Unit
IsFftRootTable (some table) = IsFieldRows table

Encodes-fft_root_table :
    (t : Option (List (List ℕ)))
    → IsFftRootTable t
    → Encodes read_fft_root_table t (write_fft_root_table t)
unfolding read_fft_root_table write_fft_root_table read_table ret
Encodes-fft_root_table none h = Encodes-last _ (Encodes-bool {b = false}) (λ rest. refl)
Encodes-fft_root_table (some table) h =
    Encodes-bind _ Encodes-bool (Encodes-map some (Encodes-field_rows table h))

module _ {H : Type 0} (hb : HashBytes H) where
  pub record IsPolynomialBatch (b : PolynomialBatch H) : Type 0 where
    pub polynomials : IsFieldRows b.polynomials
    pub merkle_tree : IsMerkleTree hb b.merkle_tree
    pub degree_log : IsUsize b.degree_log
    pub rate_bits : IsUsize b.rate_bits

  Encodes-polynomial_batch :
      (b : PolynomialBatch H)
      → IsPolynomialBatch b
      → Encodes (read_polynomial_batch hb) b (write_polynomial_batch hb b)
  unfolding read_polynomial_batch write_polynomial_batch
  Encodes-polynomial_batch b h = Encodes-bind _ (Encodes-field_rows b.polynomials h.polynomials) (
      Encodes-bind _ (Encodes-merkle_tree hb b.merkle_tree h.merkle_tree) (
        Encodes-bind _ (Encodes-usize h.degree_log)
          (Encodes-bind _ (Encodes-usize h.rate_bits) (Encodes-map _ Encodes-bool))))

  pub record IsVerifierOnlyCircuitData (v : VerifierOnlyCircuitData H) : Type 0 where
    pub height : ℕ
    pub constants_sigmas_cap : IsCap hb height v.constants_sigmas_cap
    pub circuit_digest : IsHash hb v.circuit_digest

  pub Encodes-verifier_only :
      (v : VerifierOnlyCircuitData H)
      → IsVerifierOnlyCircuitData v
      → Encodes (read_verifier_only_circuit_data hb) v (write_verifier_only_circuit_data hb v)
  unfolding read_verifier_only_circuit_data write_verifier_only_circuit_data
  Encodes-verifier_only v h =
      Encodes-bind _ (Encodes-height hb v.constants_sigmas_cap h.constants_sigmas_cap) (
        Encodes-bind _ (Encodes-merkle_cap hb v.constants_sigmas_cap h.constants_sigmas_cap)
          (Encodes-map _ (Encodes-hash hb v.circuit_digest h.circuit_digest)))

module _ {G W H : Type 0} (hb : HashBytes H) (ws : WitnessGeneratorSerializer G W) where
  -- The serializer reads a generator of the circuit from what it writes for it.
  abbrev pub IsGenerator : CommonCircuitData G → W → Type 0
  IsGenerator c w = Encodes (ws.read_generator c) w (ws.write_generator w c)

  pub record IsProverOnlyCircuitData (c : CommonCircuitData G) (p : ProverOnlyCircuitData W H)
      : Type 0 where
    pub generators : IsVec (IsGenerator c) p.generators
    pub watches_length : IsUsize (length p.generator_indices_by_watches)
    pub watches_order : IsAscending p.generator_indices_by_watches
    pub watches : All IsWatch p.generator_indices_by_watches
    pub constants_sigmas_commitment : IsPolynomialBatch hb p.constants_sigmas_commitment
    pub sigmas : IsFieldRows p.sigmas
    pub subgroup : IsVec IsField p.subgroup
    pub public_inputs : IsTargetVec p.public_inputs
    pub representative_map : IsVec IsUsize p.representative_map
    pub fft_root_table : IsFftRootTable p.fft_root_table
    pub circuit_digest : IsHash hb p.circuit_digest
    pub lookup_rows : IsVec IsLookupWire p.lookup_rows
    pub lut_to_lookups : IsVec (IsVec IsTargetPair) p.lut_to_lookups

  pub Encodes-prover_only :
      (c : CommonCircuitData G) (p : ProverOnlyCircuitData W H)
      → IsProverOnlyCircuitData c p
      → Encodes (read_prover_only_circuit_data hb ws c) p (write_prover_only_circuit_data hb ws p c)
  unfolding read_prover_only_circuit_data write_prover_only_circuit_data
  Encodes-prover_only c p h =
      Encodes-bind _ (Encodes-vec (IsGenerator c) (λ w hw. hw) p.generators h.generators) (
        Encodes-bind _ (Encodes-usize h.watches_length) (
          Encodes-bind _ (Encodes-watches p.generator_indices_by_watches h.watches_order h.watches)
            (Encodes-bind _
              (Encodes-polynomial_batch hb p.constants_sigmas_commitment
                h.constants_sigmas_commitment)
              (Encodes-bind _ (Encodes-field_rows p.sigmas h.sigmas) (
                Encodes-bind _ (Encodes-field_row p.subgroup h.subgroup) (
                  Encodes-bind _ (Encodes-target_vec p.public_inputs h.public_inputs) (
                    Encodes-bind _ (Encodes-usize_vec p.representative_map h.representative_map) (
                      Encodes-bind _ (Encodes-fft_root_table p.fft_root_table h.fft_root_table) (
                        Encodes-bind _ (Encodes-hash hb p.circuit_digest h.circuit_digest) (
                          Encodes-bind _
                            (Encodes-vec IsLookupWire Encodes-lookup_wire p.lookup_rows
                              h.lookup_rows)
                            (Encodes-map _ (
                              Encodes-vec (IsVec IsTargetPair) Encodes-target_lut p.lut_to_lookups
                                h.lut_to_lookups))))))))))))
