-- ===== src/Serialization/Circuits/Whole.antt =====
-- plonky2/src/util/serialization/mod.rs: the data of circuits is read as it was written, for the
-- prover, for the verifier and for both.
use plonky.Common.{ℕ, ◌≡◌, some, List, ◌∷◌, ◌++◌}
use plonky.Plonk.CircuitData.{CircuitData, ProverCircuitData, VerifierCircuitData}
use plonky.Serialization.{ok, io_error}
use plonky.Serialization.Encodes.{Encodes, Encodes-bind, Encodes-map, round_trip, proper_prefix}
use plonky.Serialization.Hashes.{HashBytes}
use plonky.Serialization.CommonData.{GateSerializer}
use plonky.Serialization.CommonData.RoundTrip.{IsCommonCircuitData, Encodes-common_circuit_data}
use plonky.Serialization.Circuits.{
  WitnessGeneratorSerializer, read_circuit_data, write_circuit_data, read_prover_circuit_data,
  write_prover_circuit_data, read_verifier_circuit_data, write_verifier_circuit_data,
}
use plonky.Serialization.Circuits.RoundTrip.{
  IsVerifierOnlyCircuitData, Encodes-verifier_only, IsProverOnlyCircuitData, Encodes-prover_only,
}

module _ {G W H : Type 0} (hb : HashBytes H) (ws : WitnessGeneratorSerializer G W)
    (gs : GateSerializer G) where
  pub record IsCircuitData (c : CircuitData G W H) : Type 0 where
    pub prover_only : IsProverOnlyCircuitData hb ws c.common c.prover_only
    pub verifier_only : IsVerifierOnlyCircuitData hb c.verifier_only
    pub common_data : IsCommonCircuitData gs c.common

  Encodes-circuit_data :
      (c : CircuitData G W H)
      → IsCircuitData c
      → Encodes (read_circuit_data hb ws gs) c (write_circuit_data hb ws gs c)
  unfolding read_circuit_data write_circuit_data
  Encodes-circuit_data c h =
      Encodes-bind _ (Encodes-common_circuit_data gs c.common h.common_data) (
        Encodes-bind _ (Encodes-prover_only hb ws c.common c.prover_only h.prover_only)
          (Encodes-map _ (Encodes-verifier_only hb c.verifier_only h.verifier_only)))

  -- The data of a circuit whose sizes a `u64` holds, whose field elements are canonical, whose map
  -- is in the order of its keys and whose gates and generators the serializers read back, is written
  -- without a panic, and what is written, with any bytes after it, is read back as the same data,
  -- those bytes being left over.
  pub read-write_circuit_data :
      (c : CircuitData G W H) (rest : List ℕ)
      → IsCircuitData c
      → (bytes : List ℕ) × (write_circuit_data hb ws gs c ≡ some bytes)
        × (read_circuit_data hb ws gs (bytes ++ rest) ≡ ok (c, rest))
  read-write_circuit_data c rest h = round_trip (Encodes-circuit_data c h) rest

  -- From a proper prefix of the bytes of such a circuit the reader returns an input error.
  pub read-truncated_circuit_data :
      (c : CircuitData G W H) (front back : List ℕ) (byte : ℕ)
      → IsCircuitData c
      → write_circuit_data hb ws gs c ≡ some (front ++ (byte ∷ back))
      → read_circuit_data hb ws gs front ≡ io_error
  read-truncated_circuit_data c front back byte h w =
      proper_prefix (Encodes-circuit_data c h) front back byte w

  pub record IsProverCircuitData (p : ProverCircuitData G W H) : Type 0 where
    pub prover_only : IsProverOnlyCircuitData hb ws p.common p.prover_only
    pub common_data : IsCommonCircuitData gs p.common

  Encodes-prover_circuit_data :
      (p : ProverCircuitData G W H)
      → IsProverCircuitData p
      → Encodes (read_prover_circuit_data hb ws gs) p (write_prover_circuit_data hb ws gs p)
  unfolding read_prover_circuit_data write_prover_circuit_data
  Encodes-prover_circuit_data p h =
      Encodes-bind _ (Encodes-common_circuit_data gs p.common h.common_data)
        (Encodes-map _ (Encodes-prover_only hb ws p.common p.prover_only h.prover_only))

module _ {G H : Type 0} (hb : HashBytes H) (gs : GateSerializer G) where
  pub record IsVerifierCircuitData (v : VerifierCircuitData G H) : Type 0 where
    pub verifier_only : IsVerifierOnlyCircuitData hb v.verifier_only
    pub common_data : IsCommonCircuitData gs v.common

  Encodes-verifier_circuit_data :
      (v : VerifierCircuitData G H)
      → IsVerifierCircuitData v
      → Encodes (read_verifier_circuit_data hb gs) v (write_verifier_circuit_data hb gs v)
  unfolding read_verifier_circuit_data write_verifier_circuit_data
  Encodes-verifier_circuit_data v h =
      Encodes-bind _ (Encodes-verifier_only hb v.verifier_only h.verifier_only)
        (Encodes-map _ (Encodes-common_circuit_data gs v.common h.common_data))

  -- The data of a verifier, of sizes that a `u64` holds and with gates that the serializer reads
  -- back, is written without a panic, and what is written, with any bytes after it, is read back as
  -- the same data, those bytes being left over.
  pub read-write_verifier_circuit_data :
      (v : VerifierCircuitData G H) (rest : List ℕ)
      → IsVerifierCircuitData v
      → (bytes : List ℕ) × (write_verifier_circuit_data hb gs v ≡ some bytes)
        × (read_verifier_circuit_data hb gs (bytes ++ rest) ≡ ok (v, rest))
  read-write_verifier_circuit_data v rest h = round_trip (Encodes-verifier_circuit_data v h) rest
