-- ===== src/Serialization/CommonData/RoundTrip.antt =====
-- plonky2/src/util/serialization/mod.rs: the common data of a circuit is read as it was written.
use plonky.Plonk.CircuitData.{CommonCircuitData}
use plonky.Serialization.Encodes.{Encodes, Encodes-bind, Encodes-map}
use plonky.Serialization.Words.{Encodes-usize, Encodes-vec, IsUsize, IsField, IsVec}
use plonky.Serialization.Hashes.RoundTrip.{Encodes-field_row}
use plonky.Serialization.Configs.RoundTrip.{
  IsCircuitConfig, Encodes-circuit_config, IsFriParams, Encodes-fri_params, IsSelectorsInfo,
  Encodes-selectors_info, IsLut, Encodes-lut,
}
use plonky.Serialization.CommonData.{
  GateSerializer, without_gates, read_common_fields, write_common_fields, read_common_circuit_data,
  write_common_circuit_data,
}

module _ {G : Type 0} where
  pub record IsCommonFields (c : CommonCircuitData G) : Type 0 where
    pub config : IsCircuitConfig c.config
    pub fri_params : IsFriParams c.fri_params
    pub selectors_info : IsSelectorsInfo c.selectors_info
    pub quotient_degree_factor : IsUsize c.quotient_degree_factor
    pub num_gate_constraints : IsUsize c.num_gate_constraints
    pub num_constants : IsUsize c.num_constants
    pub num_public_inputs : IsUsize c.num_public_inputs
    pub k_is : IsVec IsField c.k_is
    pub num_partial_products : IsUsize c.num_partial_products
    pub num_lookup_polys : IsUsize c.num_lookup_polys
    pub num_lookup_selectors : IsUsize c.num_lookup_selectors
    pub luts : IsVec IsLut c.luts

  Encodes-common_fields :
      (c : CommonCircuitData G)
      → IsCommonFields c
      → Encodes read_common_fields (without_gates c) (write_common_fields c)
  unfolding read_common_fields write_common_fields without_gates
  Encodes-common_fields c h = Encodes-bind _ (Encodes-circuit_config c.config h.config) (
      Encodes-bind _ (Encodes-fri_params c.fri_params h.fri_params) (
        Encodes-bind _ (Encodes-selectors_info c.selectors_info h.selectors_info) (
          Encodes-bind _ (Encodes-usize h.quotient_degree_factor) (
            Encodes-bind _ (Encodes-usize h.num_gate_constraints) (
              Encodes-bind _ (Encodes-usize h.num_constants) (
                Encodes-bind _ (Encodes-usize h.num_public_inputs) (
                  Encodes-bind _ (Encodes-field_row c.k_is h.k_is) (
                    Encodes-bind _ (Encodes-usize h.num_partial_products) (
                      Encodes-bind _ (Encodes-usize h.num_lookup_polys) (
                        Encodes-bind _ (Encodes-usize h.num_lookup_selectors)
                          (Encodes-map _ (Encodes-vec IsLut Encodes-lut c.luts h.luts))))))))))))

  module _ (gs : GateSerializer G) where
    -- The serializer reads a gate of the circuit from what it writes for it, although it is given the
    -- common data without gates then.
    abbrev pub IsGate : CommonCircuitData G → G → Type 0
    IsGate c gate = Encodes (gs.read_gate (without_gates c)) gate (gs.write_gate gate c)

    pub record IsCommonCircuitData (c : CommonCircuitData G) : Type 0 where
      pub fields : IsCommonFields c
      pub gates : IsVec (IsGate c) c.gates

    pub Encodes-common_circuit_data :
        (c : CommonCircuitData G)
        → IsCommonCircuitData c
        → Encodes (read_common_circuit_data gs) c (write_common_circuit_data c gs)
    unfolding read_common_circuit_data write_common_circuit_data without_gates
    Encodes-common_circuit_data c h =
        Encodes-bind _ (Encodes-common_fields c h.fields)
          (Encodes-map _ (Encodes-vec (IsGate c) (λ gate hg. hg) c.gates h.gates))
