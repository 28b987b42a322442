-- ===== src/Serialization/CommonData.antt =====
-- plonky2/src/util/serialization/mod.rs: the common data of a circuit. Gates are read and written by
-- the `GateSerializer` of the caller.
pub mod RoundTrip
use plonky.Common.{ℕ, Option, List, []}
use plonky.Plonk.CircuitData.{CommonCircuitData}
use plonky.Serialization.{Reader, ◌>>=◌, ret, ◌⊕◌, read_usize, write_usize, read_vec, write_vec}
use plonky.Serialization.Hashes.{read_field_row, write_field_row}
use plonky.Serialization.Configs.{
  read_circuit_config, write_circuit_config, read_fri_params, write_fri_params, read_selectors_info,
  write_selectors_info, read_lut, write_lut,
}

-- The gate serializer of the caller.
pub record GateSerializer (G : Type 0) : Type 0 where
  pub read_gate : CommonCircuitData G → Reader G
  pub write_gate : G → CommonCircuitData G → Option (List ℕ)

module _ {G : Type 0} where
  unfoldable pub without_gates : CommonCircuitData G → CommonCircuitData G
  without_gates c = record c { gates = [] }

  -- All fields but the gates, as in the local variable that is passed to `read_gate`.
  unfoldable pub read_common_fields : Reader (CommonCircuitData G)
  read_common_fields = do
    config ← read_circuit_config
    fri_params ← read_fri_params
    selectors_info ← read_selectors_info
    quotient_degree_factor ← read_usize
    num_gate_constraints ← read_usize
    num_constants ← read_usize
    num_public_inputs ← read_usize
    k_is ← read_field_row
    num_partial_products ← read_usize
    num_lookup_polys ← read_usize
    num_lookup_selectors ← read_usize
    luts ← read_vec read_lut
    ret (record {
      config = config;
      fri_params = fri_params;
      gates = [];
      selectors_info = selectors_info;
      quotient_degree_factor = quotient_degree_factor;
      num_gate_constraints = num_gate_constraints;
      num_constants = num_constants;
      num_public_inputs = num_public_inputs;
      k_is = k_is;
      num_partial_products = num_partial_products;
      num_lookup_polys = num_lookup_polys;
      num_lookup_selectors = num_lookup_selectors;
      luts = luts;
    })

  unfoldable pub write_common_fields : CommonCircuitData G → Option (List ℕ)
  write_common_fields c =
      write_circuit_config c.config
      ⊕ write_fri_params c.fri_params
      ⊕ write_selectors_info c.selectors_info
      ⊕ write_usize c.quotient_degree_factor
      ⊕ write_usize c.num_gate_constraints
      ⊕ write_usize c.num_constants
      ⊕ write_usize c.num_public_inputs
      ⊕ write_field_row c.k_is
      ⊕ write_usize c.num_partial_products
      ⊕ write_usize c.num_lookup_polys
      ⊕ write_usize c.num_lookup_selectors
      ⊕ write_vec write_lut c.luts

  -- The common data is passed without gates to the reader of a gate, and whole to its writer.
  unfoldable pub read_common_circuit_data : GateSerializer G → Reader (CommonCircuitData G)
  read_common_circuit_data gs = do
    common_data ← read_common_fields
    gates ← read_vec (gs.read_gate common_data)
    ret (record common_data { gates = gates })

  unfoldable pub write_common_circuit_data :
      CommonCircuitData G → GateSerializer G → Option (List ℕ)
  write_common_circuit_data c gs =
      write_common_fields c ⊕ write_vec (λ gate. gs.write_gate gate c) c.gates
