-- ===== src/Plonk/CopyConstraints/Tests.antt =====
-- A circuit of two gates with three wires each, two of them routed, and one virtual target that
-- links the wires (0, 0) and (1, 1).
use plonky.Common.{ℕ, ◌*◌, ◌<◌, ◌≡◌, ◌↔◌, refl, arith, some, List, [], ◌∷◌, get_elem?}
use plonky.Plonk.PermutationArgument.{
  Wire, wire, virtual_target, Forest, find, find_representative, compress_chain, compress_from,
}
use plonky.Common.Words.{trailing_zeros}
use plonky.Plonk.WirePartition.{wire_at, wire_partition, get_sigma_map}
use plonky.Plonk.WirePartition.Columns.{position}
use plonky.Plonk.WirePartition.Orbits.{iterate}
use plonky.Plonk.CopyConstraints.{Circuit, constraint_forest, sigma_vecs}
use plonky.Plonk.CopyConstraints.Targets.{Copied}
use plonky.Plonk.CopyConstraints.Values.{sigma_vecs-values}
use plonky.Plonk.CopyConstraints.Correct.{IsCircuit}

abbrev two_gates : Circuit
two_gates = record {
  num_wires = 3;
  num_routed_wires = 2;
  degree = 2;
  virtual_target_index = 1;
  copy_constraints =
      (wire (wire_at 0 0), virtual_target 0) ∷ (wire (wire_at 1 1), virtual_target 0) ∷ [];
}

abbrev linked : Forest
linked = record {
  parents = 4 ∷ 1 ∷ 2 ∷ 3 ∷ 4 ∷ 5 ∷ 4 ∷ [];
  num_wires = 3;
  num_routed_wires = 2;
  degree = 2;
}

constraint_forest-two_gates : constraint_forest two_gates ≡ some linked
unfolding constraint_forest find find_representative compress_chain compress_from
constraint_forest-two_gates = refl

sigma_vecs-two_gates :
    sigma_vecs ◌*◌ two_gates (10 ∷ 100 ∷ []) (1 ∷ 7 ∷ [])
    ≡ some ((700 ∷ 70 ∷ []) ∷ (100 ∷ 10 ∷ []) ∷ [], linked)
unfolding sigma_vecs trailing_zeros find find_representative compress_chain compress_from
sigma_vecs-two_gates = refl

abbrev two_gates-IsCircuit : IsCircuit two_gates
two_gates-IsCircuit = record {
  routed_wires = omega arith;
  constrained =
      (((omega arith, omega arith), omega arith), (((omega arith, omega arith), omega arith), tt));
}

sigma_vecs-values_example :
    (polys : List (List ℕ)) × (forest : Forest) × (partition : List (List Wire)) × (sigma : List ℕ)
    × (sigma_vecs ◌*◌ two_gates (10 ∷ 100 ∷ []) (1 ∷ 7 ∷ []) ≡ some (polys, forest))
    × (wire_partition forest ≡ some partition)
    × (get_sigma_map partition 2 2 ≡ some sigma)
    × ((u v : Wire)
        → u.row < 2
        → u.column < 2
        → v.row < 2
        → v.column < 2
        → ((t : ℕ) × (iterate t sigma (position 2 u) ≡ some (position 2 v)))
          ↔ Copied two_gates.copy_constraints (wire u) (wire v))
    × ((u v : Wire)
        → u.row < 2
        → u.column < 2
        → v.row < 2
        → v.column < 2
        → get_elem? sigma (position 2 u) ≡ some (position 2 v)
        → (poly : List ℕ) × (k g : ℕ) × (get_elem? polys u.column ≡ some poly)
          × (get_elem? (10 ∷ 100 ∷ []) v.column ≡ some k)
          × (get_elem? (1 ∷ 7 ∷ []) v.row ≡ some g)
          × (get_elem? poly u.row ≡ some (k * g)))
sigma_vecs-values_example =
    sigma_vecs-values ◌*◌ two_gates 1 (10 ∷ 100 ∷ []) (1 ∷ 7 ∷ []) two_gates-IsCircuit (omega arith)
      refl refl refl
