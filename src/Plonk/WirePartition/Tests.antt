-- ===== src/Plonk/WirePartition/Tests.antt =====
-- A forest of two rows with three routed wires each: the wires (0, 0), (0, 2) and (1, 1) are one
-- set, and the others are alone.
use plonky.Common.{◌*◌, ◌≡◌, refl, some, List, [], ◌∷◌}
use plonky.Plonk.PermutationArgument.{Wire, Forest}
use plonky.Plonk.WirePartition.{wire_at, wire_partition, get_sigma_map, get_sigma_polys}

abbrev small : Forest
small = record {
  parents = 0 ∷ 1 ∷ 0 ∷ 3 ∷ 0 ∷ 5 ∷ [];
  num_wires = 3;
  num_routed_wires = 3;
  degree = 2;
}

abbrev sets : List (List Wire)
sets =
    (wire_at 0 0 ∷ wire_at 0 2 ∷ wire_at 1 1 ∷ [])
    ∷ (wire_at 0 1 ∷ [])
    ∷ (wire_at 1 0 ∷ [])
    ∷ (wire_at 1 2 ∷ [])
    ∷ []

wire_partition-small : wire_partition small ≡ some sets
unfolding wire_partition
wire_partition-small = refl

get_sigma_map-sets : get_sigma_map sets 2 3 ≡ some (4 ∷ 1 ∷ 2 ∷ 0 ∷ 3 ∷ 5 ∷ [])
unfolding get_sigma_map
get_sigma_map-sets = refl

get_sigma_polys-sets :
    get_sigma_polys ◌*◌ sets 1 (10 ∷ 100 ∷ 1000 ∷ []) (1 ∷ 7 ∷ [])
    ≡ some ((1000 ∷ 70 ∷ []) ∷ (100 ∷ 10 ∷ []) ∷ (700 ∷ 7000 ∷ []) ∷ [])
unfolding get_sigma_polys
get_sigma_polys-sets = refl
