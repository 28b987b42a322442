-- ===== src/Plonk/WirePartition.antt =====
-- plonky2/src/plonk/permutation_argument.rs: `wire_partition`, `get_sigma_map` and
-- `get_sigma_polys`. A `HashMap` is a list of entries in the order of their first insertion, where
-- its values are taken, and a function, where it is only looked up. `none` is an index out of range
-- or a missing key.
pub mod Grid
pub mod Groups
pub mod Neighbors
pub mod Columns
pub mod Sigma
pub mod Orbits
pub mod Polys
mod Tests
use plonky.Common.{
  ℕ, zero, suc, ◌+◌, ◌*◌, ◌/◌, ◌%◌, ◌^◌, Bool, ◌&&◌, Option, none, some, List, [], ◌∷◌, ◌++◌, map,
  length, get_elem?, ◌==◌, if◌then◌else◌, traverse, take, drop, ◌>>=◌,
}
use plonky.Hash.Sponge.{chunks}
use plonky.Plonk.PermutationArgument.{Wire, wire, Forest, target_index}

-- `i..i + left`
abbrev pub range : ℕ → ℕ → List ℕ
range zero i = []
range (suc left) i = i ∷ range left (suc i)

abbrev pub wire_at : ℕ → ℕ → Wire
wire_at row column = record { row = row; column = column }

-- The wires of the two loops of `wire_partition`, in their order.
unfoldable pub row_wires : ℕ → List ℕ → List Wire
row_wires row [] = []
row_wires row (column ∷ columns) = wire_at row column ∷ row_wires row columns

unfoldable pub grid : List ℕ → List ℕ → List Wire
unfolding row_wires
grid [] columns = []
grid (row ∷ rows) columns = row_wires row columns ++ grid rows columns

-- `partition.entry(parent).or_default().push(w)`
unfoldable pub push_entry : ℕ → Wire → List (ℕ × List Wire) → List (ℕ × List Wire)
push_entry parent w [] = (parent, w ∷ []) ∷ []
push_entry parent w ((k, ws) ∷ entries) =
    if k == parent then (k, ws ++ (w ∷ [])) ∷ entries else (k, ws) ∷ push_entry parent w entries

unfoldable pub group : Forest → List Wire → List (ℕ × List Wire) → Option (List (ℕ × List Wire))
unfolding push_entry
group forest [] entries = some entries
group forest (w ∷ wires) entries = do
  x_parent ← get_elem? forest.parents (target_index forest (wire w))
  group forest wires (push_entry x_parent w entries)

unfoldable pub wire_partition : Forest → Option (List (List Wire))
unfolding group grid target_index
wire_partition forest = do
  entries ← group forest (grid (range forest.degree 0) (range forest.num_routed_wires 0)) []
  some (map (λ e. e.1) entries)

abbrev pub Neighbors : Type 0
Neighbors = Wire → Option Wire

abbrev pub wire_eq : Wire → Wire → Bool
wire_eq u w = u.row == w.row && u.column == w.column

unfoldable pub insert_neighbor : Wire → Wire → Neighbors → Neighbors
insert_neighbor w v neighbors = λ u. if wire_eq u w then some v else neighbors u

-- The loop over one subset, from `n` on.
unfoldable pub subset_neighbors : ℕ → ℕ → List Wire → Neighbors → Option Neighbors
unfolding insert_neighbor
subset_neighbors zero n subset neighbors = some neighbors
subset_neighbors (suc left) n subset neighbors = do
  w ← get_elem? subset n
  v ← get_elem? subset ((n + 1) % length subset)
  subset_neighbors left (suc n) subset (insert_neighbor w v neighbors)

unfoldable pub all_neighbors : List (List Wire) → Neighbors → Option Neighbors
unfolding subset_neighbors
all_neighbors [] neighbors = some neighbors
all_neighbors (subset ∷ partition) neighbors = do
  neighbors' ← subset_neighbors (length subset) 0 subset neighbors
  all_neighbors partition neighbors'

unfoldable pub sigma_column : Neighbors → ℕ → ℕ → List ℕ → Option (List ℕ)
sigma_column neighbors degree column [] = some []
sigma_column neighbors degree column (row ∷ rows) = do
  neighbor ← neighbors (wire_at row column)
  sigma ← sigma_column neighbors degree column rows
  some ((neighbor.column * degree + neighbor.row) ∷ sigma)

unfoldable pub sigma_columns : Neighbors → ℕ → List ℕ → Option (List ℕ)
unfolding sigma_column
sigma_columns neighbors degree [] = some []
sigma_columns neighbors degree (column ∷ columns) = do
  sigma ← sigma_column neighbors degree column (range degree 0)
  rest ← sigma_columns neighbors degree columns
  some (sigma ++ rest)

unfoldable pub get_sigma_map : List (List Wire) → ℕ → ℕ → Option (List ℕ)
unfolding all_neighbors sigma_columns
get_sigma_map partition degree num_routed_wires = do
  neighbors ← all_neighbors partition (λ _. none)
  sigma_columns neighbors degree (range num_routed_wires 0)

module _ {F : Type 0} (mul : F → F → F) where
  -- The value of `sigma` at one place: an element of a coset of the subgroup.
  unfoldable pub sigma_value : ℕ → List F → List F → ℕ → Option F
  sigma_value degree k_is subgroup x = do
    k ← get_elem? k_is (x / degree)
    g ← get_elem? subgroup (x % degree)
    some (mul k g)

  unfoldable pub get_sigma_polys : List (List Wire) → ℕ → List F → List F → Option (List (List F))
  unfolding get_sigma_map sigma_value chunks
  get_sigma_polys partition degree_log k_is subgroup =
      let degree = 2 ^ degree_log in
      do
        sigma ← get_sigma_map partition degree (length k_is)
        traverse (traverse (sigma_value degree k_is subgroup)) (chunks (length sigma) degree sigma)
