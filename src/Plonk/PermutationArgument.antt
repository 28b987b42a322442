-- ===== src/Plonk/PermutationArgument.antt =====
-- plonky2/src/plonk/permutation_argument.rs, with the indices of plonky2/src/iop/target.rs: the
-- disjoint-set forest of the copy constraints. `none` is an index out of range, a failed assertion,
-- or a loop that has not ended within its fuel.
pub mod Chains
pub mod Bounds
pub mod Find
pub mod Merge
pub mod Connected
pub mod Flat
mod Tests
use plonky.Common.{
  ℕ, zero, suc, ◌+◌, ◌*◌, Bool, true, false, Option, none, some, List, [], ◌∷◌, ◌++◌, length,
  get_elem?, set, ◌==◌, if◌then◌else◌, assert, ◌>>=◌, ◌>>◌,
}

pub record Wire : Type 0 where
  pub row : ℕ
  pub column : ℕ

pub data Target : Type 0 where
  wire : Wire → Target
  virtual_target : ℕ → Target

-- `Target::index`
unfoldable pub index : Target → ℕ → ℕ → ℕ
index (wire w) num_wires degree = w.row * num_wires + w.column
index (virtual_target i) num_wires degree = degree * num_wires + i

pub record Forest : Type 0 where
  pub parents : List ℕ
  pub num_wires : ℕ
  pub num_routed_wires : ℕ
  pub degree : ℕ

unfoldable pub new : ℕ → ℕ → ℕ → Forest
new num_wires num_routed_wires degree = record {
  parents = [];
  num_wires = num_wires;
  num_routed_wires = num_routed_wires;
  degree = degree;
}

unfoldable pub target_index : Forest → Target → ℕ
unfolding index
target_index forest target = index target forest.num_wires forest.degree

abbrev pub with_parents : Forest → List ℕ → Forest
with_parents forest parents = record {
  parents = parents;
  num_wires = forest.num_wires;
  num_routed_wires = forest.num_routed_wires;
  degree = forest.degree;
}

unfoldable pub add : Forest → Target → Option Forest
unfolding target_index
add forest t = do
  assert (target_index forest t == length forest.parents)
  some (with_parents forest (forest.parents ++ (length forest.parents ∷ [])))

-- The first loop of `find`: the representative.
unfoldable pub find_representative : ℕ → List ℕ → ℕ → Option ℕ
find_representative zero parents x_index = none
find_representative (suc fuel) parents x_index = do
  parent ← get_elem? parents x_index
  let rest = find_representative fuel parents parent
  if parent == x_index then some x_index else rest

-- The second loop: the nodes of the chain point to the representative.
unfoldable pub compress_chain : ℕ → List ℕ → ℕ → ℕ → Option (List ℕ)
compress_chain zero parents x_index representative = none
compress_chain (suc fuel) parents x_index representative = do
  old_parent ← get_elem? parents x_index
  let rest = compress_chain fuel (set parents x_index representative) old_parent representative
  if old_parent == x_index then some parents else rest

-- A chain without a cycle has no more nodes than the forest.
unfoldable pub find : List ℕ → ℕ → Option (List ℕ × ℕ)
find parents x_index = do
  representative ← find_representative (length parents + 1) parents x_index
  parents' ← compress_chain (length parents + 2) parents x_index representative
  some (parents', representative)

unfoldable pub merge : Forest → Target → Target → Option Forest
merge forest tx ty = do
  (parents, x_index) ← find forest.parents (target_index forest tx)
  (parents', y_index) ← find parents (target_index forest ty)
  let merged = set parents' y_index x_index
  some (with_parents forest (if x_index == y_index then parents' else merged))

-- `compress_paths`, for the `left` nodes from `i` on.
unfoldable pub compress_from : ℕ → ℕ → List ℕ → Option (List ℕ)
compress_from zero i parents = some parents
compress_from (suc left) i parents = do
  (parents', representative) ← find parents i
  compress_from left (i + 1) parents'

unfoldable pub compress_paths : Forest → Option Forest
compress_paths forest = do
  parents ← compress_from (length forest.parents) 0 forest.parents
  some (with_parents forest parents)
