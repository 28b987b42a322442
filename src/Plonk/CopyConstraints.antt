-- ===== src/Plonk/CopyConstraints.antt =====
-- plonky2/src/plonk/circuit_builder.rs: `sigma_vecs`, which makes the permutation of the wires from
-- the copy constraints. `none` is a panic.
pub mod Rows
pub mod Targets
pub mod Correct
pub mod Values
mod Tests
use plonky.Common.{ℕ, zero, suc, ◌+◌, Option, none, some, List, [], ◌∷◌, length, ◌>>=◌}
use plonky.Util.{log2_strict}
use plonky.Plonk.PermutationArgument.{
  Target, wire, virtual_target, Forest, add, merge, compress_paths,
}
use plonky.Plonk.PermutationArgument
use plonky.Plonk.WirePartition.{wire_at, wire_partition, get_sigma_polys}

-- What `sigma_vecs` reads of the builder and its configuration; `degree` is the number of gate
-- instances, and a copy constraint is its pair of targets.
pub record Circuit : Type 0 where
  pub num_wires : ℕ
  pub num_routed_wires : ℕ
  pub degree : ℕ
  pub virtual_target_index : ℕ
  pub copy_constraints : List (Target × Target)

-- `for input in input..input + left`
unfoldable pub add_wires : ℕ → ℕ → ℕ → Forest → Option Forest
unfolding add
add_wires zero gate input forest = some forest
add_wires (suc left) gate input forest = do
  forest' ← add forest (wire (wire_at gate input))
  add_wires left gate (suc input) forest'

unfoldable pub add_gates : ℕ → ℕ → ℕ → Forest → Option Forest
unfolding add_wires
add_gates zero gate num_wires forest = some forest
add_gates (suc left) gate num_wires forest = do
  forest' ← add_wires num_wires gate 0 forest
  add_gates left (suc gate) num_wires forest'

unfoldable pub add_virtual_targets : ℕ → ℕ → Forest → Option Forest
unfolding add
add_virtual_targets zero index forest = some forest
add_virtual_targets (suc left) index forest = do
  forest' ← add forest (virtual_target index)
  add_virtual_targets left (suc index) forest'

unfoldable pub merge_all : List (Target × Target) → Forest → Option Forest
unfolding merge
merge_all [] forest = some forest
merge_all ((a, b) ∷ constraints) forest = do
  forest' ← merge forest a b
  merge_all constraints forest'

-- `sigma_vecs` up to the compressed forest.
unfoldable pub constraint_forest : Circuit → Option Forest
unfolding add_gates add_virtual_targets merge_all compress_paths PermutationArgument.new
constraint_forest c = do
  let forest = PermutationArgument.new c.num_wires c.num_routed_wires c.degree
  with_wires ← add_gates c.degree 0 c.num_wires forest
  with_targets ← add_virtual_targets c.virtual_target_index 0 with_wires
  merged ← merge_all c.copy_constraints with_targets
  compress_paths merged

unfoldable pub sigma_vecs :
    {F : Type 0} → (F → F → F) → Circuit → List F → List F → Option (List (List F) × Forest)
unfolding constraint_forest wire_partition get_sigma_polys log2_strict
sigma_vecs mul c k_is subgroup = do
  degree_log ← log2_strict c.degree
  forest ← constraint_forest c
  partition ← wire_partition forest
  polys ← get_sigma_polys mul partition degree_log k_is subgroup
  some (polys, forest)
