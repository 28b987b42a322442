-- ===== src/Plonk/CopyConstraints/Correct.antt =====
-- plonky2/src/plonk/circuit_builder.rs: the cycles of the permutation that `sigma_vecs` makes are
-- the sets of wires that the copy constraints connect.
use plonky.Common.{
  ℕ, ◌+◌, ◌*◌, ◌≤◌, ◌<◌, ◌≡◌, ◌↔◌, refl, sym, ap, ◌∙◌, arith, ◌⊎◌, inl, inr, some, List, [], ◌∷◌,
  length, get_elem?, ◌>>=◌, >>=-assoc,
}
use plonky.Plonk.PermutationArgument.{
  Target, Wire, wire, Forest, index, target_index, merge, with_parents, compress_paths,
}
use plonky.Plonk.PermutationArgument
use plonky.Plonk.PermutationArgument.Connected.{
  IsMerged, merge-IsMerged, Edge, Connected, Connected-mono, Connected-root,
}
use plonky.Plonk.PermutationArgument.Flat.{compress_paths-flat}
use plonky.Plonk.WirePartition.{wire_partition, get_sigma_map}
use plonky.Plonk.WirePartition.Grid.{In, grid-In, In-grid}
use plonky.Plonk.WirePartition.Sigma.{routed}
use plonky.Plonk.WirePartition.Columns.{position}
use plonky.Plonk.WirePartition.Orbits.{iterate, get_sigma_map-orbits}
use plonky.Plonk.CopyConstraints.{
  Circuit, merge_all, constraint_forest, add_gates, add_virtual_targets,
}
use plonky.Plonk.CopyConstraints.Rows.{iota, length-iota, iota-IsMerged, targets-iota}
use plonky.Plonk.CopyConstraints.Targets.{
  Constraints, IsTarget, AreTargets, IsTarget-index, pairs, Copied, Copied-Connected,
  Connected-Copied,
}

-- The pairs that were merged, the last one first.
pushed : List (ℕ × ℕ) → List (ℕ × ℕ) → List (ℕ × ℕ)
pushed [] edges = edges
pushed (e ∷ es) edges = pushed es (e ∷ edges)

pushed-Edge :
    (es edges : List (ℕ × ℕ)) (u v : ℕ) → Edge (pushed es edges) u v → Edge es u v ⊎ Edge edges u v
unfolding pushed
pushed-Edge [] edges u v h = inr h
pushed-Edge ((a, b) ∷ es) edges u v h = elim (pushed-Edge es ((a, b) ∷ edges) u v h) [
  | inl there ↦ inl (inr there)
  | inr (inl here) ↦ inl (inl here)
  | inr (inr before) ↦ inr before
]

Edge-pushed :
    (es edges : List (ℕ × ℕ)) (u v : ℕ) → Edge es u v ⊎ Edge edges u v → Edge (pushed es edges) u v
unfolding pushed
Edge-pushed [] edges u v (inl h) = absurd h
Edge-pushed [] edges u v (inr h) = h
Edge-pushed ((a, b) ∷ es) edges u v (inl (inl here)) =
    Edge-pushed es ((a, b) ∷ edges) u v (inr (inl here))
Edge-pushed ((a, b) ∷ es) edges u v (inl (inr there)) =
    Edge-pushed es ((a, b) ∷ edges) u v (inl there)
Edge-pushed ((a, b) ∷ es) edges u v (inr before) =
    Edge-pushed es ((a, b) ∷ edges) u v (inr (inr before))

-- All constraints merged.
merge_all-IsMerged :
    (forest : Forest) (num_virtual : ℕ) (constraints : Constraints) (ps : List ℕ)
    (edges : List (ℕ × ℕ))
    → length ps ≡ num_virtual + forest.degree * forest.num_wires
    → AreTargets forest.num_wires forest.degree num_virtual constraints
    → IsMerged ps edges
    → (ps' : List ℕ) × (merge_all constraints (with_parents forest ps)
        ≡ some (with_parents forest ps'))
      × (length ps' ≡ length ps)
      × IsMerged ps' (pushed (pairs forest.num_wires forest.degree num_virtual constraints) edges)
unfolding merge_all pairs pushed target_index
merge_all-IsMerged forest num_virtual [] ps edges len h m = (ps, refl, refl, m)
merge_all-IsMerged forest num_virtual ((a, b) ∷ constraints) ps edges len ((ta, tb), h) m =
    let low = IsTarget-index forest.num_wires forest.degree num_virtual a ta in
    let high = IsTarget-index forest.num_wires forest.degree num_virtual b tb in
    let (ps1, run1, len1, m1) =
      merge-IsMerged (with_parents forest ps) a b edges (omega (arith, low, len))
        (omega (arith, high, len)) m in
    let (ps', run, len', m') =
      merge_all-IsMerged forest num_virtual constraints ps1 _ (len1 ∙ len) h m1 in
    (ps', rw run1 run, len' ∙ len1, m')

-- The circuit's targets are numbered by its tables.
pub record IsCircuit (c : Circuit) : Type 0 where
  pub routed_wires : c.num_routed_wires ≤ c.num_wires
  pub constrained : AreTargets c.num_wires c.degree c.virtual_target_index c.copy_constraints

abbrev frame : Circuit → Forest
frame c = record {
  parents = [];
  num_wires = c.num_wires;
  num_routed_wires = c.num_routed_wires;
  degree = c.degree;
}

-- The forest of a circuit: the parent of each target is a root, the same for two targets when the
-- constraints connect their indices.
constraint_forest-flat :
    (c : Circuit)
    → IsCircuit c
    → (ps : List ℕ) × (root : ℕ → ℕ) × (constraint_forest c ≡ some (with_parents (frame c) ps))
      × ((z : ℕ)
          → z < c.virtual_target_index + c.degree * c.num_wires
          → get_elem? ps z ≡ some (root z))
      × ((u v : ℕ)
          → (root u ≡ root v)
            ↔ Connected (pairs c.num_wires c.degree c.virtual_target_index c.copy_constraints) u v)
unfolding constraint_forest PermutationArgument.new
constraint_forest-flat c valid =
    let start = frame c in
    let n = c.virtual_target_index + c.degree * c.num_wires in
    let rest = λ (f : Forest). merge_all c.copy_constraints f >>= λ merged. compress_paths merged in
    let es = pairs c.num_wires c.degree c.virtual_target_index c.copy_constraints in
    let (ps, run, len, m) =
      merge_all-IsMerged start c.virtual_target_index c.copy_constraints (iota n) [] (length-iota n)
        valid.constrained (iota-IsMerged n) in
    let (ps', run', len', parents) = compress_paths-flat (with_parents start ps) m.root m.leads in
    (
      ps',
      m.root,
      sym (
            >>=-assoc (add_gates c.degree 0 c.num_wires start)
              (λ f. add_virtual_targets c.virtual_target_index 0 f) rest)
          ∙ ap (λ o. o >>= rest) (targets-iota start c.virtual_target_index)
          ∙ ap (λ o. o >>= λ merged. compress_paths merged) run
          ∙ run',
      λ z lt. parents z (omega (arith, lt, len, length-iota n)),
      λ u v. (
        λ e.
            Connected-mono
              (λ x y h. elim (pushed-Edge es [] x y h) [ inl a ↦ a | inr b ↦ absurd b ])
              (m.connects u v e),
        λ k. Connected-root m.root (λ x y h. m.joins x y (Edge-pushed es [] x y (inl h))) k,
      ),
    )

routed-IsTarget :
    (c : Circuit) (w : Wire)
    → c.num_routed_wires ≤ c.num_wires
    → In w (routed (frame c))
    → IsTarget c.num_wires c.degree c.virtual_target_index (wire w)
routed-IsTarget c w le inside =
    let (_, row, column) = grid-In c.degree 0 c.num_routed_wires w inside in
    (omega (arith, row), omega (arith, column, le))

-- For a circuit whose copy constraints are between its own targets: the forest, the partition of
-- its routed wires and `sigma` are made without a panic, `sigma` has as many entries as there are
-- routed wires, each below their number, and of two routed wires the second is reached from the
-- first by following `sigma` exactly when a chain of copy constraints connects them.
pub sigma_map-Copied :
    (c : Circuit)
    → IsCircuit c
    → (forest : Forest) × (partition : List (List Wire)) × (sigma : List ℕ) × (constraint_forest c
        ≡ some forest)
      × (wire_partition forest ≡ some partition)
      × (get_sigma_map partition c.degree c.num_routed_wires ≡ some sigma)
      × (length sigma ≡ c.num_routed_wires * c.degree)
      × ((i x : ℕ) → get_elem? sigma i ≡ some x → x < c.num_routed_wires * c.degree)
      × ((u v : Wire)
          → u.row < c.degree
          → u.column < c.num_routed_wires
          → v.row < c.degree
          → v.column < c.num_routed_wires
          → ((t : ℕ) × (iterate t sigma (position c.degree u) ≡ some (position c.degree v)))
            ↔ Copied c.copy_constraints (wire u) (wire v))
unfolding target_index
sigma_map-Copied c valid =
    let (ps, root, made, parents, roots) = constraint_forest-flat c valid in
    let at = λ (w : Wire). index (wire w) c.num_wires c.degree in
    let target = λ (w : Wire) (inside : In w (routed (frame c))).
      routed-IsTarget c w valid.routed_wires inside in
    let (partition, sigma, run, run', len, below, orbits) =
      get_sigma_map-orbits (with_parents (frame c) ps) (λ w. root (at w))
        (λ w inside. parents (at w) (
          IsTarget-index c.num_wires c.degree c.virtual_target_index (wire w) (target w inside))) in
    (
      with_parents (frame c) ps,
      partition,
      sigma,
      made,
      run,
      run',
      len,
      below,
      λ u v ru cu rv cv.
          let in_u = In-grid c.degree 0 c.num_routed_wires u (omega arith) (omega (arith, ru)) cu in
          let in_v = In-grid c.degree 0 c.num_routed_wires v (omega arith) (omega (arith, rv)) cv in
          (
            λ reached.
                Connected-Copied c.num_wires c.degree c.virtual_target_index c.copy_constraints
                  valid.constrained ((roots (at u) (at v)).0 ((orbits u v in_u in_v).0 reached))
                  (wire u) (wire v) (target u in_u) (target v in_v) refl refl,
            λ copied. (orbits u v in_u in_v).1 (
                (roots (at u) (at v)).1 (
                  Copied-Connected c.num_wires c.degree c.virtual_target_index c.copy_constraints
                    copied)),
          ),
    )
