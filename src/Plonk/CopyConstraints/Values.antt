-- ===== src/Plonk/CopyConstraints/Values.antt =====
-- plonky2/src/plonk/circuit_builder.rs: the polynomials that `sigma_vecs` returns.
use native.Mathlib.Nat.{one-le-pow}
use plonky.Common.{
  ℕ, ◌*◌, ◌^◌, ◌<◌, ◌≡◌, ◌↔◌, refl, sym, ap, subst, ◌∙◌, arith, some, List, length, get_elem?,
}
use plonky.Common.Words.{u64_mod}
use plonky.Util.Logs.{log2_strict-eq-some_iff, pow-lt}
use plonky.Plonk.PermutationArgument.{Wire, wire, Forest}
use plonky.Plonk.WirePartition.{wire_partition, get_sigma_map}
use plonky.Plonk.WirePartition.Columns.{position}
use plonky.Plonk.WirePartition.Orbits.{iterate}
use plonky.Plonk.WirePartition.Polys.{get_sigma_polys-values}
use plonky.Plonk.CopyConstraints.{Circuit, sigma_vecs}
use plonky.Plonk.CopyConstraints.Targets.{Copied}
use plonky.Plonk.CopyConstraints.Correct.{IsCircuit, sigma_map-Copied}

-- For a circuit whose copy constraints are between its own targets, with `2 ^ degree_log` gates, a
-- coset shift for each routed wire and a subgroup with an element for each gate: `sigma_vecs` ends
-- without a panic and returns a forest and polynomials; the `sigma` of the forest has the sets of
-- routed wires that the copy constraints connect for its cycles; and at the row of a wire, the
-- polynomial of its column is the shift of the column times the element of the row of the wire to
-- which `sigma` leads.
pub sigma_vecs-values :
    {F : Type 0} (mul : F → F → F) (c : Circuit) (degree_log : ℕ) (k_is subgroup : List F)
    → IsCircuit c
    → degree_log < 64
    → c.degree ≡ 2 ^ degree_log
    → length k_is ≡ c.num_routed_wires
    → length subgroup ≡ c.degree
    → (polys : List (List F)) × (forest : Forest) × (partition : List (List Wire)) × (sigma : List
        ℕ)
      × (sigma_vecs mul c k_is subgroup ≡ some (polys, forest))
      × (wire_partition forest ≡ some partition)
      × (get_sigma_map partition c.degree c.num_routed_wires ≡ some sigma)
      × ((u v : Wire)
          → u.row < c.degree
          → u.column < c.num_routed_wires
          → v.row < c.degree
          → v.column < c.num_routed_wires
          → ((t : ℕ) × (iterate t sigma (position c.degree u) ≡ some (position c.degree v)))
            ↔ Copied c.copy_constraints (wire u) (wire v))
      × ((u v : Wire)
          → u.row < c.degree
          → u.column < c.num_routed_wires
          → v.row < c.degree
          → v.column < c.num_routed_wires
          → get_elem? sigma (position c.degree u) ≡ some (position c.degree v)
          → (poly : List F) × (k g : F) × (get_elem? polys u.column ≡ some poly)
            × (get_elem? k_is v.column ≡ some k)
            × (get_elem? subgroup v.row ≡ some g)
            × (get_elem? poly u.row ≡ some (mul k g)))
unfolding sigma_vecs
sigma_vecs-values mul c degree_log k_is subgroup valid small power shifts elements =
    let (forest, partition, sigma, made, parted, mapped, len, below, orbits) =
      sigma_map-Copied c valid in
    let log =
      (log2_strict-eq-some_iff c.degree degree_log
          (subst (λ d. d < u64_mod) (sym power) (pow-lt degree_log small))).1
        power in
    let pos : 0 < c.degree = omega (arith, power, one-le-pow degree_log 2 (omega arith)) in
    let size : c.num_routed_wires * c.degree ≡ length k_is * c.degree =
      ap (λ (t : ℕ). t * c.degree) (sym shifts) in
    let (polys, run, values) =
      get_sigma_polys-values mul degree_log c.degree k_is subgroup partition sigma power pos
        elements (ap (get_sigma_map partition c.degree) shifts ∙ mapped) (len ∙ size)
        (λ i x found. omega (arith, below i x found, size)) in
    (
      polys,
      forest,
      partition,
      sigma,
      rw (log, made, parted, run) refl,
      parted,
      mapped,
      orbits,
      λ u v ur uc vr vc there.
          values u v ur (omega (arith, uc, shifts)) vr (omega (arith, vc, shifts)) there,
    )
