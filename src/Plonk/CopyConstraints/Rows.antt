-- ===== src/Plonk/CopyConstraints/Rows.antt =====
-- plonky2/src/plonk/circuit_builder.rs: the forest before any copy constraint.
use native.Mathlib.Decide.{ℕ_discrete}
use plonky.Common.{
  ℕ, zero, suc, ◌+◌, ◌*◌, ◌<◌, ◌≡◌, refl, sym, ap, subst, ◌∙◌, arith, some, List, [], ◌∷◌, ◌++◌,
  length, get_elem?, ==_refl, length-append, ◌>>=◌,
}
use plonky.Common.Slices.{get_elem?-append_left, get_elem?-append_right}
use plonky.Plonk.PermutationArgument.{
  Target, wire, virtual_target, Forest, target_index, add, with_parents,
}
use plonky.Plonk.PermutationArgument.Chains.{at_root}
use plonky.Plonk.PermutationArgument.Connected.{IsMerged, Connected, same}
use plonky.Plonk.WirePartition.{wire_at}
use plonky.Plonk.CopyConstraints.{add_wires, add_gates, add_virtual_targets}

-- `0..n`
unfoldable pub iota : ℕ → List ℕ
iota zero = []
iota (suc n) = iota n ++ (n ∷ [])

pub length-iota : (n : ℕ) → length (iota n) ≡ n
unfolding iota
length-iota zero = refl
length-iota (suc n) = omega (arith, length-append (iota n) (n ∷ []), length-iota n)

get_elem?-iota : (n i : ℕ) → i < n → get_elem? (iota n) i ≡ some i
unfolding iota
get_elem?-iota zero i h = absurd (omega arith)
get_elem?-iota (suc n) i h = elim (ℕ_discrete i n) [
  | yes last ↦
      get_elem?-append_right (iota n) (n ∷ []) n i 0 (length-iota n) (omega (arith, last))
      ∙ ap some (sym last)
  | no before ↦
      get_elem?-append_left (iota n) (n ∷ []) i (omega (arith, before, length-iota n))
      ∙ get_elem?-iota n i (omega (arith, before))
]

-- Each node is its own root.
pub iota-IsMerged : (n : ℕ) → IsMerged (iota n) []
iota-IsMerged n = record {
  root = λ z. z;
  leads = λ z lt. (0, at_root (get_elem?-iota n z (omega (arith, lt, length-iota n))));
  joins = λ u v e. absurd e;
  connects = λ u v e. subst (Connected [] u) e same;
}

-- Adding the next target.
add_next :
    (forest : Forest) (t : Target) (n : ℕ)
    → target_index forest t ≡ n
    → add (with_parents forest (iota n)) t ≡ some (with_parents forest (iota (suc n)))
unfolding add iota target_index
add_next forest t n e = rw (length-iota n) (rw e (rw (==_refl n) refl))

add_wires-iota :
    (forest : Forest) (left gate input n : ℕ)
    → n ≡ gate * forest.num_wires + input
    → add_wires left gate input (with_parents forest (iota n))
      ≡ some (with_parents forest (iota (left + n)))
unfolding add_wires
add_wires-iota forest zero gate input n e =
    ap (λ (t : ℕ). some (with_parents forest (iota t))) {x = n} (omega arith)
add_wires-iota forest (suc left) gate input n e =
    rw (add_next forest (wire (wire_at gate input)) n (sym e)) (
      add_wires-iota forest left gate (suc input) (suc n) (omega (arith, e))
      ∙ ap (λ (t : ℕ). some (with_parents forest (iota t))) {x = left + suc n} (omega arith))

add_gates-iota :
    (forest : Forest) (left gate n : ℕ)
    → n ≡ gate * forest.num_wires
    → add_gates left gate forest.num_wires (with_parents forest (iota n))
      ≡ some (with_parents forest (iota (left * forest.num_wires + n)))
unfolding add_gates
add_gates-iota forest zero gate n e =
    ap (λ (t : ℕ). some (with_parents forest (iota t))) {x = n} (omega arith)
add_gates-iota forest (suc left) gate n e =
    rw (add_wires-iota forest forest.num_wires gate 0 n (omega (arith, e))) (
      add_gates-iota forest left (suc gate) (forest.num_wires + n) (omega (arith, e))
      ∙ ap (λ (t : ℕ). some (with_parents forest (iota t)))
          {x = left * forest.num_wires + (forest.num_wires + n)} (omega arith))

add_virtual_targets-iota :
    (forest : Forest) (left index n : ℕ)
    → n ≡ forest.degree * forest.num_wires + index
    → add_virtual_targets left index (with_parents forest (iota n))
      ≡ some (with_parents forest (iota (left + n)))
unfolding add_virtual_targets
add_virtual_targets-iota forest zero index n e =
    ap (λ (t : ℕ). some (with_parents forest (iota t))) {x = n} (omega arith)
add_virtual_targets-iota forest (suc left) index n e =
    rw (add_next forest (virtual_target index) n (sym e)) (
      add_virtual_targets-iota forest left (suc index) (suc n) (omega (arith, e))
      ∙ ap (λ (t : ℕ). some (with_parents forest (iota t))) {x = left + suc n} (omega arith))

-- Every wire and every virtual target is added, in the order of the indices.
pub targets-iota :
    (forest : Forest) (num_virtual : ℕ)
    → (add_gates forest.degree 0 forest.num_wires (with_parents forest []) >>= λ f.
        add_virtual_targets num_virtual 0 f)
      ≡ some (with_parents forest (iota (num_virtual + forest.degree * forest.num_wires)))
unfolding iota
targets-iota forest num_virtual = rw (add_gates-iota forest forest.degree 0 0 (omega arith)) (
    ap (λ (t : ℕ). add_virtual_targets num_virtual 0 (with_parents forest (iota t)))
      {x = forest.degree * forest.num_wires + 0} {y = forest.degree * forest.num_wires}
      (omega arith)
    ∙ add_virtual_targets-iota forest num_virtual 0 (forest.degree * forest.num_wires)
        (omega arith))
