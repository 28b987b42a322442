-- ===== src/Plonk/PermutationArgument/Tests.antt =====
-- A forest of four nodes: the chain 3, 2, 1, 0.
use plonky.Common.{ℕ, ◌≤◌, ◌≡◌, refl, arith, some, List, [], ◌∷◌, length, get_elem?}
use plonky.Plonk.PermutationArgument.{
  Forest, wire, virtual_target, index, target_index, merge, find, find_representative,
  compress_chain,
}
use plonky.Plonk.PermutationArgument.Chains.{Chain, at_root, up}
use plonky.Plonk.PermutationArgument.Find.{find-Chain}
use plonky.Plonk.PermutationArgument.Merge.{merge-Chain}

abbrev line : List ℕ
line = 0 ∷ 0 ∷ 1 ∷ 2 ∷ []

abbrev two : Chain line 2 2 0
two = up refl (λ e. omega (arith, e)) (up refl (λ e. omega (arith, e)) (at_root refl))

abbrev three : Chain line 3 3 0
three = up refl (λ e. omega (arith, e)) two

find-three : find line 3 ≡ some (0 ∷ 0 ∷ 0 ∷ 0 ∷ [], 0)
unfolding find find_representative compress_chain
find-three = refl

-- Two wires and two virtual targets, and what merging them does.
abbrev small : Forest
small = record { parents = 0 ∷ 1 ∷ 2 ∷ 3 ∷ []; num_wires = 2; num_routed_wires = 2; degree = 1 }

merge-small :
    merge small (wire (record { row = 0; column = 1 })) (virtual_target 1)
    ≡ some
        (record { parents = 0 ∷ 1 ∷ 2 ∷ 1 ∷ []; num_wires = 2; num_routed_wires = 2; degree = 1 })
unfolding merge find find_representative compress_chain target_index index
merge-small = refl

find-Chain_example :
    (ps' : List ℕ) × (find line 3 ≡ some (ps', 0))
    × (length ps' ≡ 4)
    × (get_elem? ps' 3 ≡ some 0)
    × (e' : ℕ) × (e' ≤ 2)
    × Chain ps' e' 2 0
find-Chain_example = find-Chain line 3 3 0 2 2 0 (omega arith) three two

merge-Chain_example :
    (forest' : Forest) × (merge small (wire (record { row = 0; column = 1 })) (virtual_target 1)
      ≡ some forest')
    × (length forest'.parents ≡ 4)
    × (e' : ℕ) × (e' ≤ 1)
    × Chain forest'.parents e' 3 1
unfolding target_index index
merge-Chain_example =
    merge-Chain small (wire (record { row = 0; column = 1 })) (virtual_target 1) 0 1 0 3 0 3 3
      (omega arith) (omega arith) (at_root refl) (at_root refl) (at_root refl)
