-- ===== src/Plonk/PermutationArgument/Merge.antt =====
-- plonky2/src/plonk/permutation_argument.rs: `merge`.
use native.Mathlib.Decide.{ℕ_discrete}
use plonky.Common.{
  ℕ, suc, ◌≤◌, ◌≡◌, ◌≢◌, refl, sym, ap, subst, ◌∙◌, arith, some, List, length, get_elem?, set, ◌==◌,
  ==_refl, ==_false, if◌then◌else◌, get_elem?-set_self, get_elem?-set_ne, length-set, eq_of_some,
}
use plonky.Plonk.PermutationArgument.{Forest, Target, target_index, find, merge, with_parents}
use plonky.Plonk.PermutationArgument.Chains.{Chain, at_root, up, in_range, root_of}
use plonky.Plonk.PermutationArgument.Find.{find-Chain}

-- The root of a node with root `s`, once the root `y` hangs under the root `x`.
abbrev pub joined : ℕ → ℕ → ℕ → ℕ
joined x y s = if s == y then x else s

set-root :
    (ps : List ℕ) (x y : ℕ)
    → get_elem? ps x ≡ some x
    → get_elem? ps y ≡ some y
    → x ≢ y
    → {e z s : ℕ} → Chain ps e z s
    → (e' : ℕ) × (e' ≤ suc e) × Chain (set ps y x) e' z (joined x y s)
set-root ps x y hx hy ne (at_root {x = z} h) = elim (ℕ_discrete z y) [
  | yes same ↦
      let root : joined x y z ≡ x =
        ap (joined x y) same ∙ ap (λ b. if b then x else y) (==_refl y) in
      (
        1,
        omega arith,
        subst (Chain (set ps y x) 1 z) (sym root) (
            up (ap (get_elem? (set ps y x)) same ∙ get_elem?-set_self ps y x (in_range ps y hy))
              (λ e. ne (e ∙ same)) (at_root (get_elem?-set_ne ps x (λ e. ne (sym e)) ∙ hx))),
      )
  | no other ↦ (
    0,
    omega arith,
    subst (Chain (set ps y x) 0 z) (sym (ap (λ b. if b then x else z) (==_false z y other)))
        (at_root (get_elem?-set_ne ps x (λ e. other (sym e)) ∙ h)),
  )
]
set-root ps x y hx hy ne (up {x = z} h up_ne c) =
    let (e', le, c') = set-root ps x y hx hy ne c in
    let other : y ≢ z =
      λ same. up_ne (eq_of_some (sym h ∙ ap (get_elem? ps) (sym same) ∙ hy) ∙ same) in
    (suc e', omega (arith, le), up (get_elem?-set_ne ps x other ∙ h) up_ne c')

joined_same : (x y s : ℕ) → x ≡ y → joined x y s ≡ s
joined_same x y s same = ground arith

-- The parents at the end of `merge`.
abbrev linked : List ℕ → ℕ → ℕ → List ℕ
linked ps x y = if x == y then ps else set ps y x

link :
    (ps : List ℕ) (x y e z s : ℕ)
    → get_elem? ps x ≡ some x
    → get_elem? ps y ≡ some y
    → Chain ps e z s
    → (length (linked ps x y) ≡ length ps)
      × (e' : ℕ) × (e' ≤ suc e)
      × Chain (linked ps x y) e' z (joined x y s)
link ps x y e z s hx hy c = elim (ℕ_discrete x y) [
  | yes same ↦
      let kept : linked ps x y ≡ ps =
        ap (λ b. if b then ps else set ps y x) (ap (λ t. x == t) (sym same) ∙ ==_refl x) in
      (
        ap length kept,
        e,
        omega arith,
        subst (λ l. Chain l e z (joined x y s)) (sym kept)
            (subst (Chain ps e z) (sym (joined_same x y s same)) c),
      )
  | no other ↦
      let new_root : linked ps x y ≡ set ps y x =
        ap (λ b. if b then ps else set ps y x) (==_false x y other) in
      let (e', le, c') = set-root ps x y hx hy other c in
      (
        ap length new_root ∙ length-set ps y x,
        e',
        le,
        subst (λ l. Chain l e' z (joined x y s)) (sym new_root) c',
      )
]

-- Two uses of `find` on one forest follow two chains at once.
find_two :
    (ps : List ℕ) (d x r e y s f z t : ℕ)
    → d ≤ length ps
    → Chain ps d x r
    → Chain ps e y s
    → Chain ps f z t
    → (ps' : List ℕ) × (find ps x ≡ some (ps', r))
      × (length ps' ≡ length ps)
      × (get_elem? ps' r ≡ some r)
      × (e' : ℕ) × (e' ≤ e)
      × Chain ps' e' y s
      × (f' : ℕ) × (f' ≤ f)
      × Chain ps' f' z t
find_two ps d x r e y s f z t h c cy cz =
    let (ps', run, len, _, e', le, cy') = find-Chain ps d x r e y s h c cy in
    let (ps2, run2, _, _, f', lf, cz') = find-Chain ps d x r f z t h c cz in
    let (ps3, run3, _, _, _, _, cx) = find-Chain ps d x r d x r h c c in
    let e2 : ps2 ≡ ps' = ap (λ o. o.0) (eq_of_some (sym run2 ∙ run)) in
    let e3 : ps3 ≡ ps' = ap (λ o. o.0) (eq_of_some (sym run3 ∙ run)) in
    (
      ps',
      run,
      len,
      ap (λ l. get_elem? l r) (sym e3) ∙ root_of ps3 cx,
      e',
      le,
      cy',
      f',
      lf,
      subst (λ l. Chain l f' z t) e2 cz',
    )

-- In a forest where two targets and a node `z` lead to the roots `rx`, `ry` and `s`, each in no
-- more steps than there are nodes: `merge` of the targets ends without a panic, the forest keeps
-- its number of nodes, and `z` then leads to `rx` if its root was `ry`, and to `s` otherwise, in at
-- most one step more than before.
pub merge-Chain :
    (forest : Forest) (tx ty : Target) (dx rx dy ry e z s : ℕ)
    → dx ≤ length forest.parents
    → dy ≤ length forest.parents
    → Chain forest.parents dx (target_index forest tx) rx
    → Chain forest.parents dy (target_index forest ty) ry
    → Chain forest.parents e z s
    → (forest' : Forest) × (merge forest tx ty ≡ some forest')
      × (length forest'.parents ≡ length forest.parents)
      × (e' : ℕ) × (e' ≤ suc e)
      × Chain forest'.parents e' z (joined rx ry s)
unfolding merge
merge-Chain forest tx ty dx rx dy ry e z s hx hy cx cy cz =
    let ps = forest.parents in
    let y = target_index forest ty in
    let (ps1, run1, len1, root1, dy1, ley, cy1, e1, le1, cz1) =
      find_two ps dx (target_index forest tx) rx dy y ry e z s hx cx cy cz in
    let enough : dy1 ≤ length ps1 = omega (arith, ley, len1, hy) in
    let (ps2, run2, len2, root2, _, _, croot, e2, le2, cz2) =
      find_two ps1 dy1 y ry 0 rx rx e1 z s enough cy1 (at_root root1) cz1 in
    let (len, e', le, c) = link ps2 rx ry e2 z s (root_of ps2 croot) root2 cz2 in
    (
      with_parents forest (linked ps2 rx ry),
      rw (run1, run2) refl,
      len ∙ len2 ∙ len1,
      e',
      omega (arith, le, le2, le1),
      c,
    )
