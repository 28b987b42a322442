-- ===== src/Plonk/PermutationArgument/Connected.antt =====
-- plonky2/src/plonk/permutation_argument.rs: the roots after a number of uses of `merge`.
use native.Mathlib.Decide.{ℕ_discrete}
use plonky.Common.{
  ℕ, ◌≤◌, ◌<◌, ◌≡◌, ◌≢◌, refl, sym, ap, subst, ◌∙◌, arith, ◌⊎◌, inl, inr, some, List, [], ◌∷◌,
  length, eq_of_some, >>=-eq-some,
}
use plonky.Plonk.PermutationArgument.{Forest, Target, target_index, find, merge, with_parents}
use plonky.Plonk.PermutationArgument.Chains.{Chain}
use plonky.Plonk.PermutationArgument.Bounds.{Chain-bound}
use plonky.Plonk.PermutationArgument.Merge.{joined, merge-Chain}

-- The pair is in the list.
abbrev pub Edge : List (ℕ × ℕ) → ℕ → ℕ → Type 0
Edge [] x y = ⊥
Edge ((a, b) ∷ edges) x y = ((a ≡ x) × (b ≡ y)) ⊎ Edge edges x y

-- A path over the pairs, in either direction.
pub data Connected (edges : List (ℕ × ℕ)) : ℕ → ℕ → Type 0 where
  same : {x : ℕ} → Connected edges x x
  forth : {x y z : ℕ} → Edge edges x y → Connected edges y z → Connected edges x z
  back : {x y z : ℕ} → Edge edges y x → Connected edges y z → Connected edges x z

pub Connected-trans :
    {edges : List (ℕ × ℕ)} {x y z : ℕ}
    → Connected edges x y
    → Connected edges y z
    → Connected edges x z
Connected-trans same k = k
Connected-trans (forth e c) k = forth e (Connected-trans c k)
Connected-trans (back e c) k = back e (Connected-trans c k)

-- More pairs, or the same in another order.
pub Connected-mono :
    {edges edges' : List (ℕ × ℕ)} {x y : ℕ}
    → ((u v : ℕ) → Edge edges u v → Edge edges' u v)
    → Connected edges x y
    → Connected edges' x y
Connected-mono f same = same
Connected-mono f (forth {x = x} {y = y} e c) = forth (f x y e) (Connected-mono f c)
Connected-mono f (back {x = x} {y = y} e c) = back (f y x e) (Connected-mono f c)

pub Connected-root :
    {edges : List (ℕ × ℕ)} {x y : ℕ} (root : ℕ → ℕ)
    → ((u v : ℕ) → Edge edges u v → root u ≡ root v)
    → Connected edges x y
    → root x ≡ root y
Connected-root root f same = refl
Connected-root root f (forth {x = x} {y = y} e c) = f x y e ∙ Connected-root root f c
Connected-root root f (back {x = x} {y = y} e c) = sym (f y x e) ∙ Connected-root root f c

-- The forest has a root for each node, and the roots of two nodes are the same when the pairs
-- connect them.
pub record IsMerged (ps : List ℕ) (edges : List (ℕ × ℕ)) : Type 0 where
  pub root : ℕ → ℕ
  pub leads : (z : ℕ) → z < length ps → (d : ℕ) × Chain ps d z (root z)
  pub joins : (u v : ℕ) → Edge edges u v → root u ≡ root v
  pub connects : (u v : ℕ) → root u ≡ root v → Connected edges u v

module _ (edges : List (ℕ × ℕ)) (root : ℕ → ℕ) (a b : ℕ)
    (joins : (u v : ℕ) → Edge edges u v → root u ≡ root v)
    (connects : (u v : ℕ) → root u ≡ root v → Connected edges u v) where
  abbrev new_root : ℕ → ℕ
  new_root z = joined (root a) (root b) (root z)

  joined_ends : new_root a ≡ new_root b
  joined_ends = ground arith

  joins_new : (u v : ℕ) → Edge ((a, b) ∷ edges) u v → new_root u ≡ new_root v
  joins_new u v (inl (p, q)) = ap new_root (sym p) ∙ joined_ends ∙ ap new_root q
  joins_new u v (inr e) = ap (joined (root a) (root b)) (joins u v e)

  old : (u v : ℕ) → root u ≡ root v → Connected ((a, b) ∷ edges) u v
  old u v e = Connected-mono (λ u v h. inr h) (connects u v e)

  moved : (s : ℕ) → s ≡ root b → joined (root a) (root b) s ≡ root a
  moved s e = ground arith

  kept : (s : ℕ) → s ≢ root b → joined (root a) (root b) s ≡ s
  kept s e = ground arith

  connects_new : (u v : ℕ) → new_root u ≡ new_root v → Connected ((a, b) ∷ edges) u v
  connects_new u v e = elim (ℕ_discrete (root u) (root b)) [
    | yes p ↦ elim (ℕ_discrete (root v) (root b)) [
      | yes q ↦ old u v (p ∙ sym q)
      | no q ↦
          Connected-trans (old u b p)
            (back (inl (refl, refl)) (old a v (sym (moved (root u) p) ∙ e ∙ kept (root v) q)))
    ]
    | no p ↦ elim (ℕ_discrete (root v) (root b)) [
      | yes q ↦
          Connected-trans (old u a (sym (kept (root u) p) ∙ e ∙ moved (root v) q))
            (forth (inl (refl, refl)) (old b v (sym q)))
      | no q ↦ old u v (sym (kept (root u) p) ∙ e ∙ kept (root v) q)
    ]
  ]

merge-fields :
    (forest : Forest) (tx ty : Target) {forest' : Forest}
    → merge forest tx ty ≡ some forest'
    → forest' ≡ with_parents forest forest'.parents
unfolding merge
merge-fields forest tx ty h =
    let ((ps, x), _, h1) = >>=-eq-some (find forest.parents (target_index forest tx)) _ h in
    let ((ps', y), _, h2) = >>=-eq-some (find ps (target_index forest ty)) _ h1 in
    sym (eq_of_some h2) ∙ ap (λ f. with_parents forest f.parents) (eq_of_some h2)

-- In a forest in which every node has a root, and two nodes have one root exactly when the pairs
-- connect them: `merge` of two targets of the forest ends without a panic, and the new forest is
-- such a forest for the pairs with the new one.
pub merge-IsMerged :
    (forest : Forest) (tx ty : Target) (edges : List (ℕ × ℕ))
    → target_index forest tx < length forest.parents
    → target_index forest ty < length forest.parents
    → IsMerged forest.parents edges
    → (ps : List ℕ) × (merge forest tx ty ≡ some (with_parents forest ps))
      × (length ps ≡ length forest.parents)
      × IsMerged ps ((target_index forest tx, target_index forest ty) ∷ edges)
merge-IsMerged forest tx ty edges hx hy m =
    let a = target_index forest tx in
    let b = target_index forest ty in
    let (dx, cx) = m.leads a hx in
    let (dy, cy) = m.leads b hy in
    let short_x : dx ≤ length forest.parents = omega (arith, Chain-bound forest.parents cx) in
    let short_y : dy ≤ length forest.parents = omega (arith, Chain-bound forest.parents cy) in
    let run_at = λ (z : ℕ) (h : z < length forest.parents).
      merge-Chain forest tx ty dx (m.root a) dy (m.root b) (m.leads z h).0 z (m.root z) short_x
        short_y cx cy (m.leads z h).1 in
    let (forest', run, len, _, _, _) = run_at a hx in
    (
      forest'.parents,
      run ∙ ap some (merge-fields forest tx ty run),
      len,
      record {
        root = new_root edges m.root a b m.joins m.connects;
        leads = λ z lt.
            let (other, run', _, d, _, c) = run_at z (omega (arith, lt, len)) in
            let agree : other.parents ≡ forest'.parents =
              ap (λ f. f.parents) (eq_of_some (sym run' ∙ run)) in
            (d, subst (λ l. Chain l d z (joined (m.root a) (m.root b) (m.root z))) agree c);
        joins = joins_new edges m.root a b m.joins m.connects;
        connects = connects_new edges m.root a b m.joins m.connects;
      },
    )
