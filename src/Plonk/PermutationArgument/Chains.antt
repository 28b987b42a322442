-- ===== src/Plonk/PermutationArgument/Chains.antt =====
-- plonky2/src/plonk/permutation_argument.rs: the chains of parents, and what a shortcut does to them.
use native.Mathlib.Decide.{ℕ_discrete}
use plonky.Common.{
  ℕ, zero, suc, ◌≤◌, ◌<◌, ◌≡◌, ◌≢◌, refl, sym, ap, subst, ◌∙◌, arith, some, List, [], ◌∷◌, length,
  get_elem?, set, get_elem?-set_self, get_elem?-set_ne, eq_of_some,
}

-- `Chain parents d x r`: from `x`, `d` steps up lead to the root `r`.
pub data Chain (parents : List ℕ) : ℕ → ℕ → ℕ → Type 0 where
  at_root : {x : ℕ} → get_elem? parents x ≡ some x → Chain parents 0 x x
  up :
      {d x p r : ℕ}
      → get_elem? parents x ≡ some p
      → p ≢ x
      → Chain parents d p r
      → Chain parents (suc d) x r

pub root_of : (ps : List ℕ) {d x r : ℕ} → Chain ps d x r → get_elem? ps r ≡ some r
root_of ps (at_root e) = e
root_of ps (up e ne c) = root_of ps c

pub unique : (ps : List ℕ) {d e x r s : ℕ} → Chain ps d x r → Chain ps e x s → r ≡ s
unique ps (at_root e) (at_root e') = refl
unique ps (at_root e) (up e' ne c) = absurd (ne (eq_of_some (sym e' ∙ e)))
unique ps (up e ne c) (at_root e') = absurd (ne (eq_of_some (sym e ∙ e')))
unique ps {s = s} (up e ne c) (up {d = d'} e' ne' c') =
    unique ps c (subst (λ t. Chain ps d' t s) (eq_of_some (sym e' ∙ e)) c')

pub in_range : (ps : List ℕ) (x : ℕ) {p : ℕ} → get_elem? ps x ≡ some p → x < length ps
in_range [] x h = cc
in_range (y ∷ ps) zero h = omega arith
in_range (y ∷ ps) (suc x) h = omega (arith, in_range ps x h)

-- To point a node that is no root at its root makes no chain longer and moves no root.
pub set-Chain :
    (ps : List ℕ) {d x p r : ℕ}
    → get_elem? ps x ≡ some p
    → p ≢ x
    → Chain ps d p r
    → {e z s : ℕ} → Chain ps e z s
    → (e' : ℕ) × (e' ≤ e) × Chain (set ps x r) e' z s
set-Chain ps {x = x} {p = p} {r = r} hx ne c (at_root {x = z} h) =
    let other : x ≢ z = λ same. ne (eq_of_some (sym hx ∙ ap (get_elem? ps) same ∙ h) ∙ sym same) in
    (0, omega arith, at_root (get_elem?-set_ne ps r other ∙ h))
set-Chain ps {x = x} {r = r} hx ne c {s = s} (up {d = e} {x = z} h ne' c') = elim (ℕ_discrete x z) [
  | yes same ↦
      let apart : x ≢ r =
        λ e. ne (eq_of_some (sym hx ∙ ap (get_elem? ps) e ∙ root_of ps c) ∙ sym e) in
      let r_is_s : r ≡ s =
        unique ps (up hx ne c) (subst (λ t. Chain ps (suc e) t s) (sym same) (up h ne' c')) in
      let there = get_elem?-set_self ps x r (in_range ps x hx) in
      (
        1,
        omega arith,
        subst (λ t. Chain (set ps x r) 1 z t) r_is_s
            (up (ap (get_elem? (set ps x r)) (sym same) ∙ there) (λ e. apart (same ∙ sym e))
              (at_root (get_elem?-set_ne ps r apart ∙ root_of ps c))),
      )
  | no other ↦
      let (e', le, c'') = set-Chain ps hx ne c c' in
      (suc e', omega (arith, le), up (get_elem?-set_ne ps r other ∙ h) ne' c'')
]
