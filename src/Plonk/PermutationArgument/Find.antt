-- ===== src/Plonk/PermutationArgument/Find.antt =====
-- plonky2/src/plonk/permutation_argument.rs: `find`.
use native.Mathlib.Decide.{ℕ_discrete}
use plonky.Common.{
  ℕ, zero, suc, ◌+◌, ◌≤◌, ◌<◌, ◌≡◌, refl, sym, ap, ◌∙◌, arith, some, List, length, get_elem?, set,
  ◌==◌, ==_refl, ==_false, if◌then◌else◌, get_elem?-set_self, get_elem?-set_ne, length-set, inl,
  inr, eq_of_some, >>=-eq-some, Bool-cases,
}
use plonky.Plonk.PermutationArgument.{find, find_representative, compress_chain}
use plonky.Plonk.PermutationArgument.Chains.{Chain, at_root, up, set-Chain, in_range}

find_representative-Chain :
    (fuel : ℕ) (ps : List ℕ) {d x r : ℕ}
    → d < fuel
    → Chain ps d x r
    → find_representative fuel ps x ≡ some r
unfolding find_representative
find_representative-Chain zero ps h c = absurd (omega arith)
find_representative-Chain (suc fuel) ps h (at_root {x = x} e) = rw (e, ==_refl x) refl
find_representative-Chain (suc fuel) ps h (up {x = x} {p = p} e ne c) =
    rw (e, ==_false p x ne) (find_representative-Chain fuel ps (omega arith) c)

-- A node that points at the representative still does.
compress_chain-shortcut :
    (fuel : ℕ) (ps : List ℕ) (x r w : ℕ) (ps' : List ℕ)
    → compress_chain fuel ps x r ≡ some ps'
    → get_elem? ps w ≡ some r
    → get_elem? ps' w ≡ some r
unfolding compress_chain
compress_chain-shortcut zero ps x r w ps' h e = cc
compress_chain-shortcut (suc fuel) ps x r w ps' h e =
    let next = λ (old : ℕ). compress_chain fuel (set ps x r) old r in
    let (old, here, h') =
      >>=-eq-some (get_elem? ps x) (λ old. if old == x then some ps else next old) h in
    let kept : get_elem? (set ps x r) w ≡ some r = elim (ℕ_discrete x w) [
      | yes same ↦
          ap (get_elem? (set ps x r)) (sym same) ∙ get_elem?-set_self ps x r (in_range ps x here)
      | no other ↦ get_elem?-set_ne ps r other ∙ e
    ] in
    elim (Bool-cases (old == x)) [
      | inl done ↦
          let same : ps ≡ ps' =
            eq_of_some (sym (ap (λ b. if b then some ps else next old) done) ∙ h') in
          ap (λ l. get_elem? l w) (sym same) ∙ e
      | inr more ↦
          compress_chain-shortcut fuel (set ps x r) old r w ps'
            (sym (ap (λ b. if b then some ps else next old) more) ∙ h') kept
    ]

compress_chain-Chain :
    (fuel : ℕ) (ps : List ℕ) {d x r e z s : ℕ}
    → d < fuel
    → Chain ps d x r
    → Chain ps e z s
    → (ps' : List ℕ) × (compress_chain fuel ps x r ≡ some ps')
      × (length ps' ≡ length ps)
      × (get_elem? ps' x ≡ some r)
      × (e' : ℕ) × (e' ≤ e)
      × Chain ps' e' z s
unfolding compress_chain
compress_chain-Chain zero ps h c k = absurd (omega arith)
compress_chain-Chain (suc fuel) ps {e = e} h (at_root {x = x} hx) k =
    (ps, rw (hx, ==_refl x) refl, refl, hx, e, omega arith, k)
compress_chain-Chain (suc fuel) ps {r = r} h (up {x = x} {p = p} hx ne c) k =
    let (d', le, c1) = set-Chain ps hx ne c c in
    let (e', le', k1) = set-Chain ps hx ne c k in
    let (ps', run, len, _, e'', le'', k2) =
      compress_chain-Chain fuel (set ps x r) (omega (arith, le)) c1 k1 in
    (
      ps',
      rw (hx, ==_false p x ne) run,
      len ∙ length-set ps x r,
      compress_chain-shortcut fuel (set ps x r) p r x ps' run
          (get_elem?-set_self ps x r (in_range ps x hx)),
      e'',
      omega (arith, le', le''),
      k2,
    )

-- In a forest where `x` leads to the root `r` in no more steps than there are nodes, and `z` leads
-- to the root `s`: `find` of `x` ends without a panic and returns `r`; afterwards the forest has
-- the same nodes, the parent of `x` is `r`, and `z` leads to `s` in no more steps than before.
pub find-Chain :
    (ps : List ℕ) (d x r e z s : ℕ)
    → d ≤ length ps
    → Chain ps d x r
    → Chain ps e z s
    → (ps' : List ℕ) × (find ps x ≡ some (ps', r))
      × (length ps' ≡ length ps)
      × (get_elem? ps' x ≡ some r)
      × (e' : ℕ) × (e' ≤ e)
      × Chain ps' e' z s
unfolding find
find-Chain ps d x r e z s h c k =
    let (ps', run, len, short, e', le, k') =
      compress_chain-Chain (length ps + 2) ps (omega (arith, h)) c k in
    (
      ps',
      rw (find_representative-Chain (length ps + 1) ps (omega (arith, h)) c, run) refl,
      len,
      short,
      e',
      le,
      k',
    )
