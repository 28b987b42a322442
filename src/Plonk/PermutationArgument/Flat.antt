-- ===== src/Plonk/PermutationArgument/Flat.antt =====
-- plonky2/src/plonk/permutation_argument.rs: `compress_paths`.
use native.Mathlib.Decide.{dec_lt}
use plonky.Common.{
  ℕ, zero, suc, ◌+◌, ◌≤◌, ◌<◌, ◌≡◌, refl, sym, ap, subst, ◌∙◌, arith, some, List, length, get_elem?,
  eq_of_some,
}
use plonky.Plonk.PermutationArgument.{Forest, find, compress_from, compress_paths, with_parents}
use plonky.Plonk.PermutationArgument.Chains.{Chain, at_root, up, root_of}
use plonky.Plonk.PermutationArgument.Bounds.{Chain-bound}
use plonky.Plonk.PermutationArgument.Find.{find-Chain}

-- Each node leads to its root; those below `i` in one step.
abbrev IsFlatBelow : List ℕ → ℕ → (ℕ → ℕ) → Type 0
IsFlatBelow ps i root = (z : ℕ) → z < length ps → (d : ℕ) × (z < i → d ≤ 1) × Chain ps d z (root z)

short-parent : (ps : List ℕ) (d z r : ℕ) → d ≤ 1 → Chain ps d z r → get_elem? ps z ≡ some r
short-parent ps d z r h (at_root e) = e
short-parent ps d z r h (up e ne (at_root e')) = e
short-parent ps d z r h (up e ne (up e' ne' c)) = absurd (omega arith)

at_top : (ps : List ℕ) (d z r : ℕ) → get_elem? ps z ≡ some z → Chain ps d z r → d ≡ 0
at_top ps d z r e (at_root h) = refl
at_top ps d z r e (up h ne c) = absurd (ne (eq_of_some (sym h ∙ e)))

shorten : (ps : List ℕ) (d z r : ℕ) → get_elem? ps z ≡ some r → Chain ps d z r → d ≤ 1
shorten ps d z r e (at_root h) = omega arith
shorten ps d z r e (up {d = d'} {p = p} h ne c) =
    let parent : r ≡ p = eq_of_some (sym e ∙ h) in
    let top : get_elem? ps p ≡ some p =
      subst (λ t. get_elem? ps t ≡ some t) parent (root_of ps c) in
    omega (arith, at_top ps d' p r top c)

compress_step :
    (left i : ℕ) (ps ps1 ps' : List ℕ) (r : ℕ)
    → find ps i ≡ some (ps1, r)
    → compress_from left (i + 1) ps1 ≡ some ps'
    → compress_from (suc left) i ps ≡ some ps'
unfolding compress_from
compress_step left i ps ps1 ps' r run run' = rw run run'

compress_from-flat :
    (left i : ℕ) (ps : List ℕ) (root : ℕ → ℕ)
    → left + i ≡ length ps
    → IsFlatBelow ps i root
    → (ps' : List ℕ) × (compress_from left i ps ≡ some ps')
      × (length ps' ≡ length ps)
      × ((z : ℕ) → z < length ps → get_elem? ps' z ≡ some (root z))
unfolding compress_from
compress_from-flat zero i ps root e flat = (
  ps,
  refl,
  refl,
  λ z lt. let (d, small, c) = flat z lt in short-parent ps d z (root z) (small (omega arith)) c,
)
compress_from-flat (suc left) i ps root e flat =
    let (d, _, c) = flat i (omega arith) in
    let short : d ≤ length ps = omega (arith, Chain-bound ps c) in
    let run_at = λ (z : ℕ) (h : z < length ps).
      find-Chain ps d i (root i) (flat z h).0 z (root z) short c (flat z h).2 in
    let (ps1, run, len, direct, _, _, _) = run_at i (omega arith) in
    let flat1 : IsFlatBelow ps1 (i + 1) root = λ z lt.
      let inside : z < length ps = omega (arith, lt, len) in
      let (ps2, run2, _, _, d', le, c2) = run_at z inside in
      let agree : ps2 ≡ ps1 = ap (λ o. o.0) (eq_of_some (sym run2 ∙ run)) in
      let c' = subst (λ l. Chain l d' z (root z)) agree c2 in
      (
        d',
        λ below. elim (dec_lt z i) [
          | yes before ↦ omega (arith, le, (flat z inside).1 before)
          | no after ↦
              let here : i ≡ z = omega (arith, below) in
              shorten ps1 d' z (root z) (subst (λ t. get_elem? ps1 t ≡ some (root t)) here direct)
                c'
        ],
        c',
      ) in
    let (ps', run', len', parents) =
      compress_from-flat left (i + 1) ps1 root (omega (arith, e, len)) flat1 in
    (
      ps',
      compress_step left i ps ps1 ps' (root i) run run',
      len' ∙ len,
      λ z lt. parents z (omega (arith, lt, len)),
    )

-- In a forest in which every node leads to a root: `compress_paths` ends without a panic, and then
-- the parent of every node is its root.
pub compress_paths-flat :
    (forest : Forest) (root : ℕ → ℕ)
    → ((z : ℕ) → z < length forest.parents → (d : ℕ) × Chain forest.parents d z (root z))
    → (ps : List ℕ) × (compress_paths forest ≡ some (with_parents forest ps))
      × (length ps ≡ length forest.parents)
      × ((z : ℕ) → z < length forest.parents → get_elem? ps z ≡ some (root z))
unfolding compress_paths
compress_paths-flat forest root leads =
    let ps = forest.parents in
    let (ps', run, len, parents) =
      compress_from-flat (length ps) 0 ps root (omega arith)
        (λ z lt. ((leads z lt).0, λ below. absurd (omega (arith, below)), (leads z lt).1)) in
    (ps', rw run refl, len, parents)
