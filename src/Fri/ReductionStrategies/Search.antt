-- ===== src/Fri/ReductionStrategies/Search.antt =====
-- plonky2/src/fri/reduction_strategies.rs: the loop over the arities to try.
use native.Mathlib.Decide.{dec_lt, ℕ_discrete}
use plonky.Common.{
  ℕ, zero, suc, ◌+◌, ◌≤◌, ◌<◌, ◌≡◌, refl, sym, ap, ◌∙◌, arith, Option, some, List, ltb,
  if◌then◌else◌, ◌>>=◌, subst, lt→ltb, le→ltb_false, eq_of_some,
}
use plonky.Fri.ReductionStrategies.{try_arities}

-- The loop returns the candidate or a found one, at most as large as each.
pub record Smallest (Good : List ℕ × ℕ → Type 0) (search : ℕ → Option (List ℕ × ℕ)) (left next : ℕ)
    (best : List ℕ × ℕ) : Type 0 where
  pub result : List ℕ × ℕ
  pub returns : try_arities search left next best ≡ some result
  pub good : Good result
  pub le_best : result.1 ≤ best.1
  pub le_found :
      (a : ℕ) (found : List ℕ × ℕ)
      → next ≤ a
      → a < next + left
      → search a ≡ some found
      → result.1 ≤ found.1

-- The choice between the best and the found candidate.
abbrev smaller : List ℕ × ℕ → List ℕ × ℕ → List ℕ × ℕ
smaller found best = if ltb (found.1) (best.1) then found else best

smaller_lem :
    (Good : List ℕ × ℕ → Type 0) (found best : List ℕ × ℕ)
    → Good found
    → Good best
    → Good (smaller found best)
      × ((smaller found best).1 ≤ found.1)
      × ((smaller found best).1 ≤ best.1)
smaller_lem Good found best gf gb = elim (dec_lt (found.1) (best.1)) [
  | yes less ↦
      let e : smaller found best ≡ found =
        ap (λ b. if b then found else best) (lt→ltb (found.1) (best.1) less) in
      let e1 : (smaller found best).1 ≡ found.1 = ap (λ o. o.1) e in
      (subst Good (sym e) gf, omega (arith, e1), omega (arith, e1, less))
  | no not_less ↦
      let e : smaller found best ≡ best =
        ap (λ b. if b then found else best)
          (le→ltb_false (found.1) (best.1) (omega (arith, not_less))) in
      let e1 : (smaller found best).1 ≡ best.1 = ap (λ o. o.1) e in
      (subst Good (sym e) gb, omega (arith, e1, not_less), omega (arith, e1))
]

pub try_arities-Smallest :
    (Good : List ℕ × ℕ → Type 0) (search : ℕ → Option (List ℕ × ℕ)) (left next : ℕ)
    (best : List ℕ × ℕ)
    → Good best
    → ((a : ℕ)
        → next ≤ a
        → a < next + left
        → (found : List ℕ × ℕ) × (search a ≡ some found) × Good found)
    → Smallest Good search left next best
unfolding try_arities
try_arities-Smallest Good search zero next best g total = record {
  result = best;
  returns = refl;
  good = g;
  le_best = omega arith;
  le_found = λ a found h1 h2 e. absurd (omega (arith, h1, h2));
}
try_arities-Smallest Good search (suc left) next best g total =
    let (found, e, gf) = total next (omega arith) (omega arith) in
    let (gs, le_f, le_b) = smaller_lem Good found best gf g in
    let go =
      try_arities-Smallest Good search left (next + 1) (smaller found best) gs
        (λ a h1 h2. total a (omega (arith, h1)) (omega (arith, h2))) in
    record {
      result = go.result;
      returns =
          ap (λ o. o >>= λ f. try_arities search left (next + 1) (smaller f best)) e ∙ go.returns;
      good = go.good;
      le_best = omega (arith, go.le_best, le_b);
      le_found = λ a found' h1 h2 e'. elim (ℕ_discrete a next) [
        | yes here ↦
            let same : found' ≡ found = eq_of_some (sym e' ∙ ap search here ∙ e) in
            let size : found'.1 ≡ found.1 = ap (λ o. o.1) same in
            omega (arith, go.le_best, le_f, size)
        | no later ↦ go.le_found a found' (omega (arith, h1, later)) (omega (arith, h2)) e'
      ];
    }
