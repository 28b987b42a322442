-- ===== src/Iop/Challenger/Tests.antt =====
-- The challenger with a toy permutation that counts up.
use plonky.Common.{ℕ, suc, ◌≡◌, refl, arith, some, List, [], ◌∷◌, length, map, length-map, ◌>>=◌}
use plonky.Hash.Sponge.{
  Permuter, sponge_rate, chunks, overwrite, set_from_iter, squeeze, new_state, absorb,
}
use plonky.Hash.Sponge.Chunks.{length-new_state}
use plonky.Iop.Challenger.{
  Challenger, is_empty, pop, duplexing, observe_element, observe_elements, get_challenge,
  get_n_challenges, compact, new,
}
use plonky.Iop.Challenger.Flush.{with_buffers}
use plonky.Iop.Challenger.Valid.{IsValid, squeezed-IsValid}
use plonky.Iop.Challenger.Transcript.{observe-compact, observe-draw-IsValid}

abbrev counting : Permuter ℕ
counting = record {
  zero_elt = 0;
  one_elt = 1;
  permute = map suc;
  length-permute = λ s h. omega (arith, length-map s suc, h);
}

abbrev start : Challenger ℕ
start = with_buffers (new_state counting) [] []

-- Outputs are drawn from the end of the squeezed state.
draw_three :
    (observe_elements counting start (10 ∷ 20 ∷ []) >>= λ c.
    get_n_challenges counting 8 c >>= λ x. some (x.1))
    ≡ some (1 ∷ 1 ∷ 1 ∷ 1 ∷ 1 ∷ 1 ∷ 21 ∷ 11 ∷ [])
unfolding observe_elements observe_element duplexing is_empty pop get_n_challenges get_challenge
    set_from_iter new_state overwrite squeeze
draw_three = refl

observe-compact_example :
    (observe_elements counting (new counting) (10 ∷ 20 ∷ []) >>= λ c.
    compact counting c >>= λ x. some (x.1))
    ≡ absorb counting (chunks 2 sponge_rate (10 ∷ 20 ∷ [])) (new_state counting)
observe-compact_example = observe-compact counting (10 ∷ 20 ∷ [])

observe-draw-IsValid_example :
    (c1 : Challenger ℕ) × (c2 : Challenger ℕ) × (challenges : List ℕ) × (observe_elements counting
        start
        (10 ∷ 20 ∷ [])
      ≡ some c1)
    × IsValid c1
    × (get_n_challenges counting 9 c1 ≡ some (c2, challenges))
    × (length challenges ≡ 9)
    × IsValid c2
observe-draw-IsValid_example =
    observe-draw-IsValid counting start (10 ∷ 20 ∷ []) 9
      (squeezed-IsValid (new_state counting) [] (length-new_state counting))
