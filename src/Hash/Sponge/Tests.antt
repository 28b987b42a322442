-- ===== src/Hash/Sponge/Tests.antt =====
-- The sponge and its padding, with a toy permutation that counts up.
use plonky.Common.{
  ℕ, suc, ◌%◌, ◌≡◌, refl, arith, none, some, List, [], ◌∷◌, length, map, take, length-map,
}
use plonky.Hash.Sponge.{
  Permuter, chunks, overwrite, set_from_slice, squeeze, push_outputs, new_state, absorb,
  squeeze_loop, hash_n_to_m_no_pad, pad_zeros, pad, sponge_rate,
}
use plonky.Hash.Sponge.Squeeze.{stream, hash_n_to_m_no_pad_lem}
use plonky.Hash.Sponge.Padding.{pad-injective}

abbrev counting : Permuter ℕ
counting = record {
  zero_elt = 0;
  one_elt = 1;
  permute = map suc;
  length-permute = λ s h. omega (arith, length-map s suc, h);
}

pad_two : pad counting (7 ∷ 9 ∷ []) ≡ some (7 ∷ 9 ∷ 1 ∷ 0 ∷ 0 ∷ 0 ∷ 0 ∷ 1 ∷ [])
unfolding pad pad_zeros
pad_two = refl

hash_ten :
    hash_n_to_m_no_pad counting 2 (10 ∷ 20 ∷ []) 10
    ≡ some (11 ∷ 21 ∷ 1 ∷ 1 ∷ 1 ∷ 1 ∷ 1 ∷ 1 ∷ 12 ∷ 22 ∷ [])
unfolding hash_n_to_m_no_pad chunks absorb set_from_slice new_state overwrite squeeze_loop
    push_outputs squeeze
hash_ten = refl

hash_n_to_m_no_pad_lem_example :
    (hash_n_to_m_no_pad counting 2 (10 ∷ 20 ∷ []) 0 ≡ none)
    × (state : List ℕ) × (absorb counting (chunks 2 sponge_rate (10 ∷ 20 ∷ [])) (new_state counting)
        ≡ some state)
    × (hash_n_to_m_no_pad counting 2 (10 ∷ 20 ∷ []) 10 ≡ some (take 10 (stream counting 2 state)))
    × (length (take 10 (stream counting 2 state)) ≡ 10)
hash_n_to_m_no_pad_lem_example =
    hash_n_to_m_no_pad_lem counting 2 10 (10 ∷ 20 ∷ []) (omega arith) (omega arith)

pad-injective_example :
    (padded : List ℕ) × (pad counting (7 ∷ 9 ∷ []) ≡ some padded)
    × (length padded % 8 ≡ 0)
    × (◌≡◌ {A = List ℕ} (7 ∷ 9 ∷ []) (7 ∷ 9 ∷ []))
pad-injective_example =
    pad-injective counting (7 ∷ 9 ∷ []) (7 ∷ 9 ∷ []) (λ e. omega (arith, e)) refl
