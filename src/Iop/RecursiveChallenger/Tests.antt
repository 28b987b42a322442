-- ===== src/Iop/RecursiveChallenger/Tests.antt =====
-- Both challengers through one protocol, with a toy permutation that counts up.
use plonky.Common.{ℕ, suc, ◌≡◌, arith, some, List, [], ◌∷◌, map, length-map}
use plonky.Hash.Sponge.{Permuter}
use plonky.Iop.Challenger.{new as native_new}
use plonky.Iop.RecursiveChallenger.{new}
use plonky.Iop.RecursiveChallenger.Consistency.{
  Step, observe, draw, close, native_run, circuit_run, run-consistent,
}

abbrev counting : Permuter ℕ
counting = record {
  zero_elt = 0;
  one_elt = 1;
  permute = map suc;
  length-permute = λ s h. omega (arith, length-map s suc, h);
}

abbrev protocol : List (Step ℕ)
protocol =
    observe (3 ∷ 1 ∷ 4 ∷ 1 ∷ 5 ∷ 9 ∷ 2 ∷ 6 ∷ 5 ∷ []) ∷ draw 10 ∷ observe (3 ∷ []) ∷ close ∷ []

run-consistent_example :
    (outs : List ℕ) × (native_run counting protocol (native_new counting) ≡ some outs)
    × (circuit_run counting protocol (new counting) ≡ some outs)
run-consistent_example = run-consistent counting protocol
