-- ===== src/Hash/Merkle/Spec.antt =====
-- What a Merkle tree is, apart from the layout of its buffer.
use plonky.Common.{ℕ, zero, suc, ◌*◌, ◌^◌, List, [], ◌∷◌, ◌++◌, take, drop}
use plonky.Hash.Merkle.{Hasher}

module _ {F H : Type 0} (hs : Hasher F H) where
  -- The root over the first `2 ^ h` leaves.
  unfoldable pub root : ℕ → List (List F) → H
  root zero [] = hs.hash_or_noop []
  root zero (l ∷ ls) = hs.hash_or_noop l
  root (suc h) ls = hs.two_to_one (root h (take (2 ^ h) ls)) (root h (drop (2 ^ h) ls))

  -- The buffer of a subtree of height `h`.
  unfoldable pub digests_of : ℕ → List (List F) → List H
  digests_of zero ls = []
  digests_of (suc h) ls =
      digests_of h (take (2 ^ h) ls)
      ++ (root h (take (2 ^ h) ls) ∷ root h (drop (2 ^ h) ls) ∷ digests_of h (drop (2 ^ h) ls))

  -- The digest of the node number `m` in layer `i`.
  unfoldable pub block : List (List F) → ℕ → ℕ → H
  block ls i m = root i (take (2 ^ i) (drop (m * 2 ^ i) ls))
