-- ===== src/Hash/PathCompression/Reading.antt =====
-- plonky2/src/hash/path_compression.rs: what `decompress_merkle_proofs` reads from the map at its end.
use native.Mathlib.Nat.{div-one}
use plonky.Common.{
  ℕ, zero, suc, ◌+◌, ◌/◌, ◌^◌, ◌≤◌, ◌<◌, ◌≡◌, refl, sym, ap, ap₂, ◌∙◌, arith, bit_xor, Bool, true,
  some, List, [], ◌∷◌, ◌||◌, All,
}
use plonky.Hash.Merkle.{Hasher}
use plonky.Hash.PathCompression.{Seen, parent, read_path, read_paths}
use plonky.Hash.PathCompression.Nodes.{
  IsDeep, InLayer, ancestor_next, ancestor-InLayer, sibling-InLayer,
}
use plonky.Hash.PathCompression.Sets.{above, beside, covers, BesidePaths}
use plonky.Hash.PathCompression.Seen.{at_layer_below}
use plonky.Hash.PathCompression.Decompress.{path, paths, Holds, or_none}

either : (b c : Bool) → c ≡ true → (b || c) ≡ true
either b c e = ground (arith, e)

module _ {F H : Type 0} (hs : Hasher F H) (h m : ℕ) (le : m ≤ h) (val : ℕ → ℕ → H)
    (made : (l x : ℕ)
      → l < m
      → InLayer h l x
      → parent hs x (val l x) (val l (bit_xor x 1)) ≡ val (suc l) (x / 2))
    (all : List ℕ) where
  -- After all layers the siblings are there.
  final_sibling :
      (seen : Seen H) (j n : ℕ)
      → j < m
      → IsDeep h n
      → BesidePaths all n
      → Holds hs h m le val made all seen m []
      → seen (bit_xor (n / 2 ^ j) 1) ≡ some (val j (bit_xor (n / 2 ^ j) 1))
  unfolding covers
  final_sibling seen j n lt deep there held =
      let y = bit_xor (n / 2 ^ j) 1 in
      held j y (omega arith)
        (sibling-InLayer h j (n / 2 ^ j) (omega arith) (ancestor-InLayer h j n (omega arith) deep))
      ∙ or_none _ _ (
          ap₂ (λ s t. above j s y || beside j t y) (at_layer_below all (suc m) j [] (omega arith))
            (at_layer_below all m j [] lt)
          ∙ either (above j all y) (beside j all y) (there j))

  read_path-path :
      (left j n : ℕ) (seen : Seen H)
      → left + j ≡ m
      → IsDeep h n
      → BesidePaths all n
      → Holds hs h m le val made all seen m []
      → read_path left (n / 2 ^ j) seen ≡ some (path val left j n)
  unfolding read_path path
  read_path-path zero j n seen e deep beside_all held = refl
  read_path-path (suc left) j n seen e deep beside_all held =
      rw
        (
          final_sibling seen j n (omega (arith, e)) deep beside_all held,
          ancestor_next n j,
          read_path-path left (suc j) n seen (omega (arith, e)) deep beside_all held,
        )
        refl

  pub read_paths-paths :
      (num_leaves : ℕ) (indices : List ℕ) (seen : Seen H)
      → All (λ i. IsDeep h (i + num_leaves)) indices
      → All (λ i. BesidePaths all (i + num_leaves)) indices
      → Holds hs h m le val made all seen m []
      → read_paths m num_leaves indices seen ≡ some (paths val num_leaves m 0 indices)
  unfolding read_paths paths
  read_paths-paths num_leaves [] seen deep besides held = refl
  read_paths-paths num_leaves (i ∷ indices) seen (d, deep) (b, besides) held =
      let n = i + num_leaves in
      rw
        (
          ap (λ t. read_path m t seen) (sym (div-one n))
              ∙ read_path-path m 0 n seen (omega arith) d b held,
          read_paths-paths num_leaves indices seen deep besides held,
        )
        refl
