-- ===== src/Hash/PathCompression/RoundTrip.antt =====
-- plonky2/src/hash/path_compression.rs: `decompress_merkle_proofs` undoes `compress_merkle_proofs`,
-- for any digests `val l x` of the nodes `x` of layer `l` that the hasher makes from one another.
use plonky.Common.{
  ℕ, suc, ◌+◌, ◌-◌, ◌/◌, ◌^◌, ◌≤◌, ◌<◌, ◌≡◌, refl, sym, ap, subst, ◌∙◌, arith, bit_xor, none, some,
  List, [], ◌∷◌, All, ◌||◌, if◌then◌else◌, le→leb,
}
use native.Mathlib.Nat.{div-one}
use plonky.Hash.Merkle.{Hasher}
use plonky.Hash.PathCompression.{Seen, see, observe_leaves, parent, decompress_merkle_proofs}
use plonky.Hash.PathCompression.Nodes.{IsDeep, InLayer}
use plonky.Hash.PathCompression.Sets.{
  covers, above, beside, push, leaf_nodes, leaf_nodes-OnPaths, leaf_nodes-BesidePaths,
}
use plonky.Hash.PathCompression.Compress.{all_kept}
use plonky.Hash.PathCompression.Seen.{
  at_layer, push-at_layer, at_layer_next, at_layer_none, Sees, Sees-cong, Sees-above,
}
use plonky.Hash.PathCompression.Reading.{read_paths-paths}
use plonky.Hash.PathCompression.Decompress.{paths, fill_layers-kept}

module _ {F H : Type 0} (hs : Hasher F H) (h m : ℕ) (le : m ≤ h) (val : ℕ → ℕ → H)
    (made : (l x : ℕ)
      → l < m
      → InLayer h l x
      → parent hs x (val l x) (val l (bit_xor x 1)) ≡ val (suc l) (x / 2)) where
  -- The data of the leaves, with their digests.
  abbrev pub Hashed : List ℕ → List (List F) → Type 0
  Hashed [] [] = Unit
  Hashed (i ∷ indices) (v ∷ leaves) =
      (hs.hash_or_noop v ≡ val 0 (i + 2 ^ h)) × Hashed indices leaves
  Hashed _ _ = ⊥

  observe_leaves-Sees :
      (all indices done : List ℕ) (leaves : List (List F)) (seen : Seen H)
      → All (λ i. IsDeep h (i + 2 ^ h)) indices
      → Hashed indices leaves
      → Sees hs h m le val seen (at_layer all 0 done) (at_layer all 0 [])
      → Sees hs h m le val
          (observe_leaves hs (2 ^ h) indices leaves seen)
          (at_layer all 0 (leaf_nodes (2 ^ h) indices done))
          (at_layer all 0 [])
  unfolding observe_leaves leaf_nodes
  observe_leaves-Sees all [] done [] seen deep hashed held = held
  observe_leaves-Sees all (i ∷ indices) done (v ∷ leaves) seen (d, deep) (e, hashed) held =
      let n = i + 2 ^ h in
      let one = Sees-above hs h m le val seen _ _ 0 n (omega arith) d held in
      let moved : see (n / 2 ^ 0) (val 0 (n / 2 ^ 0)) seen ≡ see n (hs.hash_or_noop v) seen =
        ap (λ t. see t (val 0 t) seen) (div-one n) ∙ ap (λ d. see n d seen) (sym e) in
      observe_leaves-Sees all indices (n ∷ done) leaves _ deep hashed (
        Sees-cong hs h m le val _ _ _ _ _ (λ l. push-at_layer all 0 n l done) (λ l. refl)
          (subst (λ s. Sees hs h m le val s (push 0 n (at_layer all 0 done)) (at_layer all 0 []))
            moved one))
  observe_leaves-Sees all [] done (v ∷ leaves) seen deep hashed held = absurd hashed
  observe_leaves-Sees all (i ∷ indices) done [] seen deep hashed held = absurd hashed

  nothing_seen :
      (all : List ℕ) → Sees hs h m le val (λ _. none) (at_layer all 0 []) (at_layer all 0 [])
  unfolding covers above beside
  nothing_seen all l x lt deep = sym (
      ap (λ nodes. if above l nodes x || beside l nodes x then some (val l x) else none)
        (at_layer_none all l))

  pub decompress_merkle_proofs-kept :
      (cap_height : ℕ) (indices : List ℕ) (leaves : List (List F))
      → cap_height + m ≡ h
      → All (λ i. IsDeep h (i + 2 ^ h)) indices
      → Hashed indices leaves
      → decompress_merkle_proofs hs leaves indices
          (all_kept
            (2 ^ h)
            (leaf_nodes (2 ^ h) indices [])
            0
            []
            indices
            (paths val (2 ^ h) m 0 indices))
          h
          cap_height
        ≡ some (paths val (2 ^ h) m 0 indices)
  unfolding decompress_merkle_proofs
  decompress_merkle_proofs-kept cap_height indices leaves e deep hashed =
      let all = leaf_nodes (2 ^ h) indices [] in
      let layers : h - cap_height ≡ m = omega (arith, e) in
      let start =
        observe_leaves-Sees all indices [] leaves (λ _. none) deep hashed (nothing_seen all) in
      let start' =
        Sees-cong hs h m le val _ _ (at_layer all 1 []) _ (at_layer all 0 []) (at_layer_next all 0)
          (λ l. refl) start in
      let (seen, run, held) =
        fill_layers-kept hs h m le val made all (2 ^ h) m 0 indices _ (omega arith) refl deep
          (leaf_nodes-OnPaths (2 ^ h) indices []) start' in
      rw (le→leb cap_height h (omega (arith, e)), layers, run)
        (read_paths-paths hs h m le val made all (2 ^ h) indices seen deep
          (leaf_nodes-BesidePaths (2 ^ h) indices []) held)
