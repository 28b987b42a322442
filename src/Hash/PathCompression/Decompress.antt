-- ===== src/Hash/PathCompression/Decompress.antt =====
-- plonky2/src/hash/path_compression.rs: `decompress_merkle_proofs` on siblings that were kept.
-- `val l x` is the digest of the node `x` of layer `l`.
use plonky.Common.{
  ℕ, zero, suc, ◌+◌, ◌/◌, ◌^◌, ◌≤◌, ◌<◌, ◌≡◌, refl, sym, ap, ap₂, subst, ◌∙◌, arith, inl, inr,
  bit_xor, Bool, true, false, none, some, List, [], ◌∷◌, ◌||◌, All, if◌then◌else◌, Bool-cases,
}
use plonky.Hash.Merkle.{Hasher}
use plonky.Hash.PathCompression.{Seen, see, or_next, parent, fill_layer, fill_layers}
use plonky.Hash.PathCompression.Nodes.{
  IsDeep, InLayer, ancestor_next, ancestor-InLayer, sibling-InLayer,
}
use plonky.Hash.PathCompression.Sets.{above, beside, covers, push, leaf_nodes, OnPaths}
use plonky.Hash.PathCompression.Compress.{known_beside, kept, all_kept}
use plonky.Hash.PathCompression.Seen.{
  at_layer, push-at_layer, at_layer_next, at_layer_below, at_layer_self, Sees, Sees-cong,
  Sees-above, Sees-beside, Sees-beside_again,
}

module _ {H : Type 0} (val : ℕ → ℕ → H) where
  -- The siblings on the path of a leaf node, from layer `j` on.
  unfoldable pub path : ℕ → ℕ → ℕ → List H
  path zero j n = []
  path (suc left) j n = val j (bit_xor (n / 2 ^ j) 1) ∷ path left (suc j) n

  unfoldable pub paths : ℕ → ℕ → ℕ → List ℕ → List (List H)
  paths num_leaves left j [] = []
  paths num_leaves left j (i ∷ indices) =
      path left j (i + num_leaves) ∷ paths num_leaves left j indices

pub or_none {ℓ} : {A : Type ℓ} (c : Bool) (a : A) → c ≡ true → (if c then some a else none) ≡ some a
or_none c a e = rw e refl

or_nothing {ℓ} : {A : Type ℓ} (c : Bool) (a : A) → c ≡ false → (if c then some a else none) ≡ none
or_nothing c a e = rw e refl

module _ {F H : Type 0} (hs : Hasher F H) (h m : ℕ) (le : m ≤ h) (val : ℕ → ℕ → H)
    (made : (l x : ℕ)
      → l < m
      → InLayer h l x
      → parent hs x (val l x) (val l (bit_xor x 1)) ≡ val (suc l) (x / 2))
    (all : List ℕ) where
  -- What the map holds in layer `j`, before the indices after `earlier`.
  abbrev pub Holds : Seen H → ℕ → List ℕ → Type 0
  Holds seen j earlier =
      Sees hs h m le val seen (at_layer all (suc j) earlier) (at_layer all j earlier)

  seen_current :
      (seen : Seen H) (j n : ℕ) (earlier : List ℕ)
      → j < m
      → IsDeep h n
      → OnPaths all n
      → Holds seen j earlier
      → seen (n / 2 ^ j) ≡ some (val j (n / 2 ^ j))
  unfolding covers
  seen_current seen j n earlier lt deep on held =
      held j (n / 2 ^ j) (omega arith) (ancestor-InLayer h j n (omega arith) deep)
      ∙ or_none _ _ (
          ap (λ nodes. above j nodes (n / 2 ^ j) || beside j (at_layer all j earlier j) (n / 2 ^ j))
            (at_layer_below all (suc j) j earlier (omega arith))
          ∙ ap (λ c. c || beside j (at_layer all j earlier j) (n / 2 ^ j)) (on j))

  seen_sibling :
      (seen : Seen H) (j n : ℕ) (earlier : List ℕ)
      → j < m
      → IsDeep h n
      → Holds seen j earlier
      → seen (bit_xor (n / 2 ^ j) 1)
        ≡ (if known_beside all earlier n j then some (val j (bit_xor (n / 2 ^ j) 1)) else none)
  unfolding covers
  seen_sibling seen j n earlier lt deep held =
      let y = bit_xor (n / 2 ^ j) 1 in
      held j y (omega arith)
        (sibling-InLayer h j (n / 2 ^ j) (omega arith) (ancestor-InLayer h j n (omega arith) deep))
      ∙ ap₂ (λ s t. if above j s y || beside j t y then some (val j y) else none)
          (at_layer_below all (suc j) j earlier (omega arith)) (at_layer_self all j earlier)

  -- The sibling is seen, or it is the next one that was kept.
  next_sibling :
      (seen : Seen H) (left j n : ℕ) (earlier : List ℕ)
      → j < m
      → IsDeep h n
      → Holds seen j earlier
      → let y = bit_xor (n / 2 ^ j) 1 in
        (seen' : Seen H) × (or_next y seen (seen y) (kept all earlier n j (path val (suc left) j n))
          ≡ some (val j y, kept all earlier n (suc j) (path val left (suc j) n), seen'))
        × Sees hs h m le val seen' (at_layer all (suc j) earlier) (at_layer all j (n ∷ earlier))
  unfolding or_next kept path
  next_sibling seen left j n earlier lt deep held =
      elim (Bool-cases (known_beside all earlier n j)) [
        | inl old ↦
            let there = seen_sibling seen j n earlier lt deep held ∙ or_none _ _ old in
            (
              seen,
              rw (there, old) refl,
              Sees-cong hs h m le val _ _ _ _ _ (λ l. refl) (λ l. push-at_layer all j n l earlier)
                  (Sees-beside_again hs h m le val seen _ _ j n lt deep there held),
            )
        | inr new ↦ (
          see (bit_xor (n / 2 ^ j) 1) (val j (bit_xor (n / 2 ^ j) 1)) seen,
          rw (seen_sibling seen j n earlier lt deep held ∙ or_nothing _ _ new, new) refl,
          Sees-cong hs h m le val _ _ _ _ _ (λ l. refl) (λ l. push-at_layer all j n l earlier)
              (Sees-beside hs h m le val seen _ _ j n lt deep held),
        )
      ]

  -- A parent that is seen.
  seen_parent :
      (seen : Seen H) (j n : ℕ) (earlier : List ℕ)
      → j < m
      → IsDeep h n
      → Sees hs h m le val seen (at_layer all (suc j) earlier) (at_layer all j (n ∷ earlier))
      → let x = n / 2 ^ j in
        Holds (see (x / 2) (parent hs x (val j x) (val j (bit_xor x 1))) seen) j (n ∷ earlier)
  seen_parent seen j n earlier lt deep held =
      let x = n / 2 ^ j in
      let up = Sees-above hs h m le val seen _ _ (suc j) n lt deep held in
      let same : see (n / 2 ^ suc j) (val (suc j) (n / 2 ^ suc j)) seen
          ≡ see (x / 2) (parent hs x (val j x) (val j (bit_xor x 1))) seen =
        ap (λ t. see t (val (suc j) t) seen) (sym (ancestor_next n j))
        ∙ ap (λ d. see (x / 2) d seen)
            (sym (made j x lt (ancestor-InLayer h j n (omega arith) deep))) in
      Sees-cong hs h m le val _ _ _ _ _ (λ l. push-at_layer all (suc j) n l earlier) (λ l. refl)
        (subst
          (λ s.
            Sees hs h m le val s (push (suc j) n (at_layer all (suc j) earlier))
              (at_layer all j (n ∷ earlier)))
          same up)

  fill_layer-kept :
      (num_leaves left j : ℕ) (indices earlier : List ℕ) (seen : Seen H)
      → j < m
      → All (λ i. IsDeep h (i + num_leaves)) indices
      → All (λ i. OnPaths all (i + num_leaves)) indices
      → Holds seen j earlier
      → (seen' : Seen H) × (fill_layer hs num_leaves j indices
            (all_kept num_leaves all j earlier indices (paths val num_leaves (suc left) j indices))
            seen
          ≡ some (
            all_kept num_leaves all
                (suc j)
                earlier
                indices
                (paths val num_leaves left (suc j) indices),
            seen',
          ))
        × Holds seen' j (leaf_nodes num_leaves indices earlier)
  unfolding fill_layer all_kept paths leaf_nodes
  fill_layer-kept num_leaves left j [] earlier seen lt deep on held = (seen, refl, held)
  fill_layer-kept num_leaves left j (i ∷ indices) earlier seen lt (d, deep) (o, on) held =
      let n = i + num_leaves in
      let (seen1, run1, held1) = next_sibling seen left j n earlier lt d held in
      let (seen', run, held') =
        fill_layer-kept num_leaves left j indices (n ∷ earlier) _ lt deep on
          (seen_parent seen1 j n earlier lt d held1) in
      (seen', rw (seen_current seen j n earlier lt d o held, run1, run) refl, held')

  pub fill_layers-kept :
      (num_leaves left j : ℕ) (indices : List ℕ) (seen : Seen H)
      → left + j ≡ m
      → leaf_nodes num_leaves indices [] ≡ all
      → All (λ i. IsDeep h (i + num_leaves)) indices
      → All (λ i. OnPaths all (i + num_leaves)) indices
      → Holds seen j []
      → (seen' : Seen H) × (fill_layers hs left j num_leaves indices
            (all_kept num_leaves all j [] indices (paths val num_leaves left j indices))
            seen
          ≡ some seen')
        × Holds seen' m []
  unfolding fill_layers
  fill_layers-kept num_leaves zero j indices seen e same deep on held =
      (seen, refl, subst (λ t. Holds seen t []) (omega (arith, e)) held)
  fill_layers-kept num_leaves (suc left) j indices seen e same deep on held =
      let (seen1, run1, held1) =
        fill_layer-kept num_leaves left j indices [] seen (omega (arith, e)) deep on held in
      let held2 = subst (λ nodes. Holds seen1 j nodes) same held1 in
      let held3 =
        Sees-cong hs h m le val _ _ _ _ _ (at_layer_next all (suc j)) (at_layer_next all j) held2 in
      let (seen', run, held') =
        fill_layers-kept num_leaves left (suc j) indices seen1 (omega (arith, e)) same deep on
          held3 in
      (seen', rw (run1, run) refl, held')
