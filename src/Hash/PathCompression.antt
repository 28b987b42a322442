-- ===== src/Hash/PathCompression.antt =====
-- plonky2/src/hash/path_compression.rs. A `MerkleProof` is its siblings; `known` is the vector of
-- marked nodes, and the `HashMap` of the seen nodes is a function. The root is node 1, and the
-- children of node `n` are `2 n` and `2 n + 1`. `none` is a panic: an index out of range, a missing
-- key, or an exhausted iterator.
pub mod Nodes
pub mod Sets
pub mod Marks
pub mod Compress
pub mod Seen
pub mod Decompress
pub mod Reading
pub mod RoundTrip
pub mod Layers
pub mod Trees
mod Tests
use plonky.Common.{
  ℕ, zero, suc, ◌+◌, ◌-◌, ◌*◌, ◌/◌, ◌%◌, ◌^◌, bit_xor, Bool, true, false, Option, none, some, List,
  [], ◌∷◌, length, get_elem?, set, replicate, ltb, leb, ◌==◌, if◌then◌else◌, assert, ◌>>=◌, ◌>>◌,
}
use plonky.Hash.Merkle.{Hasher}

-- `known[index] = true`
unfoldable pub mark : ℕ → List Bool → Option (List Bool)
mark index known = do assert (ltb index (length known)); some (set known index true)

-- The first pass for one index: the nodes from layer `j` on, with `left` layers to go.
unfoldable pub mark_path : ℕ → ℕ → ℕ → List Bool → Option (List Bool)
unfolding mark
mark_path zero j node known = some known
mark_path (suc left) j node known = do
  known' ← mark (node / 2 ^ j) known
  mark_path left (suc j) node known'

unfoldable pub mark_paths : ℕ → ℕ → List ℕ → List Bool → Option (List Bool)
unfolding mark_path
mark_paths layers num_leaves [] known = some known
mark_paths layers num_leaves (i ∷ indices) known = do
  known' ← mark_path layers 0 (i + num_leaves) known
  mark_paths layers num_leaves indices known'

module _ {H : Type 0} where
  -- The loop over the siblings of one proof.
  unfoldable pub compress_path : ℕ → List H → List Bool → Option (List H × List Bool)
  unfolding mark
  compress_path index [] known = some ([], known)
  compress_path index (sibling ∷ siblings) known = do
    let sibling_index = bit_xor index 1
    is_known ← get_elem? known sibling_index
    with_sibling ← if is_known then some known else mark sibling_index known
    with_parent ← mark (index / 2) with_sibling
    (rest, known') ← compress_path (index / 2) siblings with_parent
    some (if is_known then rest else sibling ∷ rest, known')

  unfoldable pub compress_paths : ℕ → List ℕ → List (List H) → List Bool → Option (List (List H))
  unfolding compress_path
  compress_paths num_leaves [] proofs known = some []
  compress_paths num_leaves (i ∷ indices) [] known = some []
  compress_paths num_leaves (i ∷ indices) (p ∷ proofs) known = do
    (compressed, known') ← compress_path (i + num_leaves) p known
    rest ← compress_paths num_leaves indices proofs known'
    some (compressed ∷ rest)

  unfoldable pub compress_merkle_proofs : ℕ → List ℕ → List (List H) → Option (List (List H))
  unfolding mark_paths compress_paths
  compress_merkle_proofs cap_height indices [] = none
  compress_merkle_proofs cap_height indices (first ∷ proofs) =
      let height = cap_height + length first in
      let num_leaves = 2 ^ height in
      do
        known ←
            mark_paths (height - cap_height) num_leaves indices (replicate (2 * num_leaves) false)
        compress_paths num_leaves indices (first ∷ proofs) known

abbrev pub Seen : Type 0 → Type 0
Seen H = ℕ → Option H

module _ {H : Type 0} where
  unfoldable pub see : ℕ → H → Seen H → Seen H
  see index h seen = λ i. if i == index then some h else seen i

  -- `seen.entry(index).or_insert_with(|| *p.next().unwrap())`: the value, the rest of the iterator,
  -- and the map.
  unfoldable pub or_next : ℕ → Seen H → Option H → List H → Option (H × List H × Seen H)
  unfolding see
  or_next index seen (some h) siblings = some (h, siblings, seen)
  or_next index seen none [] = none
  or_next index seen none (h ∷ siblings) = some (h, siblings, see index h seen)

  -- The siblings of one index, bottom up.
  unfoldable pub read_path : ℕ → ℕ → Seen H → Option (List H)
  read_path zero index seen = some []
  read_path (suc left) index seen = do
    h ← seen (bit_xor index 1)
    rest ← read_path left (index / 2) seen
    some (h ∷ rest)

  unfoldable pub read_paths : ℕ → ℕ → List ℕ → Seen H → Option (List (List H))
  unfolding read_path
  read_paths layers num_leaves [] seen = some []
  read_paths layers num_leaves (i ∷ indices) seen = do
    siblings ← read_path layers (i + num_leaves) seen
    rest ← read_paths layers num_leaves indices seen
    some (siblings ∷ rest)

module _ {F H : Type 0} (hs : Hasher F H) where
  unfoldable pub observe_leaves : ℕ → List ℕ → List (List F) → Seen H → Seen H
  unfolding see
  observe_leaves num_leaves [] leaves seen = seen
  observe_leaves num_leaves (i ∷ indices) [] seen = seen
  observe_leaves num_leaves (i ∷ indices) (v ∷ leaves) seen =
      observe_leaves num_leaves indices leaves (see (i + num_leaves) (hs.hash_or_noop v) seen)

  abbrev pub parent : ℕ → H → H → H
  parent index current sibling =
      if index % 2 == 0 then hs.two_to_one current sibling else hs.two_to_one sibling current

  -- One layer: the rest of each iterator, and the map.
  unfoldable pub fill_layer :
      ℕ → ℕ → List ℕ → List (List H) → Seen H → Option (List (List H) × Seen H)
  unfolding see or_next
  fill_layer num_leaves layer [] siblings seen = some ([], seen)
  fill_layer num_leaves layer (i ∷ indices) [] seen = some ([], seen)
  fill_layer num_leaves layer (i ∷ indices) (p ∷ siblings) seen = do
    let index = (i + num_leaves) / 2 ^ layer
    current ← seen index
    (sibling, p', seen') ← or_next (bit_xor index 1) seen (seen (bit_xor index 1)) p
    (rest, filled) ←
        fill_layer num_leaves layer indices siblings
          (see (index / 2) (parent index current sibling) seen')
    some (p' ∷ rest, filled)

  unfoldable pub fill_layers : ℕ → ℕ → ℕ → List ℕ → List (List H) → Seen H → Option (Seen H)
  unfolding fill_layer
  fill_layers zero layer num_leaves indices siblings seen = some seen
  fill_layers (suc left) layer num_leaves indices siblings seen = do
    (siblings', seen') ← fill_layer num_leaves layer indices siblings seen
    fill_layers left (suc layer) num_leaves indices siblings' seen'

  unfoldable pub decompress_merkle_proofs :
      List (List F) → List ℕ → List (List H) → ℕ → ℕ → Option (List (List H))
  unfolding observe_leaves fill_layers read_paths
  decompress_merkle_proofs leaves_data leaves_indices compressed_proofs height cap_height =
      let num_leaves = 2 ^ height in
      let leaves = observe_leaves num_leaves leaves_indices leaves_data (λ _. none) in
      do
        assert (leb cap_height height)
        seen ←
            fill_layers (height - cap_height) 0 num_leaves leaves_indices compressed_proofs leaves
        read_paths (height - cap_height) num_leaves leaves_indices seen
