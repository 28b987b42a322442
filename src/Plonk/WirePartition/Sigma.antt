-- ===== src/Plonk/WirePartition/Sigma.antt =====
-- plonky2/src/plonk/permutation_argument.rs: what `get_sigma_map` returns on the partition of a
-- forest.
use plonky.Common.{
  ℕ, ◌+◌, ◌*◌, ◌≡◌, refl, sym, ap, subst, ◌∙◌, arith, none, some, List, [], ◌∷◌, All, map, length,
  get_elem?, ==_refl, ==_false, if◌then◌else◌,
}
use plonky.Common.Slices.{get_elem?-some}
use native.Mathlib.Nat.{mod-lt}
use plonky.Plonk.PermutationArgument.{Wire, wire, Forest, target_index}
use plonky.Plonk.WirePartition.{
  range, wire_at, grid, wire_partition, Neighbors, get_sigma_map, all_neighbors,
}
use plonky.Plonk.WirePartition.Grid.{
  In, Distinct, In-get_elem?, get_elem?-In, grid-In, In-grid, grid-Distinct,
}
use plonky.Plonk.WirePartition.Groups.{
  Entries, Absent, KeysDistinct, subset_of, class, class-In, In-class, class-Distinct, grouped,
  group-grouped, subset_of-grouped, grouped-KeysDistinct,
}
use plonky.Plonk.WirePartition.Neighbors.{next_place, Keyed, all_neighbors-linked}
use plonky.Plonk.WirePartition.Columns.{position, sigma_columns-reads}

subsets_listed :
    (entries : Entries) → KeysDistinct entries → All (λ e. subset_of e.0 entries ≡ e.1) entries
unfolding subset_of
subsets_listed [] d = tt
subsets_listed ((j, ws) ∷ entries) (fresh, d) = (
  ap (λ c. if c then ws else subset_of j entries) (==_refl j),
  further entries fresh (subsets_listed entries d),
)
  where
    further :
        (xs : Entries)
        → Absent j xs
        → All (λ e. subset_of e.0 entries ≡ e.1) xs
        → All (λ e. subset_of e.0 ((j, ws) ∷ entries) ≡ e.1) xs
    further [] fresh h = tt
    further ((k, vs) ∷ xs) (ne, fresh) (e, h) = (
      ap (λ c. if c then ws else subset_of k entries) (==_false j k (λ same. ne (sym same))) ∙ e,
      further xs fresh h,
    )

module _ (key : Wire → ℕ) (wires : List Wire) (once : Distinct wires) where
  abbrev entries : Entries
  entries = grouped key wires []

  subset_of-entries : (k : ℕ) → subset_of k entries ≡ class key k wires
  unfolding subset_of
  subset_of-entries k = subset_of-grouped key k wires []

  entries-Keyed : Keyed key entries
  entries-Keyed = each entries (subsets_listed entries (grouped-KeysDistinct key wires [] tt))
    where
      each : (xs : Entries) → All (λ e. subset_of e.0 entries ≡ e.1) xs → Keyed key xs
      each [] h = tt
      each ((k, vs) ∷ xs) (e, h) =
          let same : class key k wires ≡ vs = sym (subset_of-entries k) ∙ e in
          (
            (
              λ w there. (class-In key k wires w (subst (In w) (sym same) there)).1,
              subst Distinct same (class-Distinct key k wires once),
            ),
            each xs h,
          )

  -- The neighbor of a wire is the next one of its class.
  entries-neighbors :
      (after : Neighbors) × (all_neighbors (map (λ e. e.1) entries) (λ _. none) ≡ some after)
      × ((m : ℕ) (w : Wire)
          → get_elem? (class key (key w) wires) m ≡ some w
          → after w ≡ get_elem? (class key (key w) wires) (next_place (class key (key w) wires) m))
  entries-neighbors =
      let (after, run, linked, _) =
        all_neighbors-linked key entries (λ _. none) (grouped-KeysDistinct key wires [] tt)
          entries-Keyed in
      (
        after,
        run,
        λ m w.
            subst (λ s. get_elem? s m ≡ some w → after w ≡ get_elem? s (next_place s m))
              (subset_of-entries (key w)) (linked m w),
      )

pub next_some :
    (ws : List Wire) (m : ℕ) (w : Wire)
    → get_elem? ws m ≡ some w
    → (v : Wire) × (get_elem? ws (next_place ws m) ≡ some v)
next_some [] m w h = cc
next_some (x ∷ ws) m w h =
    get_elem?-some (x ∷ ws) (next_place (x ∷ ws) m) (mod-lt (m + 1) (omega arith))

neighbor_of :
    (key : Wire → ℕ) (wires : List Wire) (after : Neighbors)
    → ((m : ℕ) (w : Wire)
        → get_elem? (class key (key w) wires) m ≡ some w
        → after w ≡ get_elem? (class key (key w) wires) (next_place (class key (key w) wires) m))
    → (w : Wire) → In w wires
    → (v : Wire) × (after w ≡ some v)
neighbor_of key wires after next w inside =
    let (m, here) =
      In-get_elem? w (class key (key w) wires) (In-class key (key w) wires w inside refl) in
    let (v, there) = next_some (class key (key w) wires) m w here in (v, next m w here ∙ there)

-- The routed wires of a forest.
abbrev pub routed : Forest → List Wire
routed forest = grid (range forest.degree 0) (range forest.num_routed_wires 0)

-- In a forest where the parent of each routed wire is its representative: `wire_partition` and
-- `get_sigma_map` end without a panic, and at the place of a wire `sigma` has the place of the next
-- wire with the same representative, and for the last one that of the first.
pub get_sigma_map-next :
    (forest : Forest) (key : Wire → ℕ)
    → ((w : Wire)
        → In w (routed forest)
        → get_elem? forest.parents (target_index forest (wire w)) ≡ some (key w))
    → (partition : List (List Wire)) × (sigma : List ℕ) × (wire_partition forest ≡ some partition)
      × (get_sigma_map partition forest.degree forest.num_routed_wires ≡ some sigma)
      × (length sigma ≡ forest.num_routed_wires * forest.degree)
      × ((k m : ℕ) (w v : Wire)
          → get_elem? (class key k (routed forest)) m ≡ some w
          → get_elem? (class key k (routed forest)) (next_place (class key k (routed forest)) m)
            ≡ some v
          → get_elem? sigma (position forest.degree w) ≡ some (position forest.degree v))
unfolding wire_partition get_sigma_map
get_sigma_map-next forest key parents =
    let wires = routed forest in
    let once = grid-Distinct forest.degree 0 forest.num_routed_wires in
    let (after, run, next) = entries-neighbors key wires once in
    let (sigma, run', len, reads) =
      sigma_columns-reads after forest.degree forest.num_routed_wires 0 (λ c r low high below.
        neighbor_of key wires after next (wire_at r c) (
          In-grid forest.degree 0 forest.num_routed_wires (wire_at r c) (omega arith)
            (omega (arith, below)) (omega (arith, high)))) in
    (
      map (λ e. e.1) (entries key wires once),
      sigma,
      rw (group-grouped key forest wires [] parents) refl,
      rw run run',
      len,
      λ k m w v here there.
          let (inside, same) = class-In key k wires w (get_elem?-In w (class key k wires) m here) in
          let (_, row, column) = grid-In forest.degree 0 forest.num_routed_wires w inside in
          let linked =
            subst
              (λ t.
                get_elem? (class key t wires) m ≡ some w
                → after w ≡ get_elem? (class key t wires) (next_place (class key t wires) m))
              same (next m w) in
          reads w.column w.row v column (omega (arith, row)) (
            ap (λ t. after (wire_at w.row t)) {x = 0 + w.column} {y = w.column} (omega arith)
            ∙ linked here
            ∙ there),
    )
