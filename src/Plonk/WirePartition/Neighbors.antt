-- ===== src/Plonk/WirePartition/Neighbors.antt =====
-- plonky2/src/plonk/permutation_argument.rs: the map of the neighbors in `get_sigma_map`.
use native.Mathlib.Decide.{ℕ_discrete}
use native.Mathlib.Nat.{mod-lt}
use plonky.Common.{
  ℕ, zero, suc, ◌+◌, ◌%◌, ◌≤◌, ◌<◌, ◌≡◌, ◌≢◌, refl, sym, ap, subst, ◌∙◌, arith, true, false, some,
  List, [], ◌∷◌, All, map, length, get_elem?, ◌==◌, ==_refl, ==_false, if◌then◌else◌, eq_of_some,
}
use plonky.Common.Slices.{get_elem?-some}
use plonky.Plonk.PermutationArgument.{Wire}
use plonky.Plonk.WirePartition.{
  Neighbors, wire_eq, wire_at, insert_neighbor, subset_neighbors, all_neighbors,
}
use plonky.Plonk.WirePartition.Grid.{In, Distinct, get_elem?-In, Distinct-get_elem?}
use plonky.Plonk.WirePartition.Groups.{Entries, Absent, KeysDistinct, subset_of}

insert_neighbor_self :
    (w v : Wire) (neighbors : Neighbors) → insert_neighbor w v neighbors w ≡ some v
unfolding insert_neighbor
insert_neighbor_self w v neighbors = rw (==_refl w.row, ==_refl w.column) refl

wire_eq_sound : (u w : Wire) → u ≢ w → wire_eq u w ≡ false
wire_eq_sound u w ne = elim (ℕ_discrete u.row w.row) [
  | yes r ↦ elim (ℕ_discrete u.column w.column) [
    | yes c ↦ absurd (ne (λ i. wire_at (r i) (c i)))
    | no c ↦ rw (==_false u.column w.column c) (ground arith)
  ]
  | no r ↦ rw (==_false u.row w.row r) refl
]

insert_neighbor_ne :
    (w v u : Wire) (neighbors : Neighbors) → u ≢ w → insert_neighbor w v neighbors u ≡ neighbors u
unfolding insert_neighbor
insert_neighbor_ne w v u neighbors ne =
    ap (λ c. if c then some v else neighbors u) (wire_eq_sound u w ne)

-- The neighbor of the wires of one subset.
abbrev pub next_place : List Wire → ℕ → ℕ
next_place subset m = (m + 1) % length subset

record IsLinked (n : ℕ) (subset : List Wire) (before after : Neighbors) : Type 0 where
  linked :
      (m : ℕ) (w : Wire)
      → n ≤ m
      → get_elem? subset m ≡ some w
      → after w ≡ get_elem? subset (next_place subset m)
  others : (w : Wire) → ((m : ℕ) → n ≤ m → get_elem? subset m ≢ some w) → after w ≡ before w

subset_neighbors-IsLinked :
    (left n : ℕ) (subset : List Wire) (neighbors : Neighbors)
    → left + n ≡ length subset
    → Distinct subset
    → (after : Neighbors) × (subset_neighbors left n subset neighbors ≡ some after)
      × IsLinked n subset neighbors after
unfolding subset_neighbors
subset_neighbors-IsLinked zero n subset neighbors e d = (
  neighbors,
  refl,
  record {
    linked = λ m w le found. absurd (omega (arith, in_range subset m found));
    others = λ w h. refl;
  },
)
  where
    in_range : (xs : List Wire) (i : ℕ) {x : Wire} → get_elem? xs i ≡ some x → i < length xs
    in_range [] i h = cc
    in_range (x ∷ xs) zero h = omega arith
    in_range (x ∷ xs) (suc i) h = omega (arith, in_range xs i h)
subset_neighbors-IsLinked (suc left) n subset neighbors e d =
    let (w, found) = get_elem?-some subset n (omega (arith, e)) in
    let (v, next) =
      get_elem?-some subset (next_place subset n) (mod-lt (n + 1) (omega (arith, e))) in
    let (after, run, rest) =
      subset_neighbors-IsLinked left (suc n) subset (insert_neighbor w v neighbors)
        (omega (arith, e)) d in
    let not_later : (m : ℕ) → suc n ≤ m → get_elem? subset m ≢ some w =
      λ m le there. absurd (omega (arith, Distinct-get_elem? subset m n w d there found, le)) in
    (
      after,
      rw (found, next) run,
      record {
        linked = λ m u le there. elim (ℕ_discrete m n) [
          | yes here ↦
              let same : u ≡ w = eq_of_some (sym there ∙ ap (get_elem? subset) here ∙ found) in
              ap after same
              ∙ rest.others w not_later
              ∙ insert_neighbor_self w v neighbors
              ∙ sym next
              ∙ ap (λ t. get_elem? subset (next_place subset t)) (sym here)
          | no later ↦ rest.linked m u (omega (arith, le, later)) there
        ];
        others = λ u h.
            rest.others u (λ m le. h m (omega (arith, le)))
            ∙ insert_neighbor_ne w v u neighbors
                (λ same. h n (omega arith) (found ∙ ap some (sym same)));
      },
    )

module _ (key : Wire → ℕ) where
  -- Each subset has only wires of its representative, each once.
  abbrev pub Keyed : Entries → Type 0
  Keyed entries = All (λ e. ((w : Wire) → In w e.1 → key w ≡ e.0) × Distinct e.1) entries

  -- After all subsets the neighbor of a wire is the next one in its subset.
  pub all_neighbors-linked :
      (entries : Entries) (neighbors : Neighbors)
      → KeysDistinct entries
      → Keyed entries
      → (after : Neighbors) × (all_neighbors (map (λ e. e.1) entries) neighbors ≡ some after)
        × ((m : ℕ) (w : Wire)
            → get_elem? (subset_of (key w) entries) m ≡ some w
            → after w
              ≡ get_elem? (subset_of (key w) entries) (next_place (subset_of (key w) entries) m))
        × ((w : Wire) → Absent (key w) entries → after w ≡ neighbors w)
  unfolding all_neighbors subset_of
  all_neighbors-linked [] neighbors d k = (neighbors, refl, λ m w h. cc, λ w h. refl)
  all_neighbors-linked ((j, ws) ∷ entries) neighbors (fresh, d) ((keys, once), k) =
      let (mid, run1, link) =
        subset_neighbors-IsLinked (length ws) 0 ws neighbors (omega arith) once in
      let (after, run2, linked, others) = all_neighbors-linked entries mid d k in
      let unlisted : (w : Wire) → j ≢ key w → (m : ℕ) → 0 ≤ m → get_elem? ws m ≢ some w =
        λ w ne m le there. ne (sym (keys w (get_elem?-In w ws m there))) in
      (
        after,
        rw run1 run2,
        λ m w. elim (ℕ_discrete j (key w)) [
          | yes here ↦
              let test : (j == key w) ≡ true = ap (λ t. t == key w) here ∙ ==_refl (key w) in
              let whole : subset_of (key w) ((j, ws) ∷ entries) ≡ ws =
                ap (λ c. if c then ws else subset_of (key w) entries) test in
              subst (λ s. get_elem? s m ≡ some w → after w ≡ get_elem? s (next_place s m))
                (sym whole)
                (λ h.
                  others w (subst (λ t. Absent t entries) here fresh)
                  ∙ link.linked m w (omega arith) h)
          | no other ↦
              let later : subset_of (key w) ((j, ws) ∷ entries) ≡ subset_of (key w) entries =
                ap (λ c. if c then ws else subset_of (key w) entries) (==_false j (key w) other) in
              subst (λ s. get_elem? s m ≡ some w → after w ≡ get_elem? s (next_place s m))
                (sym later) (linked m w)
        ],
        λ w h. others w h.1 ∙ link.others w (unlisted w h.0),
      )
