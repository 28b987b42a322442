-- ===== src/Plonk/WirePartition/Orbits.antt =====
-- plonky2/src/plonk/permutation_argument.rs: the cycles of `sigma`.
use native.Mathlib.Nat.{
  mod-lt, mod-mod, mod-eq_of_lt, mul-div_cancel, div-lt_iff_lt-mul, div-add-mod', mul-le-mul_right,
}
use plonky.Common.{
  ℕ, zero, suc, ◌+◌, ◌*◌, ◌/◌, ◌%◌, ◌-◌, ◌≤◌, ◌<◌, ◌≡◌, ◌↔◌, refl, sym, ap, ◌∙◌, arith, Option,
  some, List, [], ◌∷◌, length, get_elem?, ◌>>=◌, eq_of_some,
}
use plonky.Common.Modular.{add-mod_congr, mod-eq_of_split}
use plonky.Common.Slices.{get_elem?-some}
use plonky.Plonk.PermutationArgument.{Wire, wire, Forest, target_index}
use plonky.Plonk.WirePartition.{wire_at, wire_partition, get_sigma_map}
use plonky.Plonk.WirePartition.Grid.{In, In-get_elem?, get_elem?-In, grid-In, In-grid}
use plonky.Plonk.WirePartition.Groups.{class, class-In, In-class}
use plonky.Plonk.WirePartition.Neighbors.{next_place}
use plonky.Plonk.WirePartition.Sigma.{routed, get_sigma_map-next, next_some}
use plonky.Plonk.WirePartition.Columns.{position}

-- `t` steps of `sigma` from a place.
unfoldable pub iterate : ℕ → List ℕ → ℕ → Option ℕ
iterate zero sigma p = some p
iterate (suc t) sigma p = do q ← get_elem? sigma p; iterate t sigma q

module _ (sigma : List ℕ) (degree : ℕ) (ws : List Wire)
    (next : (m : ℕ) (w v : Wire)
      → get_elem? ws m ≡ some w
      → get_elem? ws (next_place ws m) ≡ some v
      → get_elem? sigma (position degree w) ≡ some (position degree v)) where
  -- From one wire of a class, `t` steps lead to the one `t` places further on, round the class.
  iterate-class :
      (t m : ℕ) (w : Wire)
      → get_elem? ws m ≡ some w
      → m < length ws
      → (v : Wire) × (get_elem? ws ((m + t) % length ws) ≡ some v)
        × (iterate t sigma (position degree w) ≡ some (position degree v))
  unfolding iterate
  iterate-class zero m w here lt = (
    w,
    ap (get_elem? ws) (ap (λ (s : ℕ). s % length ws) {x = m + 0} (omega arith) ∙ mod-eq_of_lt lt)
        ∙ here,
    refl,
  )
  iterate-class (suc t) m w here lt =
      let below = mod-lt (m + 1) (omega (arith, lt)) in
      let (u, there) = get_elem?-some ws (next_place ws m) below in
      let (v, place, run) = iterate-class t (next_place ws m) u there below in
      (v, ap (get_elem? ws) (turn m t) ∙ place, rw (next m w u here there) run)
    where
      turn : (m t : ℕ) → (m + suc t) % length ws ≡ (next_place ws m + t) % length ws
      turn m t =
          ap (λ (s : ℕ). s % length ws) {x = m + suc t} {y = m + 1 + t} (omega arith)
          ∙ add-mod_congr (length ws) (m + 1) (next_place ws m) t t
              (sym (mod-mod (m + 1) (length ws))) refl

in_range : (xs : List Wire) (i : ℕ) {x : Wire} → get_elem? xs i ≡ some x → i < length xs
in_range [] i h = cc
in_range (x ∷ xs) zero h = omega arith
in_range (x ∷ xs) (suc i) h = omega (arith, in_range xs i h)

position-injective :
    (degree : ℕ) (u v : Wire)
    → u.row < degree
    → v.row < degree
    → position degree u ≡ position degree v
    → u ≡ v
position-injective degree u v a b e =
    let row : u.row ≡ v.row =
      sym (mod-eq_of_split degree (position degree u) u.column u.row (omega arith) a)
      ∙ ap (λ (t : ℕ). t % degree) e
      ∙ mod-eq_of_split degree (position degree v) v.column v.row (omega arith) b in
    let column : u.column ≡ v.column =
      sym (mul-div_cancel u.column (omega (arith, a)))
      ∙ ap (λ (t : ℕ). t / degree) {x = u.column * degree} {y = v.column * degree}
          (omega (arith, row, e))
      ∙ mul-div_cancel v.column (omega (arith, a)) in
    λ i. wire_at (row i) (column i)

module _ (key : Wire → ℕ) (forest : Forest) (sigma : List ℕ)
    (next : (k m : ℕ) (w v : Wire)
      → get_elem? (class key k (routed forest)) m ≡ some w
      → get_elem? (class key k (routed forest)) (next_place (class key k (routed forest)) m)
        ≡ some v
      → get_elem? sigma (position forest.degree w) ≡ some (position forest.degree v)) where
  orbit-class :
      (w v : Wire)
      → In w (routed forest)
      → In v (routed forest)
      → (t : ℕ) → iterate t sigma (position forest.degree w) ≡ some (position forest.degree v)
      → key w ≡ key v
  orbit-class w v in_w in_v t reached =
      let ws = class key (key w) (routed forest) in
      let (m, here) = In-get_elem? w ws (In-class key (key w) (routed forest) w in_w refl) in
      let (u, place, run) =
        iterate-class sigma forest.degree ws (next (key w)) t m w here (in_range ws m here) in
      let (in_u, same) = class-In key (key w) (routed forest) u (get_elem?-In u ws _ place) in
      let row_u = (grid-In forest.degree 0 forest.num_routed_wires u in_u).1 in
      let row_v = (grid-In forest.degree 0 forest.num_routed_wires v in_v).1 in
      sym same
      ∙ ap key (
          position-injective forest.degree u v (omega (arith, row_u)) (omega (arith, row_v))
            (eq_of_some (sym run ∙ reached)))

  class-orbit :
      (w v : Wire)
      → In w (routed forest)
      → In v (routed forest)
      → key w ≡ key v
      → (t : ℕ) × (iterate t sigma (position forest.degree w) ≡ some (position forest.degree v))
  class-orbit w v in_w in_v same =
      let ws = class key (key w) (routed forest) in
      let (m, here) = In-get_elem? w ws (In-class key (key w) (routed forest) w in_w refl) in
      let (n, there) = In-get_elem? v ws (In-class key (key w) (routed forest) v in_v (sym same)) in
      let low = in_range ws m here in
      let high = in_range ws n there in
      let t = n + (length ws - m) in
      let (u, place, run) = iterate-class sigma forest.degree ws (next (key w)) t m w here low in
      let round : (m + t) % length ws ≡ n =
        mod-eq_of_split (length ws) (m + t) 1 n (omega (arith, low)) high in
      let found : u ≡ v = eq_of_some (sym place ∙ ap (get_elem? ws) round ∙ there) in
      (t, run ∙ ap (λ x. some (position forest.degree x)) found)

  -- Every value of `sigma` is the place of a routed wire.
  sigma-below :
      length sigma ≡ forest.num_routed_wires * forest.degree
      → (i x : ℕ) → get_elem? sigma i ≡ some x
      → x < forest.num_routed_wires * forest.degree
  sigma-below len i x found =
      let lt : i < forest.num_routed_wires * forest.degree =
        omega (arith, len, index_in_range sigma i found) in
      let pos : 0 < forest.degree = degree_pos forest.degree lt in
      let w = wire_at (i % forest.degree) (i / forest.degree) in
      let in_w =
        In-grid forest.degree 0 forest.num_routed_wires w (omega arith)
          (omega (arith, mod-lt i pos)) ((div-lt_iff_lt-mul pos).1 lt) in
      let ws = class key (key w) (routed forest) in
      let (m, here) = In-get_elem? w ws (In-class key (key w) (routed forest) w in_w refl) in
      let (v, there) = next_some ws m w here in
      let (in_v, _) = class-In key (key w) (routed forest) v (get_elem?-In v ws _ there) in
      let (_, row, column) = grid-In forest.degree 0 forest.num_routed_wires v in_v in
      let same : position forest.degree v ≡ x = eq_of_some (
        sym (next (key w) m w v here there)
        ∙ ap (get_elem? sigma) (div-add-mod' i forest.degree)
        ∙ found) in
      let scaled : (v.column + 1) * forest.degree ≤ forest.num_routed_wires * forest.degree =
        mul-le-mul_right forest.degree (omega (arith, column)) in
      omega (arith, same, row, scaled)
    where
      index_in_range : (xs : List ℕ) (i : ℕ) {x : ℕ} → get_elem? xs i ≡ some x → i < length xs
      index_in_range [] i h = cc
      index_in_range (y ∷ ys) zero h = omega arith
      index_in_range (y ∷ ys) (suc i) h = omega (arith, index_in_range ys i h)

      degree_pos : (d : ℕ) → i < forest.num_routed_wires * d → 0 < d
      degree_pos zero lt = absurd (omega arith)
      degree_pos (suc d) lt = omega arith

-- In a forest where the parent of each routed wire is its representative: `wire_partition` and
-- `get_sigma_map` end without a panic, `sigma` has a place of a routed wire for each routed wire,
-- and one routed wire is reached from another by following
-- `sigma` exactly when they have the same representative: the cycles of `sigma` are the sets.
pub get_sigma_map-orbits :
    (forest : Forest) (key : Wire → ℕ)
    → ((w : Wire)
        → In w (routed forest)
        → get_elem? forest.parents (target_index forest (wire w)) ≡ some (key w))
    → (partition : List (List Wire)) × (sigma : List ℕ) × (wire_partition forest ≡ some partition)
      × (get_sigma_map partition forest.degree forest.num_routed_wires ≡ some sigma)
      × (length sigma ≡ forest.num_routed_wires * forest.degree)
      × ((i x : ℕ) → get_elem? sigma i ≡ some x → x < forest.num_routed_wires * forest.degree)
      × ((w v : Wire)
          → In w (routed forest)
          → In v (routed forest)
          → ((t : ℕ) × (iterate t sigma (position forest.degree w)
                ≡ some (position forest.degree v)))
            ↔ (key w ≡ key v))
get_sigma_map-orbits forest key parents =
    let (partition, sigma, run, run', len, next) = get_sigma_map-next forest key parents in
    (
      partition,
      sigma,
      run,
      run',
      len,
      sigma-below key forest sigma next len,
      λ w v in_w in_v. (
        λ (t, reached). orbit-class key forest sigma next w v in_w in_v t reached,
        λ same. class-orbit key forest sigma next w v in_w in_v same,
      ),
    )
