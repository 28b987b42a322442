-- ===== src/Hash/PathCompression/Marks.antt =====
-- plonky2/src/hash/path_compression.rs: the vector of marked nodes as a set of nodes.
use native.Mathlib.Decide.{ℕ_discrete}
use plonky.Common.{
  ℕ, zero, suc, ◌*◌, ◌/◌, ◌^◌, ◌≤◌, ◌<◌, ◌≡◌, ◌≢◌, refl, sym, ap, subst, ◌∙◌, arith, inl, inr,
  bit_xor, Bool, true, false, some, List, [], length, get_elem?, set, replicate, ◌==◌,
  if◌then◌else◌, lt→ltb, length-set, length-replicate, Bool-cases, get_elem?-set_self,
  get_elem?-set_ne, ==_refl, ==_false,
}
use plonky.Hash.PathCompression.{mark}
use plonky.Hash.PathCompression.Nodes.{
  IsDeep, InLayer, ancestor-InLayer, sibling-InLayer, layer_unique, layer_bound,
}
use plonky.Hash.PathCompression.Sets.{
  Layers, above, beside, covers, push, covers-above, covers-beside, covers-cong, covers-again,
}

get_elem?-set {ℓ} :
    {A : Type ℓ} (xs : List A) (i j : ℕ) (v : A)
    → i < length xs
    → get_elem? (set xs i v) j ≡ (if j == i then some v else get_elem? xs j)
get_elem?-set xs i j v h = elim (ℕ_discrete i j) [
  | yes same ↦
      ap (get_elem? (set xs i v)) (sym same)
      ∙ get_elem?-set_self xs i v h
      ∙ sym
          (ap (λ b. if b then some v else get_elem? xs j) (ap (λ t. t == i) (sym same) ∙ ==_refl i))
  | no other ↦
      get_elem?-set_ne xs v other
      ∙ sym (ap (λ b. if b then some v else get_elem? xs j) (==_false j i (λ e. other (sym e))))
]

module _ (h m : ℕ) (le : m ≤ h) where
  -- The vector `known` holds the set.
  abbrev pub Marks : List Bool → Layers → Layers → Type 0
  Marks known a b =
      (length known ≡ 2 * 2 ^ h)
      × ((l x : ℕ) → l < m → InLayer h l x → get_elem? known x ≡ some (covers a b l x))

  pub Marks-cong :
      (known : List Bool) (a a' b b' : Layers)
      → ((l : ℕ) → l < m → a l ≡ a' l)
      → ((l : ℕ) → l < m → b l ≡ b' l)
      → Marks known a b
      → Marks known a' b'
  Marks-cong known a a' b b' p q (len, held) =
      (len, λ l x lt deep. held l x lt deep ∙ ap some (covers-cong a a' b b' l x (p l lt) (q l lt)))

  -- Marking a node of layer `j`.
  mark_node :
      (known : List Bool) (j y : ℕ)
      → length known ≡ 2 * 2 ^ h
      → InLayer h j y
      → (mark y known ≡ some (set known y true))
        × (length (set known y true) ≡ 2 * 2 ^ h)
        × ((x : ℕ)
            → get_elem? (set known y true) x ≡ (if x == y then some true else get_elem? known x))
  unfolding mark
  mark_node known j y len deep =
      let inside : y < length known = omega (arith, len, layer_bound h j y deep) in
      (
        rw (lt→ltb y (length known) inside) refl,
        length-set known y true ∙ len,
        λ x. get_elem?-set known y x true inside,
      )

  apart : (j l x y : ℕ) → j ≤ h → l < m → InLayer h j y → InLayer h l x → l ≢ j → x ≢ y
  apart j l x y p q a b ne e =
      ne (layer_unique h l j x (omega arith) p b (subst (InLayer h j) (sym e) a))

  push_test :
      (c : Bool) (t : Bool) → (if c then some true else some t) ≡ some (if c then true else t)
  push_test c t = ground arith

  unchanged :
      (known : List Bool) (x y : ℕ)
      → get_elem? known y ≡ some true
      → get_elem? known x ≡ (if x == y then some true else get_elem? known x)
  unchanged known x y there = elim (ℕ_discrete x y) [
    | yes same ↦ ground (arith, there, ap (get_elem? known) same)
    | no other ↦ sym (ap (λ c. if c then some true else get_elem? known x) (==_false x y other))
  ]

  pub Marks-above :
      (known : List Bool) (a b : Layers) (j n : ℕ)
      → j ≤ h
      → IsDeep h n
      → Marks known a b
      → (known' : List Bool) × (mark (n / 2 ^ j) known ≡ some known') × Marks known' (push j n a) b
  Marks-above known a b j n jh deep (len, held) =
      let y_deep = ancestor-InLayer h j n jh deep in
      let (run, len', law) = mark_node known j (n / 2 ^ j) len y_deep in
      (
        set known (n / 2 ^ j) true,
        run,
        (
          len',
          λ l x lt x_deep.
              law x
              ∙ ap (λ o. if x == n / 2 ^ j then some true else o) (held l x lt x_deep)
              ∙ push_test (x == n / 2 ^ j) (covers a b l x)
              ∙ ap some
                  (sym (covers-above a b j n l x (apart j l x (n / 2 ^ j) jh lt y_deep x_deep))),
        ),
      )

  -- Marking the sibling of an ancestor, or leaving it if it is marked.
  pub Marks-beside :
      (known : List Bool) (a b : Layers) (j n : ℕ)
      → j < m
      → IsDeep h n
      → Marks known a b
      → let y = bit_xor (n / 2 ^ j) 1 in
        (known' : List Bool) × (get_elem? known y ≡ some (covers a b j y))
        × ((if covers a b j y then some known else mark y known) ≡ some known')
        × Marks known' a (push j n b)
  Marks-beside known a b j n jm deep (len, held) =
      let y = bit_xor (n / 2 ^ j) 1 in
      let y_deep =
        sibling-InLayer h j (n / 2 ^ j) (omega (arith, jm))
          (ancestor-InLayer h j n (omega (arith, jm)) deep) in
      let (run, len', law) = mark_node known j y len y_deep in
      let there = held j y jm y_deep in
      let after : (l x : ℕ)
          → l < m
          → InLayer h l x
          → (if x == y then some true else get_elem? known x) ≡ some (covers a (push j n b) l x) =
        λ l x lt x_deep.
          ap (λ o. if x == y then some true else o) (held l x lt x_deep)
          ∙ push_test (x == y) (covers a b l x)
          ∙ ap some (
              sym
                (covers-beside a b j n l x (apart j l x y (omega (arith, jm)) lt y_deep x_deep))) in
      elim (Bool-cases (covers a b j y)) [
        | inl old ↦ (
          known,
          there,
          ap (λ t. if t then some known else mark y known) old,
          (len, λ l x lt x_deep. unchanged known x y (there ∙ ap some old) ∙ after l x lt x_deep),
        )
        | inr new ↦ (
          set known y true,
          there,
          ap (λ t. if t then some known else mark y known) new ∙ run,
          (len', λ l x lt x_deep. law x ∙ after l x lt x_deep),
        )
      ]

  -- Marking a node that is in the set, or above the layers of the set.
  pub Marks-again :
      (known : List Bool) (a b : Layers) (j n : ℕ)
      → j ≤ h
      → (j < m → above j (a j) (n / 2 ^ j) ≡ true)
      → IsDeep h n
      → Marks known a b
      → (known' : List Bool) × (mark (n / 2 ^ j) known ≡ some known') × Marks known' a b
  Marks-again known a b j n jh there deep marks =
      let (known', run, (len', held')) = Marks-above known a b j n jh deep marks in
      (
        known',
        run,
        (
          len',
          λ l x lt deep_x. held' l x lt deep_x ∙ ap some (covers-again a b j n l x (inside l lt)),
        ),
      )
    where
      inside : (l : ℕ) → l < m → l ≡ j → above j (a j) (n / 2 ^ j) ≡ true
      inside l lt same = there (omega (arith, lt, same))

  -- Before anything is marked.
  pub Marks-replicate : Marks (replicate (2 * 2 ^ h) false) (λ _. []) (λ _. [])
  unfolding covers above beside
  Marks-replicate = (
    length-replicate (2 * 2 ^ h) false,
    λ l x lt deep. fresh (2 * 2 ^ h) x (layer_bound h l x deep),
  )
    where
      fresh : (n x : ℕ) → x < n → get_elem? (replicate n false) x ≡ some false
      fresh zero x h = absurd (omega arith)
      fresh (suc n) zero h = refl
      fresh (suc n) (suc x) h = fresh n x (omega arith)
