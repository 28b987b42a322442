-- ===== src/Plonk/WirePartition/Groups.antt =====
-- plonky2/src/plonk/permutation_argument.rs: the subsets of `wire_partition`, each with the wires
-- of one representative.
use native.Mathlib.Decide.{ℕ_discrete}
use plonky.Common.{
  ℕ, ◌≡◌, ◌≢◌, refl, sym, ap, subst, ◌∙◌, arith, inl, inr, true, some, List, [], ◌∷◌, ◌++◌, All,
  get_elem?, ◌==◌, ==_refl, ==_false, if◌then◌else◌, append_assoc, append_nil,
}
use plonky.Plonk.PermutationArgument.{Wire, wire, Forest, target_index}
use plonky.Plonk.WirePartition.{group, push_entry}
use plonky.Plonk.WirePartition.Grid.{In, Distinct}

abbrev pub Entries : Type 0
Entries = List (ℕ × List Wire)

-- The subset of a representative, empty if there is none.
unfoldable pub subset_of : ℕ → Entries → List Wire
subset_of k [] = []
subset_of k ((j, ws) ∷ entries) = if j == k then ws else subset_of k entries

abbrev pub Absent : ℕ → Entries → Type 0
Absent k entries = All (λ e. e.0 ≢ k) entries

abbrev pub KeysDistinct : Entries → Type 0
KeysDistinct [] = Unit
KeysDistinct ((k, _) ∷ entries) = Absent k entries × KeysDistinct entries

subset_of-Absent : (k : ℕ) (entries : Entries) → Absent k entries → subset_of k entries ≡ []
unfolding subset_of
subset_of-Absent k [] h = refl
subset_of-Absent k ((j, ws) ∷ entries) (ne, h) = rw (==_false j k ne) (subset_of-Absent k entries h)

module _ (key : Wire → ℕ) where
  -- The wires of a representative.
  unfoldable pub class : ℕ → List Wire → List Wire
  class k [] = []
  class k (w ∷ ws) = let rest = class k ws in if key w == k then w ∷ rest else rest

  pub class-In : (k : ℕ) (ws : List Wire) (w : Wire) → In w (class k ws) → In w ws × (key w ≡ k)
  unfolding class
  class-In k [] w h = absurd h
  class-In k (x ∷ ws) w h = elim (ℕ_discrete (key x) k) [
    | yes here ↦
        first here (class-In k ws w)
          (subst (In w) (ap (λ c. if c then x ∷ class k ws else class k ws) (test here)) h)
    | no other ↦
        let (there, e) = class-In k ws w (
          subst (In w)
            (ap (λ c. if c then x ∷ class k ws else class k ws) (==_false (key x) k other)) h) in
        (inr there, e)
  ]
    where
      test : key x ≡ k → (key x == k) ≡ true
      test e = ap (λ t. t == k) e ∙ ==_refl k

      first :
          key x ≡ k
          → (In w (class k ws) → In w ws × (key w ≡ k))
          → In w (x ∷ class k ws)
          → In w (x ∷ ws) × (key w ≡ k)
      first e later (inl same) = (inl same, ap key (sym same) ∙ e)
      first e later (inr there) = let (h, e') = later there in (inr h, e')

  pub In-class : (k : ℕ) (ws : List Wire) (w : Wire) → In w ws → key w ≡ k → In w (class k ws)
  unfolding class
  In-class k [] w h e = absurd h
  In-class k (x ∷ ws) w (inl same) e =
      let test : (key x == k) ≡ true = ap (λ u. key u == k) same ∙ ap (λ t. t == k) e ∙ ==_refl k in
      rw test (inl same)
  In-class k (x ∷ ws) w (inr there) e = elim (ℕ_discrete (key x) k) [
    | yes here ↦
        let test : (key x == k) ≡ true = ap (λ t. t == k) here ∙ ==_refl k in
        rw test (inr (In-class k ws w there e))
    | no other ↦ rw (==_false (key x) k other) (In-class k ws w there e)
  ]

  pub class-Distinct : (k : ℕ) (ws : List Wire) → Distinct ws → Distinct (class k ws)
  unfolding class
  class-Distinct k [] d = tt
  class-Distinct k (x ∷ ws) (fresh, d) = elim (ℕ_discrete (key x) k) [
    | yes here ↦
        let test : (key x == k) ≡ true = ap (λ t. t == k) here ∙ ==_refl k in
        rw test (λ h. fresh (class-In k ws x h).0, class-Distinct k ws d)
    | no other ↦ rw (==_false (key x) k other) (class-Distinct k ws d)
  ]

  -- The entries after the wires.
  unfoldable pub grouped : List Wire → Entries → Entries
  grouped [] entries = entries
  grouped (w ∷ ws) entries = grouped ws (push_entry (key w) w entries)

  pub group-grouped :
      (forest : Forest) (ws : List Wire) (entries : Entries)
      → ((w : Wire)
          → In w ws
          → get_elem? forest.parents (target_index forest (wire w)) ≡ some (key w))
      → group forest ws entries ≡ some (grouped ws entries)
  unfolding group grouped
  group-grouped forest [] entries h = refl
  group-grouped forest (w ∷ ws) entries h =
      rw (h w (inl refl))
        (group-grouped forest ws (push_entry (key w) w entries) (λ u there. h u (inr there)))

  subset_of-push_entry :
      (k : ℕ) (w : Wire) (entries : Entries)
      → subset_of k (push_entry (key w) w entries) ≡ subset_of k entries ++ class k (w ∷ [])
  unfolding subset_of push_entry class
  subset_of-push_entry k w [] = ground arith
  subset_of-push_entry k w ((j, ws) ∷ entries) =
      ground
        (arith, subset_of-push_entry k w entries, append_nil ws, append_nil (subset_of k entries))

  push_entry-Absent :
      (k : ℕ) (w : Wire) (entries : Entries)
      → key w ≢ k
      → Absent k entries
      → Absent k (push_entry (key w) w entries)
  unfolding push_entry
  push_entry-Absent k w [] ne h = (ne, tt)
  push_entry-Absent k w ((j, ws) ∷ entries) ne (p, h) = elim (ℕ_discrete j (key w)) [
    | yes same ↦
        let test : (j == key w) ≡ true = ap (λ t. t == key w) same ∙ ==_refl (key w) in
        rw test (p, h)
    | no other ↦ rw (==_false j (key w) other) (p, push_entry-Absent k w entries ne h)
  ]

  push_entry-KeysDistinct :
      (w : Wire) (entries : Entries)
      → KeysDistinct entries
      → KeysDistinct (push_entry (key w) w entries)
  unfolding push_entry
  push_entry-KeysDistinct w [] d = (tt, tt)
  push_entry-KeysDistinct w ((j, ws) ∷ entries) (fresh, d) = elim (ℕ_discrete j (key w)) [
    | yes same ↦
        let test : (j == key w) ≡ true = ap (λ t. t == key w) same ∙ ==_refl (key w) in
        rw test (fresh, d)
    | no other ↦ rw (==_false j (key w) other) (
      push_entry-Absent j w entries (λ e. other (sym e)) fresh,
      push_entry-KeysDistinct w entries d,
    )
  ]

  class-cons :
      (k : ℕ) (w : Wire) (ws : List Wire) → class k (w ∷ []) ++ class k ws ≡ class k (w ∷ ws)
  unfolding class
  class-cons k w ws = ground arith

  -- The subset of each representative is its class, in order, after what was there.
  pub subset_of-grouped :
      (k : ℕ) (ws : List Wire) (entries : Entries)
      → subset_of k (grouped ws entries) ≡ subset_of k entries ++ class k ws
  unfolding grouped class
  subset_of-grouped k [] entries = sym (append_nil (subset_of k entries))
  subset_of-grouped k (w ∷ ws) entries =
      subset_of-grouped k ws (push_entry (key w) w entries)
      ∙ ap (λ l. l ++ class k ws) (subset_of-push_entry k w entries)
      ∙ append_assoc (subset_of k entries) (class k (w ∷ [])) (class k ws)
      ∙ ap (λ l. subset_of k entries ++ l) (class-cons k w ws)

  pub grouped-KeysDistinct :
      (ws : List Wire) (entries : Entries)
      → KeysDistinct entries
      → KeysDistinct (grouped ws entries)
  unfolding grouped
  grouped-KeysDistinct [] entries d = d
  grouped-KeysDistinct (w ∷ ws) entries d =
      grouped-KeysDistinct ws (push_entry (key w) w entries) (push_entry-KeysDistinct w entries d)
