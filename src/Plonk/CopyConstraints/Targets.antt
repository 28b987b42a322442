-- ===== src/Plonk/CopyConstraints/Targets.antt =====
-- plonky2/src/plonk/circuit_builder.rs: the targets that the copy constraints connect, and their
-- indices.
use native.Mathlib.Nat.{mul-div_cancel, mul-le-mul_right}
use plonky.Common.{
  ℕ, ◌+◌, ◌*◌, ◌/◌, ◌%◌, ◌≤◌, ◌<◌, ◌≡◌, refl, sym, ap, subst, ◌∙◌, arith, ◌⊎◌, inl, inr, List, [],
  ◌∷◌, All,
}
use plonky.Common.Modular.{mod-eq_of_split}
use plonky.Plonk.PermutationArgument.{Target, wire, virtual_target, index}
use plonky.Plonk.PermutationArgument.Connected.{Edge, Connected, same, forth, back}
use plonky.Plonk.WirePartition.{wire_at}

abbrev pub Constraints : Type 0
Constraints = List (Target × Target)

abbrev pub IsConstraint : Constraints → Target → Target → Type 0
IsConstraint [] s t = ⊥
IsConstraint ((a, b) ∷ constraints) s t = ((a ≡ s) × (b ≡ t)) ⊎ IsConstraint constraints s t

-- A chain of copy constraints, each in either direction.
pub data Copied (constraints : Constraints) : Target → Target → Type 0 where
  alike : {t : Target} → Copied constraints t t
  copy :
      {s t u : Target}
      → IsConstraint constraints s t
      → Copied constraints t u
      → Copied constraints s u
  copy_back :
      {s t u : Target}
      → IsConstraint constraints t s
      → Copied constraints t u
      → Copied constraints s u

module _ (num_wires degree num_virtual : ℕ) where
  -- A target of the circuit.
  abbrev pub IsTarget : Target → Type 0
  IsTarget (wire w) = (w.row < degree) × (w.column < num_wires)
  IsTarget (virtual_target i) = i < num_virtual

  pub IsTarget-index :
      (t : Target) → IsTarget t → index t num_wires degree < num_virtual + degree * num_wires
  unfolding index
  IsTarget-index (wire w) (r, c) =
      let scaled : (w.row + 1) * num_wires ≤ degree * num_wires =
        mul-le-mul_right num_wires (omega (arith, r)) in
      omega (arith, scaled, c)
  IsTarget-index (virtual_target i) h = omega (arith, h)

  -- The targets have different indices.
  pub index-injective :
      (s t : Target)
      → IsTarget s
      → IsTarget t
      → index s num_wires degree ≡ index t num_wires degree
      → s ≡ t
  unfolding index
  index-injective (wire u) (wire v) (ru, cu) (rv, cv) e =
      let column : u.column ≡ v.column =
        sym
          (mod-eq_of_split num_wires (u.row * num_wires + u.column) u.row u.column (omega arith) cu)
        ∙ ap (λ (t : ℕ). t % num_wires) e
        ∙ mod-eq_of_split num_wires (v.row * num_wires + v.column) v.row v.column (omega arith)
            cv in
      let row : u.row ≡ v.row =
        sym (mul-div_cancel u.row (omega (arith, cu)))
        ∙ ap (λ (t : ℕ). t / num_wires) {x = u.row * num_wires} {y = v.row * num_wires}
            (omega (arith, column, e))
        ∙ mul-div_cancel v.row (omega (arith, cu)) in
      λ i. wire (wire_at (row i) (column i))
  index-injective (wire u) (virtual_target i) (r, c) h e =
      let scaled : (u.row + 1) * num_wires ≤ degree * num_wires =
        mul-le-mul_right num_wires (omega (arith, r)) in
      absurd (omega (arith, scaled, c, e))
  index-injective (virtual_target i) (wire u) h (r, c) e =
      let scaled : (u.row + 1) * num_wires ≤ degree * num_wires =
        mul-le-mul_right num_wires (omega (arith, r)) in
      absurd (omega (arith, scaled, c, e))
  index-injective (virtual_target i) (virtual_target j) h k e = ap virtual_target (omega (arith, e))

  -- The pairs of indices of the constraints.
  unfoldable pub pairs : Constraints → List (ℕ × ℕ)
  pairs [] = []
  pairs ((a, b) ∷ constraints) =
      (index a num_wires degree, index b num_wires degree) ∷ pairs constraints

  abbrev pub AreTargets : Constraints → Type 0
  AreTargets constraints = All (λ c. IsTarget c.0 × IsTarget c.1) constraints

  IsConstraint-Edge :
      (constraints : Constraints) (s t : Target)
      → IsConstraint constraints s t
      → Edge (pairs constraints) (index s num_wires degree) (index t num_wires degree)
  unfolding pairs
  IsConstraint-Edge [] s t h = absurd h
  IsConstraint-Edge ((a, b) ∷ constraints) s t (inl (p, q)) =
      inl (ap (λ x. index x num_wires degree) p, ap (λ x. index x num_wires degree) q)
  IsConstraint-Edge ((a, b) ∷ constraints) s t (inr h) = inr (IsConstraint-Edge constraints s t h)

  Edge-IsConstraint :
      (constraints : Constraints) (x y : ℕ)
      → AreTargets constraints
      → Edge (pairs constraints) x y
      → (s t : Target) × IsConstraint constraints s t
        × IsTarget s
        × IsTarget t
        × (index s num_wires degree ≡ x)
        × (index t num_wires degree ≡ y)
  unfolding pairs
  Edge-IsConstraint [] x y h e = absurd e
  Edge-IsConstraint ((a, b) ∷ constraints) x y ((ta, tb), h) (inl (p, q)) =
      (a, b, inl (refl, refl), ta, tb, p, q)
  Edge-IsConstraint ((a, b) ∷ constraints) x y (_, h) (inr e) =
      let (s, t, c, ts, tt', p, q) = Edge-IsConstraint constraints x y h e in
      (s, t, inr c, ts, tt', p, q)

  pub Copied-Connected :
      (constraints : Constraints) {s t : Target}
      → Copied constraints s t
      → Connected (pairs constraints) (index s num_wires degree) (index t num_wires degree)
  Copied-Connected constraints alike = same
  Copied-Connected constraints (copy {s = s} {t = t} c h) =
      forth (IsConstraint-Edge constraints s t c) (Copied-Connected constraints h)
  Copied-Connected constraints (copy_back {s = s} {t = t} c h) =
      back (IsConstraint-Edge constraints t s c) (Copied-Connected constraints h)

  pub Connected-Copied :
      (constraints : Constraints) {x y : ℕ}
      → AreTargets constraints
      → Connected (pairs constraints) x y
      → (s t : Target) → IsTarget s
      → IsTarget t
      → index s num_wires degree ≡ x
      → index t num_wires degree ≡ y
      → Copied constraints s t
  Connected-Copied constraints h same s t hs ht p q =
      subst (Copied constraints s) (index-injective s t hs ht (p ∙ sym q)) alike
  Connected-Copied constraints h (forth {x = x} {y = y} e c) s t hs ht p q =
      let (a, b, is, ha, hb, pa, pb) = Edge-IsConstraint constraints x y h e in
      subst (λ r. Copied constraints r t) (index-injective a s ha hs (pa ∙ sym p))
        (copy is (Connected-Copied constraints h c b t hb ht pb q))
  Connected-Copied constraints h (back {x = x} {y = y} e c) s t hs ht p q =
      let (b, a, is, hb, ha, pb, pa) = Edge-IsConstraint constraints y x h e in
      subst (λ r. Copied constraints r t) (index-injective a s ha hs (pa ∙ sym p))
        (copy_back is (Connected-Copied constraints h c b t hb ht pb q))
