-- ===== src/Hash/Merkle/Binding.antt =====
-- Two accepted proofs for one index of one cap agree, unless they show a collision.
use plonky.Common.{
  ℕ, ◌/◌, ◌≡◌, refl, sym, ap, ap₂, ◌∙◌, arith, Option, some, List, [], ◌∷◌, length, get_elem?, true,
  false, Bool, bit_and, ◌==◌, if◌then◌else◌, Bool-cases, Option-cases, eq_of_some, ◌⊎◌, inl, inr,
}
use plonky.Hash.Merkle.{Hasher, climb, ensure_root, verify_merkle_proof_to_cap}

-- Two different pairs with one compression.
pub record Collision {H : Type 0} (two_to_one : H → H → H) : Type 0 where
  pub left : H
  pub right : H
  pub left' : H
  pub right' : H
  pub differ : ¬ ((left ≡ left') × (right ≡ right'))
  pub same : two_to_one left right ≡ two_to_one left' right'

module _ {H : Type 0} (f : H → H → H) (eq : Discrete H) where
  injective_or_Collision : (a b c d : H) → f a b ≡ f c d → ((a ≡ c) × (b ≡ d)) ⊎ Collision f
  injective_or_Collision a b c d e = elim (eq a c) [
    | no n ↦
        inr (record { left = a; right = b; left' = c; right' = d; differ = λ p. n p.0; same = e })
    | yes p ↦ elim (eq b d) [
      | no n ↦
          inr (record { left = a; right = b; left' = c; right' = d; differ = λ q. n q.1; same = e })
      | yes q ↦ inl (p, q)
    ]
  ]

  abbrev round : ℕ → H → H → H
  round i x a = if bit_and i 1 == 1 then f a x else f x a

  round_injective :
      (i : ℕ) (x y a b : H) → round i x a ≡ round i y b → ((x ≡ y) × (a ≡ b)) ⊎ Collision f
  round_injective i x y a b e = elim (Bool-cases (bit_and i 1 == 1)) [
    | inl odd ↦ swap (injective_or_Collision a x b y (rw odd at e))
    | inr even ↦ injective_or_Collision x a y b (rw even at e)
  ]
    where
      swap : ((a ≡ b) × (x ≡ y)) ⊎ Collision f → ((x ≡ y) × (a ≡ b)) ⊎ Collision f
      swap (inl (p, q)) = inl (q, p)
      swap (inr c) = inr c

  -- Two climbs over as many siblings that end at one digest started at one digest and met the
  -- same siblings.
  climb_injective :
      (i : ℕ) (x y : H) (s t : List H)
      → length s ≡ length t
      → (climb f i x s).1 ≡ (climb f i y t).1
      → ((x ≡ y) × (s ≡ t)) ⊎ Collision f
  unfolding climb
  climb_injective i x y [] [] l e = inl (e, refl)
  climb_injective i x y [] (b ∷ t) l e = absurd (omega arith)
  climb_injective i x y (a ∷ s) [] l e = absurd (omega arith)
  climb_injective i x y (a ∷ s) (b ∷ t) l e =
      elim (climb_injective (i / 2) (round i x a) (round i y b) s t (omega arith) e) [
        | inl (p, q) ↦ elim (round_injective i x y a b p) [
          | inl (xy, ab) ↦ inl (xy, ap₂ ◌∷◌ ab q)
          | inr c ↦ inr c
        ]
        | inr c ↦ inr c
      ]

  climb_index :
      (i : ℕ) (x y : H) (s t : List H) → length s ≡ length t → (climb f i x s).0 ≡ (climb f i y t).0
  unfolding climb
  climb_index i x y [] [] l = refl
  climb_index i x y [] (b ∷ t) l = absurd (omega arith)
  climb_index i x y (a ∷ s) [] l = absurd (omega arith)
  climb_index i x y (a ∷ s) (b ∷ t) l = climb_index (i / 2) _ _ s t (omega arith)

module _ {F H : Type 0} (hs : Hasher F H) where
  ensure_root-eq_true :
      (cap : List H) (index : ℕ) (current : H)
      → ensure_root hs cap (index, current) ≡ some true
      → get_elem? cap index ≡ some current
  unfolding ensure_root
  ensure_root-eq_true cap index current h = elim (Option-cases (get_elem? cap index)) [
    | inl out ↦ cc (rw out at h)
    | inr (r, found) ↦ found ∙ ap some (sym (accepted r (hs.digest_eq current r) (rw found at h)))
  ]
    where
      accepted :
          (r : H) (d : Dec (current ≡ r))
          → ◌≡◌ {A = Option Bool} (some (elim d [ yes _ ↦ true | no _ ↦ false ])) (some true)
          → current ≡ r
      accepted r (yes p) e = p
      accepted r (no n) e = cc

  -- If the verifier accepts two proofs of one length at one index and cap, then the two leaves
  -- have the same hash and the proofs are equal, or `two_to_one` has a collision.
  pub verify-binding :
      (i : ℕ) (cap : List H) (leaf leaf' : List F) (s t : List H)
      → length s ≡ length t
      → verify_merkle_proof_to_cap hs leaf i cap s ≡ some true
      → verify_merkle_proof_to_cap hs leaf' i cap t ≡ some true
      → ((hs.hash_or_noop leaf ≡ hs.hash_or_noop leaf') × (s ≡ t)) ⊎ Collision hs.two_to_one
  unfolding verify_merkle_proof_to_cap
  verify-binding i cap leaf leaf' s t l p q =
      climb_injective hs.two_to_one hs.digest_eq i x y s t l (
        eq_of_some (
          sym (ensure_root-eq_true cap _ _ p)
          ∙ ap (get_elem? cap) (climb_index hs.two_to_one hs.digest_eq i x y s t l)
          ∙ ensure_root-eq_true cap _ _ q))
    where
      x : H
      x = hs.hash_or_noop leaf

      y : H
      y = hs.hash_or_noop leaf'
