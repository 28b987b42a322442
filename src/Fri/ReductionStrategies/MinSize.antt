-- ===== src/Fri/ReductionStrategies/MinSize.antt =====
-- plonky2/src/fri/reduction_strategies.rs: the search of the smallest proof.
use plonky.Common.{
  ℕ, zero, suc, ◌+◌, ◌-◌, ◌^◌, ◌≤◌, ◌<◌, ◌≡◌, refl, sym, ap, ◌∙◌, arith, Option, some, List, [],
  ◌∷◌, ◌++◌, ◌>>=◌, min, append_assoc, append_nil, subst, eq_of_some, All, le→leb,
}
use plonky.Fri.ReductionStrategies.Budget.{
  budget, last_products, checked_add-eq, checked_sub-eq, size_loop-total, sum_from-eq,
}
use plonky.Fri.ReductionStrategies.Search.{Smallest, try_arities-Smallest}
use plonky.Fri.ReductionStrategies.{
  min_size, relative_proof_size, sum, last_or, try_arities, min_size_arity_bits_helper,
  min_size_arity_bits, unwrap_or, reduction_arity_bits,
}

sum-append : (xs ys : List ℕ) → sum (xs ++ ys) ≡ sum xs + sum ys
sum-append [] ys = omega arith
sum-append (x ∷ xs) ys = omega (arith, sum-append xs ys)

positive-last :
    (a : ℕ) (xs : List ℕ) → 1 ≤ a → All (λ x. 1 ≤ x) xs → All (λ x. 1 ≤ x) (xs ++ (a ∷ []))
positive-last a [] h pos = (h, tt)
positive-last a (x ∷ xs) h (hx, pos) = (hx, positive-last a xs h pos)

last_or-append : (d a : ℕ) (xs : List ℕ) → last_or d (xs ++ (a ∷ [])) ≡ a
last_or-append d a [] = refl
last_or-append d a (x ∷ xs) = last_or-append x a xs

-- A sequence of positive arities, none above the one before it, that the degree has room for.
pub data Allowed : ℕ → ℕ → List ℕ → Type 0 where
  stop : {top room : ℕ} → Allowed top room []
  take_arity :
      {top room a : ℕ} {rest : List ℕ}
      → 1 ≤ a
      → a ≤ top
      → a ≤ room
      → Allowed a (room - a) rest
      → Allowed top room (a ∷ rest)

module _ (degree rate queries : ℕ) (small : budget queries degree rate < 2 ^ 64) where
  -- The size of a sequence, and the search.
  abbrev size_of : List ℕ → Option ℕ
  size_of = relative_proof_size degree rate queries

  -- A measured extension of the prefix.
  record Good (top : ℕ) (pre : List ℕ) (out : List ℕ × ℕ) : Type 0 where
    extension : List ℕ
    allowed : Allowed top (degree - sum pre) extension
    extends : out.0 ≡ pre ++ extension
    measured : size_of (out.0) ≡ some (out.1)

  -- The best of them.
  record Best (top : ℕ) (pre : List ℕ) (search : Option (List ℕ × ℕ)) : Type 0 where
    out : List ℕ × ℕ
    returns_out : search ≡ some out
    is_good : Good top pre out
    least :
        (ext : List ℕ) (size : ℕ)
        → Allowed top (degree - sum pre) ext
        → size_of (pre ++ ext) ≡ some size
        → out.1 ≤ size

  height-small : degree + rate < 2 ^ 64
  height-small = omega (arith, (last_products queries rate degree (2 ^ degree)).1, small)

  size_of-total :
      (bits : List ℕ)
      → All (λ a. 1 ≤ a) bits
      → sum bits ≤ degree
      → (size : ℕ) × (size_of bits ≡ some size)
  unfolding relative_proof_size
  size_of-total bits pos h =
      let (size, e) = size_loop-total queries rate degree 0 bits pos h (omega (arith, small)) in
      (size, rw (checked_add-eq degree rate height-small) e)

  snoc-Good :
      (top a : ℕ) (pre : List ℕ) (out : List ℕ × ℕ)
      → 1 ≤ a
      → a ≤ top
      → a ≤ degree - sum pre
      → Good a (pre ++ (a ∷ [])) out
      → Good top pre out
  snoc-Good top a pre out h1 h2 h3 g =
      let room : degree - sum (pre ++ (a ∷ [])) ≡ degree - sum pre - a =
        omega (arith, sum-append pre (a ∷ [])) in
      record {
        extension = a ∷ g.extension;
        allowed = take_arity h1 h2 h3 (subst (λ r. Allowed a r g.extension) room g.allowed);
        extends = g.extends ∙ append_assoc pre (a ∷ []) g.extension;
        measured = g.measured;
      }

  -- The largest arity, and the search with it, as the helper passes them to its loop.
  abbrev max_of : ℕ → List ℕ → ℕ
  max_of top pre = min (last_or top pre) (degree + rate - sum pre - rate)

  abbrev search_from : ℕ → ℕ → List ℕ → ℕ → Option (List ℕ × ℕ)
  search_from fuel top pre a =
      min_size_arity_bits_helper fuel degree rate queries (max_of top pre) (pre ++ (a ∷ []))

  helper-try :
      (fuel top base : ℕ) (pre : List ℕ)
      → sum pre ≤ degree
      → size_of pre ≡ some base
      → min_size_arity_bits_helper (suc fuel) degree rate queries top pre
        ≡ try_arities (search_from fuel top pre) (max_of top pre) 1 (pre, base)
  unfolding min_size_arity_bits_helper
  helper-try fuel top base pre fits measured =
      rw
        (
          sum_from-eq 0 pre (omega (arith, fits, height-small))
              ∙ ap some {x = 0 + sum pre} {y = sum pre} (omega arith),
          checked_add-eq degree rate height-small,
          checked_sub-eq (degree + rate) (sum pre) (omega (arith, fits)),
          le→leb rate (degree + rate - (sum pre)) (omega (arith, fits)),
          measured,
        )
        refl

  -- Neither the candidate nor what the loop finds misses an allowed sequence.
  least_lem :
      (search : ℕ → Option (List ℕ × ℕ)) (top left base : ℕ) (pre : List ℕ)
      (go : Smallest (Good top pre) search left 1 (pre, base))
      → ((a : ℕ) → 1 ≤ a → a < 1 + left → Best a (pre ++ (a ∷ [])) (search a))
      → left ≡ min top (degree - sum pre)
      → size_of pre ≡ some base
      → (ext : List ℕ) (size : ℕ) → Allowed top (degree - sum pre) ext
      → size_of (pre ++ ext) ≡ some size
      → go.result.1 ≤ size
  least_lem search top left base pre go ih bound eb [] size stop e =
      let same : base ≡ size = eq_of_some (sym eb ∙ sym (ap size_of (append_nil pre)) ∙ e) in
      omega (arith, go.le_best, same)
  least_lem search top left base pre go ih bound eb (a ∷ ext) size (take_arity h1 h2 h3 al) e =
      let below : a < 1 + left = omega (arith, h2, h3, bound) in
      let b = ih a h1 below in
      let room : degree - sum pre - a ≡ degree - sum (pre ++ (a ∷ [])) =
        omega (arith, sum-append pre (a ∷ [])) in
      let le =
        b.least ext size (subst (λ r. Allowed a r ext) room al)
          (ap size_of (append_assoc pre (a ∷ []) ext) ∙ e) in
      omega (arith, le, go.le_found a b.out h1 below b.returns_out)

  helper-Best :
      (fuel top : ℕ) (pre : List ℕ)
      → All (λ a. 1 ≤ a) pre
      → sum pre ≤ degree
      → degree - sum pre < fuel
      → Best (last_or top pre) pre (min_size_arity_bits_helper fuel degree rate queries top pre)
  helper-Best zero top pre pos fits enough = absurd (omega arith)
  helper-Best (suc fuel) top pre pos fits enough =
      let left = max_of top pre in
      let (base, eb) = size_of-total pre pos fits in
      let search = search_from fuel top pre in
      let bound : left ≡ min (last_or top pre) (degree - sum pre) = omega arith in
      let ih = λ (a : ℕ) (h1 : 1 ≤ a) (h2 : a < 1 + left).
        subst (λ t. Best t (pre ++ (a ∷ [])) (search a)) (last_or-append left a pre)
          (helper-Best fuel left (pre ++ (a ∷ [])) (positive-last a pre h1 pos)
            (omega (arith, sum-append pre (a ∷ []), bound, h2, fits))
            (omega (arith, sum-append pre (a ∷ []), bound, h1, h2, enough))) in
      let start : Good (last_or top pre) pre (pre, base) = record {
        extension = [];
        allowed = stop;
        extends = sym (append_nil pre);
        measured = eb;
      } in
      let go =
        try_arities-Smallest (Good (last_or top pre) pre) search left 1 (pre, base) start
          (λ a h1 h2.
            let b = ih a h1 h2 in
            (
              b.out,
              b.returns_out,
              snoc-Good (last_or top pre) a pre b.out h1 (omega (arith, bound, h2))
                  (omega (arith, bound, h2)) b.is_good,
            )) in
      record {
        out = go.result;
        returns_out = helper-try fuel top base pre fits eb ∙ go.returns;
        is_good = go.good;
        least = least_lem search (last_or top pre) left base pre go ih bound eb;
      }

Allowed-positive : (top room : ℕ) (bits : List ℕ) → Allowed top room bits → All (λ a. 1 ≤ a) bits
Allowed-positive top room [] stop = tt
Allowed-positive top room (a ∷ bits) (take_arity h1 h2 h3 al) =
    (h1, Allowed-positive a (room - a) bits al)

Allowed-sum : (top room : ℕ) (bits : List ℕ) → Allowed top room bits → sum bits ≤ room
Allowed-sum top room [] stop = omega arith
Allowed-sum top room (a ∷ bits) (take_arity h1 h2 h3 al) =
    omega (arith, h3, Allowed-sum a (room - a) bits al)

-- For any sequence of positive arities that are never above the largest arity (4 if none is given)
-- nor above the one before, and that the degree has room for, where 4 * (queries + 1) times the sum of
-- 2 ^ degree and (degree + 1) * (degree + rate) is less than 2 ^ 64: the smallest-size strategy returns,
-- within its fuel and without a panic, such a sequence, and its estimated proof size is at most
-- that of the given one.
pub min_size-optimal :
    (degree rate cap_height queries : ℕ) (opt : Option ℕ) (other : List ℕ)
    → budget queries degree rate < 2 ^ 64
    → Allowed (unwrap_or 4 opt) degree other
    → (bits : List ℕ) × (size : ℕ) × (other_size : ℕ) × (reduction_arity_bits
          (min_size opt)
          degree
          rate
          cap_height
          queries
        ≡ some bits)
      × Allowed (unwrap_or 4 opt) degree bits
      × (relative_proof_size degree rate queries bits ≡ some size)
      × (relative_proof_size degree rate queries other ≡ some other_size)
      × (size ≤ other_size)
unfolding reduction_arity_bits min_size_arity_bits
min_size-optimal degree rate cap_height queries opt other small al =
    let b =
      helper-Best degree rate queries small (degree + 1) (unwrap_or 4 opt) [] tt (omega arith)
        (omega arith) in
    let g = b.is_good in
    let top = unwrap_or 4 opt in
    let room : degree - 0 ≡ degree = omega arith in
    let (other_size, e) =
      size_of-total degree rate queries small other
        (Allowed-positive (unwrap_or 4 opt) degree other al)
        (Allowed-sum (unwrap_or 4 opt) degree other al) in
    (
      b.out.0,
      b.out.1,
      other_size,
      ap (λ o. o >>= λ x. some (x.0)) b.returns_out,
      subst (Allowed top degree) (sym g.extends)
          (subst (λ r. Allowed top r g.extension) room g.allowed),
      g.measured,
      e,
      b.least other other_size (subst (λ r. Allowed top r other) (sym room) al) e,
    )
