-- ===== src/Hash/PathCompression/Nodes.antt =====
-- plonky2/src/hash/path_compression.rs: the nodes of the tree by layer. A node of layer `j` has the
-- depth `height - j`; the leaves are layer 0.
use Prim.Native.Nat.{bit_xor, bit_xor-bitwise, digits, differ}
use native.Mathlib.Decide.{dec_lt}
use native.Mathlib.Nat.{pow-suc, pow-succ', pow-le-pow_right, div-div-eq-div-mul, div-one}
use plonky.Common.{
  ℕ, zero, suc, ◌+◌, ◌-◌, ◌*◌, ◌/◌, ◌%◌, ◌^◌, ◌≤◌, ◌<◌, ◌≡◌, ◌≢◌, refl, sym, ap, subst, ◌∙◌, arith,
}

xor_rounds : (r b : ℕ) → digits (λ b. b) differ r 0 b ≡ b
xor_rounds zero b = refl
xor_rounds (suc r) b = refl

differ-zero : (a : ℕ) → differ a 0 ≡ a
differ-zero zero = refl
differ-zero (suc a) = refl

differ-one : (a : ℕ) → a < 2 → differ a 1 ≡ 1 - a
differ-one zero h = refl
differ-one (suc zero) h = refl
differ-one (suc (suc a)) h = absurd (omega arith)

xor_rounds-zero : (r a : ℕ) → a ≤ r → digits (λ b. b) differ r a 0 ≡ a
xor_rounds-zero zero a h = omega arith
xor_rounds-zero (suc r) zero h = refl
xor_rounds-zero (suc r) (suc a) h =
    omega (arith, xor_rounds-zero r (suc a / 2) (omega arith), differ-zero (suc a % 2))

pub bit_xor_step : (a : ℕ) → bit_xor a 1 ≡ a / 2 * 2 + (1 - a % 2)
bit_xor_step zero = bit_xor-bitwise 0 1
bit_xor_step (suc a) = omega (
  arith,
  bit_xor-bitwise (suc a) 1,
  xor_rounds-zero a (suc a / 2) (omega arith),
  differ-one (suc a % 2) (omega arith),
)

-- The sibling of an even node is the next one, of an odd node the one before.
pub bit_xor-even : (a : ℕ) → a % 2 ≡ 0 → bit_xor a 1 ≡ a + 1
bit_xor-even a h = omega (arith, bit_xor_step a)

pub bit_xor-odd : (a : ℕ) → a % 2 ≢ 0 → bit_xor a 1 + 1 ≡ a
bit_xor-odd a h = omega (arith, bit_xor_step a)

abbrev pub IsDeep : ℕ → ℕ → Type 0
IsDeep d x = (2 ^ d ≤ x) × (x < 2 * 2 ^ d)

not_deeper : (d e x : ℕ) → d < e → x < 2 * 2 ^ d → 2 ^ e ≤ x → ⊥
not_deeper d e x h above below =
    omega (arith, pow-le-pow_right {n = 2} (omega arith) {i = suc d} {j = e} h, pow-succ' 2 d)

-- A node has one depth.
pub IsDeep-unique : (d e x : ℕ) → IsDeep d x → IsDeep e x → d ≡ e
IsDeep-unique d e x (a, b) (a', b') = elim (dec_lt d e) [
  | yes lt ↦ absurd (not_deeper d e x lt b a')
  | no ge ↦ elim (dec_lt e d) [ yes lt ↦ absurd (not_deeper e d x lt b' a) | no le ↦ omega arith ]
]

pub sibling-IsDeep : (d x : ℕ) → IsDeep (suc d) x → IsDeep (suc d) (bit_xor x 1)
sibling-IsDeep d x (a, b) = (omega (arith, even, step), omega (arith, even, step))
  where
    even : 2 ^ suc d ≡ 2 * 2 ^ d
    even = pow-succ' 2 d

    step : bit_xor x 1 ≡ x / 2 * 2 + (1 - x % 2)
    step = bit_xor_step x

pub half-IsDeep : (d x : ℕ) → IsDeep (suc d) x → IsDeep d (x / 2)
half-IsDeep d x (a, b) = (omega (arith, pow-succ' 2 d), omega (arith, pow-succ' 2 d))

-- The ancestor of the next layer.
pub ancestor_next : (x j : ℕ) → x / 2 ^ j / 2 ≡ x / 2 ^ suc j
ancestor_next x j = div-div-eq-div-mul x (2 ^ j) 2 ∙ ap (λ (t : ℕ). x / t) (sym (pow-suc 2 j))

ancestor-IsDeep : (d j h x : ℕ) → d + j ≡ h → IsDeep h x → IsDeep d (x / 2 ^ j)
ancestor-IsDeep d zero h x e (a, b) =
    let same : h ≡ d = omega arith in
    let whole : 2 ^ h ≡ 2 ^ d = ap (λ (t : ℕ). 2 ^ t) same in
    (omega (arith, div-one x, whole), omega (arith, div-one x, whole))
ancestor-IsDeep d (suc j) h x e deep =
    subst (IsDeep d) (ancestor_next x j)
      (half-IsDeep d (x / 2 ^ j) (ancestor-IsDeep (suc d) j h x (omega arith) deep))

-- The nodes of layer `j` in a tree of height `h`.
abbrev pub InLayer : ℕ → ℕ → ℕ → Type 0
InLayer h j x = IsDeep (h - j) x

pub ancestor-InLayer : (h j x : ℕ) → j ≤ h → IsDeep h x → InLayer h j (x / 2 ^ j)
ancestor-InLayer h j x le deep = ancestor-IsDeep (h - j) j h x (omega arith) deep

pub sibling-InLayer : (h j x : ℕ) → j < h → InLayer h j x → InLayer h j (bit_xor x 1)
sibling-InLayer h j x lt deep =
    let next : h - j ≡ suc (h - suc j) = omega arith in
    subst (λ d. IsDeep d (bit_xor x 1)) (sym next)
      (sibling-IsDeep (h - suc j) x (subst (λ d. IsDeep d x) next deep))

pub layer_unique : (h j l x : ℕ) → j ≤ h → l ≤ h → InLayer h j x → InLayer h l x → j ≡ l
layer_unique h j l x p q a b = omega (arith, IsDeep-unique (h - j) (h - l) x a b)

-- A node has its number below twice the number of leaves.
pub layer_bound : (h j x : ℕ) → InLayer h j x → x < 2 * 2 ^ h
layer_bound h j x (a, b) =
    omega (arith, pow-le-pow_right {n = 2} (omega arith) {i = h - j} {j = h} (omega arith))
