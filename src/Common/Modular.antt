-- ===== src/Common/Modular.antt =====
-- Congruence: equal remainders.
use Prim.Native.Nat.{ℕ, zero, suc, ◌+◌, ◌*◌, ◌/◌, ◌%◌, ◌^◌, ◌<◌}
use mathlib.Core.Path.{◌≡◌, sym, ap, ap₂, ◌∙◌}
use native.Mathlib.Omega.{arith}
use native.Mathlib.Nat.{
  add-mod, add-mul-mod_self_right, mul_comm, mul_assoc, mod-add-div', mod-eq_of_lt, add-zero,
  add-suc, pow-zero, pow-suc,
}

-- Numbers that differ by multiples of `m` have the same remainder.
pub mod-eq_of_shift : (m a b c d : ℕ) → a + c * m ≡ b + d * m → a % m ≡ b % m
mod-eq_of_shift m a b c d h =
    sym (add-mul-mod_self_right a c m) ∙ ap (λ (t : ℕ). t % m) h ∙ add-mul-mod_self_right b d m

pub add-mod_congr : (m a b c d : ℕ) → a % m ≡ b % m → c % m ≡ d % m → (a + c) % m ≡ (b + d) % m
add-mod_congr m a b c d p q =
    add-mod a c m ∙ ap₂ (λ (s t : ℕ). (s + t) % m) p q ∙ sym (add-mod b d m)

-- Quotient and remainder are unique.
pub mod-eq_of_split : (m a q r : ℕ) → a ≡ r + q * m → r < m → a % m ≡ r
mod-eq_of_split m a q r e h =
    ap (λ (t : ℕ). t % m) e ∙ add-mul-mod_self_right r q m ∙ mod-eq_of_lt h

pub mul-mod_left : (m a b : ℕ) → (a % m * b) % m ≡ (a * b) % m
mul-mod_left m a b =
    mod-eq_of_shift m (a % m * b) (a * b) (a / m * b) 0 (split _ _ _ (mod-add-div' a m))
  where
    split : (r q c : ℕ) → r + q * m ≡ c → r * b + q * b * m ≡ c * b + 0 * m
    split r q c h = omega (arith, ap (λ (t : ℕ). t * b) h)

pub mul-mod_congr : (m a b c d : ℕ) → a % m ≡ b % m → c % m ≡ d % m → (a * c) % m ≡ (b * d) % m
mul-mod_congr m a b c d p q =
    left a b c p
    ∙ ap (λ (t : ℕ). t % m) (mul_comm b c)
    ∙ left c d b q
    ∙ ap (λ (t : ℕ). t % m) (mul_comm d b)
  where
    left : (x y z : ℕ) → x % m ≡ y % m → (x * z) % m ≡ (y * z) % m
    left x y z e = sym (mul-mod_left m x z) ∙ ap (λ (t : ℕ). (t * z) % m) e ∙ mul-mod_left m y z

pub pow-add : (a m n : ℕ) → a ^ (m + n) ≡ a ^ m * a ^ n
pow-add a m zero = rw (add-zero, pow-zero a) (omega arith)
pow-add a m (suc n) = rw (add-suc, pow-suc, pow-suc, pow-add a m n) (mul_assoc (a ^ m) (a ^ n) a)

pub pow-double : (a n : ℕ) → a ^ (2 * n) ≡ a ^ n * a ^ n
pow-double a n = ap (λ (t : ℕ). a ^ t) {x = 2 * n} {y = n + n} (omega arith) ∙ pow-add a n n

pub mul-pow : (a b n : ℕ) → (a * b) ^ n ≡ a ^ n * b ^ n
mul-pow a b zero = rw (pow-zero (a * b), pow-zero a, pow-zero b)
mul-pow a b (suc n) = rw (pow-suc, pow-suc, pow-suc, mul-pow a b n) (omega arith)

pub pow-mod_congr : (m a b n : ℕ) → a % m ≡ b % m → (a ^ n) % m ≡ (b ^ n) % m
pow-mod_congr m a b zero h = rw (pow-zero a, pow-zero b)
pow-mod_congr m a b (suc n) h =
    rw (pow-suc, pow-suc) (mul-mod_congr m (a ^ n) (b ^ n) a b (pow-mod_congr m a b n h) h)

pub lt-two-pow : (n : ℕ) → n < 2 ^ n
lt-two-pow zero = omega arith
lt-two-pow (suc n) = omega (arith, lt-two-pow n, pow-suc 2 n)
