-- ===== src/Base/Bits.antt =====
-- `x & (n - 1)` is `x % n` where `n` is a power of two.
use Prim.Native.Nat.{
  ℕ, zero, suc, ◌+◌, ◌-◌, ◌*◌, ◌/◌, ◌%◌, ◌^◌, ◌≤◌, ◌<◌, min, bit_and, digits, bit_and-bitwise,
}
use mathlib.Core.Path.{◌≡◌, ap, ◌∙◌}
use native.Mathlib.Omega.{arith}
use native.Mathlib.Decide.{dec_lt}
use native.Mathlib.Nat.{pow-suc, mod-eq_of_lt, mod-lt, mul-add-mod_self_right, div-add-mod'}

abbrev low_digits : ℕ → ℕ → ℕ → ℕ
low_digits fuel x m = digits (λ y. zero) min fuel x m

pub two_pow_pos : (k : ℕ) → 0 < 2 ^ k
two_pow_pos zero = omega arith
two_pow_pos (suc k) = omega (arith, pow-suc 2 k, two_pow_pos k)

-- The lowest digit of a remainder by an even number, and the others.
mod_double : (y p : ℕ) → 0 < p → y % (p * 2) ≡ y / 2 % p * 2 + y % 2
mod_double y p h =
    ap (λ n. n % (p * 2)) split
    ∙ mul-add-mod_self_right (y / 2 / p) (p * 2) (y / 2 % p * 2 + y % 2)
    ∙ mod-eq_of_lt (omega (arith, mod-lt (y / 2) h))
  where
    split : y ≡ y / 2 / p * (p * 2) + (y / 2 % p * 2 + y % 2)
    split = omega (arith, div-add-mod' (y / 2) p)

low_digits-mod : (fuel x k : ℕ) → x ≤ fuel → low_digits fuel x (2 ^ k - 1) ≡ x % 2 ^ k
low_digits-mod zero zero k h = omega (arith, two_pow_pos k)
low_digits-mod zero (suc x) k h = absurd (omega arith)
low_digits-mod (suc fuel) zero k h = omega (arith, two_pow_pos k)
low_digits-mod (suc fuel) (suc x) zero h =
    omega (arith, low_digits-mod fuel (suc x / 2) 0 (omega arith))
low_digits-mod (suc fuel) (suc x) (suc k) h =
    let half : (2 ^ suc k - 1) / 2 ≡ 2 ^ k - 1 = omega (arith, pow-suc 2 k, two_pow_pos k) in
    let odd : (2 ^ suc k - 1) % 2 ≡ 1 = omega (arith, pow-suc 2 k, two_pow_pos k) in
    rw (half, odd, low_digits-mod fuel (suc x / 2) k (omega arith), pow-suc)
      (omega (arith, mod_double (suc x) (2 ^ k) (two_pow_pos k)))

-- Masking by a power of two less one.
pub and_mask : (x k : ℕ) → bit_and x (2 ^ k - 1) ≡ x % 2 ^ k
and_mask x k = bit_and-bitwise x (2 ^ k - 1) ∙ low_digits-mod x x k (omega arith)

pub two_pow_mono : (a b : ℕ) → a ≤ b → 2 ^ a ≤ 2 ^ b
two_pow_mono a zero h = let e : a ≡ 0 = omega arith in rw e (omega arith)
two_pow_mono a (suc b) h = elim (dec_lt b a) [
  | yes top ↦ let e : a ≡ suc b = omega arith in rw e (omega arith)
  | no below ↦ omega (arith, two_pow_mono a b (omega arith), pow-suc 2 b)
]

pub lt_of_two_pow-lt : (a b : ℕ) → 2 ^ a < 2 ^ b → a < b
lt_of_two_pow-lt a b h = elim (dec_lt a b) [
  | yes lt ↦ lt
  | no ge ↦ absurd (omega (arith, two_pow_mono b a (omega arith)))
]
