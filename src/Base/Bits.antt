-- ===== src/Base/Bits.antt =====
-- Masks, shifts and exclusive or at variables.
use Prim.Native.Nat.{
  ℕ, zero, suc, ◌+◌, ◌-◌, ◌*◌, ◌/◌, ◌%◌, ◌^◌, ◌≤◌, ◌<◌, min, bit_and, digits, bit_and-bitwise,
}
use mathlib.Core.Path.{◌≡◌, ap, sym, ◌∙◌}
use mathlib.Core.Logic.{◌≢◌}
use native.Mathlib.Omega.{arith}
use native.Mathlib.Nat.{
  pow-suc, mul-add-mod_self_left, mod-eq_of_lt, mod-lt, div-add-mod, mul-le-mul_left,
}
use native.Mathlib.Decide.{dec_lt}

pub pow_two_pos : (k : ℕ) → 0 < 2 ^ k
pow_two_pos zero = omega arith
pow_two_pos (suc k) = rw (pow-suc 2 k) (omega (arith, pow_two_pos k))

-- The remainder is what is left over below the modulus.
pub mod_unique : (a q r m : ℕ) → a ≡ m * q + r → r < m → a % m ≡ r
mod_unique a q r m e h = ap (λ t. t % m) e ∙ mul-add-mod_self_left m q r ∙ mod-eq_of_lt h

mod-double : (a m : ℕ) → 0 < m → a % (2 * m) ≡ (a / 2 % m) * 2 + a % 2
mod-double a m h =
    mod_unique a (a / 2 / m) (a / 2 % m * 2 + a % 2) (2 * m) (omega (arith, div-add-mod (a / 2) m))
      (omega (arith, mod-lt (a / 2) h))

-- With fuel for all its digits, the digit recursion of `bit_and` by `2 ^ k - 1` keeps the low ones.
mask_digits : (n k a : ℕ) → a ≤ n → digits (λ b. zero) min n a (2 ^ k - 1) ≡ a % 2 ^ k
mask_digits zero k zero h = sym (mod-eq_of_lt (pow_two_pos k))
mask_digits zero k (suc a) h = absurd (omega arith)
mask_digits (suc n) k zero h = sym (mod-eq_of_lt (pow_two_pos k))
mask_digits (suc n) zero (suc a) h = omega (arith, mask_digits n zero (suc a / 2) (omega arith))
mask_digits (suc n) (suc k) (suc a) h =
    let twice : 2 ^ suc k ≡ 2 * 2 ^ k = omega (arith, pow-suc 2 k) in
    let half : (2 ^ suc k - 1) / 2 ≡ 2 ^ k - 1 = omega (arith, twice, pow_two_pos k) in
    omega (
      arith,
      ap (digits (λ b. zero) min n (suc a / 2)) half,
      mask_digits n k (suc a / 2) (omega arith),
      ap (λ m. suc a % m) twice,
      mod-double (suc a) (2 ^ k) (pow_two_pos k),
      twice,
      pow_two_pos k,
    )

-- Masking with `2 ^ k - 1` is taking the remainder by `2 ^ k`.
pub bit_and-mask : (k a : ℕ) → bit_and a (2 ^ k - 1) ≡ a % 2 ^ k
bit_and-mask k a = bit_and-bitwise a (2 ^ k - 1) ∙ mask_digits a k a (omega arith)

-- Two indices less than `m` apart, and different, fall on different remainders.
pub mod-ne : (a b m : ℕ) → a < b → b < a + m → a % m ≢ b % m
mod-ne a b m h k e = elim (dec_lt (a / m) (b / m)) [
  | yes p ↦
      omega
        (arith, div-add-mod a m, div-add-mod b m, mul-le-mul_left {m = suc (a / m)} {n = b / m} m p)
  | no p ↦ omega (
    arith,
    div-add-mod a m,
    div-add-mod b m,
    mul-le-mul_left {m = b / m} {n = a / m} m (omega arith),
  )
]
