-- ===== src/Fetch/Random.antt =====
-- nextStealOffset: the state is never 0 again, stays a 32-bit word, and the offset is in range.
use Prim.Native.Nat.{bit_or, bit_xor, digits, max, bit_or-bitwise, bit_xor-bitwise, differ}
use native.Mathlib.Nat.{mod-lt, pow-suc}
use thread_pool_pro.Base.{
  ℕ, zero, suc, ◌+◌, ◌*◌, ◌/◌, ◌%◌, ◌^◌, ◌≤◌, ◌<◌, ◌≡◌, refl, sym, ap, arith, ℕ_discrete,
}
use thread_pool_pro.Fetch.{u32, shift_13, shift_17, shift_5, seeded, next_state, next_steal_offset}

abbrev xor_digits : ℕ → ℕ → ℕ → ℕ
xor_digits n a b = digits (λ b. b) differ n a b

xor_digits_fuel : (n m a b : ℕ) → a ≤ n → a ≤ m → xor_digits n a b ≡ xor_digits m a b
xor_digits_fuel zero zero a b p q = refl
xor_digits_fuel zero (suc m) zero b p q = refl
xor_digits_fuel zero (suc m) (suc a) b p q = absurd (omega arith)
xor_digits_fuel (suc n) zero zero b p q = refl
xor_digits_fuel (suc n) zero (suc a) b p q = absurd (omega arith)
xor_digits_fuel (suc n) (suc m) zero b p q = refl
xor_digits_fuel (suc n) (suc m) (suc a) b p q =
    omega (arith, xor_digits_fuel n m (suc a / 2) (b / 2) (omega arith) (omega arith))

zero-bit_xor : (b : ℕ) → bit_xor 0 b ≡ b
zero-bit_xor b = bit_xor-bitwise 0 b

bit_xor_step : (a b : ℕ) → bit_xor a b ≡ bit_xor (a / 2) (b / 2) * 2 + differ (a % 2) (b % 2)
bit_xor_step zero b = omega (arith, zero-bit_xor b, zero-bit_xor (b / 2))
bit_xor_step (suc a) b = omega (
  arith,
  bit_xor-bitwise (suc a) b,
  bit_xor-bitwise (suc a / 2) (b / 2),
  xor_digits_fuel a (suc a / 2) (suc a / 2) (b / 2) (omega arith) (omega arith),
)

differ-zero : (x y : ℕ) → differ x y ≡ 0 → x ≡ y
differ-zero zero y h = sym h
differ-zero (suc x) zero h = absurd (omega arith)
differ-zero (suc x) (suc y) h = ap suc (differ-zero x y h)

-- Only equal numbers cancel.
bit_xor-zero : (n a b : ℕ) → a ≤ n → bit_xor a b ≡ 0 → a ≡ b
bit_xor-zero n zero b l e = omega (arith, zero-bit_xor b)
bit_xor-zero zero (suc a) b l e = absurd (omega arith)
bit_xor-zero (suc n) (suc a) b l e = omega (
  arith,
  bit_xor_step (suc a) b,
  bit_xor-zero n (suc a / 2) (b / 2) (omega arith) (omega (arith, bit_xor_step (suc a) b)),
  differ-zero (suc a % 2) (b % 2) (omega (arith, bit_xor_step (suc a) b)),
)

-- Digit by digit, words of `k` bits give a word of `k` bits.
digits-lt :
    (f : ℕ → ℕ → ℕ)
    → ((x y : ℕ) → x ≤ 1 → y ≤ 1 → f x y ≤ 1)
    → (k n a b : ℕ) → a < 2 ^ k
    → b < 2 ^ k
    → digits (λ b. b) f n a b < 2 ^ k
digits-lt f small k zero a b p q = q
digits-lt f small k (suc n) zero b p q = q
digits-lt f small zero (suc n) (suc a) b p q = absurd (omega arith)
digits-lt f small (suc k) (suc n) (suc a) b p q =
    let double : 2 ^ suc k ≡ 2 * 2 ^ k = omega (arith, pow-suc 2 k) in
    omega (
      arith,
      double,
      digits-lt f small k n (suc a / 2) (b / 2) (omega (arith, double)) (omega (arith, double)),
      small (suc a % 2) (b % 2) (omega arith) (omega arith),
    )

differ-le-one : (x y : ℕ) → x ≤ 1 → y ≤ 1 → differ x y ≤ 1
differ-le-one zero y p q = q
differ-le-one (suc x) zero p q = p
differ-le-one (suc x) (suc y) p q = differ-le-one x y (omega arith) (omega arith)

bit_xor-lt : (a b : ℕ) → a < 2 ^ 32 → b < 2 ^ 32 → bit_xor a b < 2 ^ 32
bit_xor-lt a b p q = omega (arith, bit_xor-bitwise a b, digits-lt differ differ-le-one 32 a a b p q)

bit_or-lt : (a b : ℕ) → a < 2 ^ 32 → b < 2 ^ 32 → bit_or a b < 2 ^ 32
bit_or-lt a b p q =
    omega (arith, bit_or-bitwise a b, digits-lt max (λ x y p q. omega arith) 32 a a b p q)

bit_or-one_pos : (a : ℕ) → 0 < bit_or a 1
bit_or-one_pos zero = omega (arith, bit_or-bitwise 0 1)
bit_or-one_pos (suc a) = omega (arith, bit_or-bitwise (suc a) 1)

-- A nonzero 32-bit word.
abbrev IsWord : ℕ → Type 0
IsWord s = (0 < s) × (s < 2 ^ 32)

seeded-IsWord : (hash s : ℕ) → s < 2 ^ 32 → IsWord (seeded hash s)
unfolding seeded
seeded-IsWord hash s h =
    ground (arith, bit_or-one_pos (u32 hash), bit_or-lt (u32 hash) 1 (omega arith) (omega arith))

shift_13-IsWord : (s : ℕ) → IsWord s → IsWord (shift_13 s)
unfolding shift_13
shift_13-IsWord s h = (
  elim (ℕ_discrete (bit_xor s (u32 (s * 2 ^ 13))) 0) [
    | yes e ↦ absurd (omega (arith, bit_xor-zero s s (u32 (s * 2 ^ 13)) (omega arith) e))
    | no d ↦ omega arith
  ],
  bit_xor-lt s (u32 (s * 2 ^ 13)) h.1 (omega arith),
)

shift_17-IsWord : (s : ℕ) → IsWord s → IsWord (shift_17 s)
unfolding shift_17
shift_17-IsWord s h = (
  elim (ℕ_discrete (bit_xor s (s / 2 ^ 17)) 0) [
    | yes e ↦ absurd (omega (arith, bit_xor-zero s s (s / 2 ^ 17) (omega arith) e))
    | no d ↦ omega arith
  ],
  bit_xor-lt s (s / 2 ^ 17) h.1 (omega arith),
)

shift_5-IsWord : (s : ℕ) → IsWord s → IsWord (shift_5 s)
unfolding shift_5
shift_5-IsWord s h = (
  elim (ℕ_discrete (bit_xor s (u32 (s * 2 ^ 5))) 0) [
    | yes e ↦ absurd (omega (arith, bit_xor-zero s s (u32 (s * 2 ^ 5)) (omega arith) e))
    | no d ↦ omega arith
  ],
  bit_xor-lt s (u32 (s * 2 ^ 5)) h.1 (omega arith),
)

-- From any 32-bit state, 0 included, and for any bound but 0, a call leaves a state that is not 0,
-- and returns an offset below the bound.
pub next_steal_offset-lt :
    (hash s bound : ℕ)
    → s < 2 ^ 32
    → 0 < bound
    → (0 < next_state hash s)
      × (next_state hash s < 2 ^ 32)
      × (next_steal_offset hash s bound < bound)
unfolding next_state next_steal_offset
next_steal_offset-lt hash s bound h p =
    let w = shift_5-IsWord _ (shift_17-IsWord _ (shift_13-IsWord _ (seeded-IsWord hash s h))) in
    (w.0, w.1, mod-lt _ p)
