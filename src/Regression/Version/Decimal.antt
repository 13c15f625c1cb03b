-- ===== src/Regression/Version/Decimal.antt =====
-- Numbers printed by `std::to_string`, and read again.
use native.Mathlib.Nat.{mod-lt, div-add-mod}
use thread_pool_pro.Base.{
  ℕ, zero, suc, ◌+◌, ◌-◌, ◌*◌, ◌/◌, ◌%◌, ◌^◌, ◌≤◌, ◌<◌, ◌≡◌, ◌∙◌, refl, ap, sym, true, false, some,
  [], ◌∷◌, if◌then◌else◌, arith, dec_lt,
}
use thread_pool_pro.Regression.{Str}
use thread_pool_pro.Regression.Text.{pos}
use thread_pool_pro.Regression.Version.{
  is_digit, skip_spaces, read_digits, starts_digit, read_unsigned, read_signed, read_int,
  digits_before, to_string,
}

-- A printed number begins with a digit.
pub digits_before-first :
    (fuel n : ℕ) (s : Str)
    → n ≤ fuel
    → (d : ℕ) × (r : Str) × (digits_before fuel n s ≡ d ∷ r) × (is_digit d ≡ true)
unfolding digits_before
digits_before-first zero n s h = (_, _, refl, ground (arith, mod-lt n {m = 10} (omega arith)))
digits_before-first (suc fuel) n s h = elim (dec_lt n 10) [
  | yes p ↦ (b'0' + n, s, ground arith, ground arith)
  | no p ↦
      let (d, r, e, k) =
        digits_before-first fuel (n / 10) ((b'0' + n % 10) ∷ s) (omega (arith, div-add-mod n 10)) in
      (d, r, ground (arith, e), k)
]

read_digits-step :
    (m d : ℕ) (s : Str) → d < 10 → read_digits m ((b'0' + d) ∷ s) ≡ read_digits (m * 10 + d) s
unfolding read_digits
read_digits-step m d s h =
    let same : b'0' + d - b'0' ≡ d = omega arith in
    let digit : is_digit (b'0' + d) ≡ true = ground arith in
    ap (λ b. if b then read_digits (m * 10 + (b'0' + d - b'0')) s else (m, (b'0' + d) ∷ s)) digit
    ∙ ap (λ k. read_digits (m * 10 + k) s) same

pub digits_before-small : (fuel n : ℕ) (s : Str) → n < 10 → digits_before fuel n s ≡ (b'0' + n) ∷ s
unfolding digits_before
digits_before-small zero n s h = ap (λ k. (b'0' + k) ∷ s) (omega (arith, div-add-mod n 10))
digits_before-small (suc fuel) n s h = ground arith

pub digits_before-large :
    (fuel n : ℕ) (s : Str)
    → 10 ≤ n
    → digits_before (suc fuel) n s ≡ digits_before fuel (n / 10) ((b'0' + n % 10) ∷ s)
unfolding digits_before
digits_before-large fuel n s h = ground arith

one_digit : (n : ℕ) (s : Str) → n < 10 → read_digits 0 ((b'0' + n) ∷ s) ≡ read_digits n s
one_digit n s h = read_digits-step 0 n s h ∙ ap (λ k. read_digits k s) (omega arith)

-- Reading the digits of `n`, with what stands behind them.
pub read_digits-digits_before :
    (fuel n : ℕ) (s : Str) → n ≤ fuel → read_digits 0 (digits_before fuel n s) ≡ read_digits n s
read_digits-digits_before zero n s h =
    ap (read_digits 0) (digits_before-small 0 n s (omega arith)) ∙ one_digit n s (omega arith)
read_digits-digits_before (suc fuel) n s h = elim (dec_lt n 10) [
  | yes p ↦ ap (read_digits 0) (digits_before-small (suc fuel) n s p) ∙ one_digit n s p
  | no p ↦
      ap (read_digits 0) (digits_before-large fuel n s (omega arith))
      ∙ read_digits-digits_before fuel (n / 10) ((b'0' + n % 10) ∷ s)
          (omega (arith, div-add-mod n 10))
      ∙ read_digits-step (n / 10) (n % 10) s (mod-lt n (omega arith))
      ∙ ap (λ k. read_digits k s) (omega (arith, div-add-mod n 10))
]

pub read_digits-stop : (n : ℕ) (s : Str) → starts_digit s ≡ false → read_digits n s ≡ (n, s)
unfolding read_digits
read_digits-stop n [] h = refl
read_digits-stop n (c ∷ s) h = ground (arith, h)

-- The digits of a number before a text that begins with none.
pub decimal : ℕ → Str → Str
decimal n s = digits_before n n s

pub read_digits-decimal :
    (n : ℕ) (s : Str) → starts_digit s ≡ false → read_digits 0 (decimal n s) ≡ (n, s)
unfolding decimal
read_digits-decimal n s h = read_digits-digits_before n n s (omega arith) ∙ read_digits-stop n s h

-- Every number below 2 ^ 31 that is printed before a text without a leading digit is read again by
-- `>>`, which leaves that text.
pub read_int-decimal :
    (n : ℕ) (s : Str)
    → n < 2 ^ 31
    → starts_digit s ≡ false
    → read_int (decimal n s) ≡ some (pos n, s)
unfolding read_int decimal skip_spaces read_signed read_unsigned
read_int-decimal n s small h =
    let (d, r, e, k) = digits_before-first n n s (omega arith) in
    let value : read_digits 0 (d ∷ r) ≡ (n, s) =
      ap (read_digits 0) (sym e) ∙ unfold decimal in read_digits-decimal n s h in
    ap read_int e ∙ ground (arith, k, value, small)

pub read_digits-to_string : (n : ℕ) → read_digits 0 (to_string n) ≡ (n, [])
unfolding to_string decimal
read_digits-to_string n = read_digits-decimal n [] refl
