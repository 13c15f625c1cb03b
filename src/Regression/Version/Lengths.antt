-- ===== src/Regression/Version/Lengths.antt =====
-- How long a printed number is.
use native.Mathlib.Nat.{div-add-mod}
use thread_pool_pro.Base.{ℕ, zero, suc, ◌+◌, ◌/◌, ◌%◌, ◌≤◌, ◌<◌, ap, [], ◌∷◌, arith, dec_lt, length}
use thread_pool_pro.Regression.{Str}
use thread_pool_pro.Regression.Version.{digits_before, to_string}
use thread_pool_pro.Regression.Version.Decimal.{digits_before-small, digits_before-large}

length-digits_before :
    (fuel n : ℕ) (s : Str) → n ≤ fuel → length s < length (digits_before fuel n s)
length-digits_before zero n s h = omega (arith, ap length (digits_before-small 0 n s (omega arith)))
length-digits_before (suc fuel) n s h = elim (dec_lt n 10) [
  | yes p ↦ omega (arith, ap length (digits_before-small (suc fuel) n s p))
  | no p ↦ omega (
    arith,
    ap length (digits_before-large fuel n s (omega arith)),
    length-digits_before fuel (n / 10) ((b'0' + n % 10) ∷ s) (omega (arith, div-add-mod n 10)),
  )
]

digits_before_mono :
    (f g m n : ℕ) (s t : Str)
    → m ≤ f
    → n ≤ g
    → m ≤ n
    → length s ≤ length t
    → length (digits_before f m s) ≤ length (digits_before g n t)
digits_before_mono zero g m n s t a b c d =
    omega (arith, ap length (digits_before-small 0 m s (omega arith)), length-digits_before g n t b)
digits_before_mono (suc f) zero m n s t a b c d =
    omega (
      arith,
      ap length (digits_before-small (suc f) m s (omega arith)),
      length-digits_before 0 n t b,
    )
digits_before_mono (suc f) (suc g) m n s t a b c d = elim (dec_lt m 10) [
  | yes p ↦
      omega
        (arith, ap length (digits_before-small (suc f) m s p), length-digits_before (suc g) n t b)
  | no p ↦
      let ih =
        digits_before_mono f g (m / 10) (n / 10) ((b'0' + m % 10) ∷ s) ((b'0' + n % 10) ∷ t)
          (omega (arith, div-add-mod m 10)) (omega (arith, div-add-mod n 10)) (omega arith)
          (omega arith) in
      omega (
        arith,
        ap length (digits_before-large f m s (omega arith)),
        ap length (digits_before-large g n t (omega arith)),
        ih,
      )
]

-- A smaller number is not printed longer.
pub to_string_mono : (m n : ℕ) → m ≤ n → length (to_string m) ≤ length (to_string n)
unfolding to_string
to_string_mono m n h = digits_before_mono m n m n [] [] (omega arith) (omega arith) h (omega arith)
