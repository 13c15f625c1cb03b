-- ===== src/Regression/Export/Numbers.antt =====
-- The numbers of JSON, and that printed ones are among them.
use thread_pool_pro.Base.{
  ℕ, zero, suc, ◌+◌, ◌/◌, ◌%◌, ◌≤◌, ◌<◌, ◌≡◌, ◌∙◌, refl, ap, Bool, true, false, ◌||◌, Option, none,
  some, [], ◌∷◌, arith, if◌then◌else◌, ◌==◌, dec_lt,
}
use native.Mathlib.Nat.{mod-lt, div-add-mod}
use thread_pool_pro.Regression.{Str}
use thread_pool_pro.Regression.Version.{is_digit, digits_before, to_string}
use thread_pool_pro.Regression.Version.Decimal.{digits_before-small, digits_before-large}
use thread_pool_pro.Regression.Methods.{all_digits}

-- How far a number has been read.
pub data Part : Type 0 where
  begin : Part
  minus : Part
  leading_zero : Part
  whole : Part
  dot : Part
  fraction : Part
  exponent : Part
  exponent_sign : Part
  exponent_digits : Part

abbrev pub first_digit : ℕ → Option Part
first_digit c = if c == b'0' then some leading_zero else (if is_digit c then some whole else none)

abbrev pub is_exponent : ℕ → Bool
is_exponent c = (c == b'e') || (c == b'E')

abbrev pub after_whole : ℕ → Option Part
after_whole c = if c == b'.' then some dot else (if is_exponent c then some exponent else none)

-- The next character of a number, by the grammar of JSON.
unfoldable pub advance : Part → ℕ → Option Part
advance begin c = if c == b'-' then some minus else first_digit c
advance minus c = first_digit c
advance leading_zero c = after_whole c
advance whole c = if is_digit c then some whole else after_whole c
advance dot c = if is_digit c then some fraction else none
advance fraction c =
    if is_digit c then some fraction else (if is_exponent c then some exponent else none)
advance exponent c =
    if (c == b'+') || (c == b'-')
    then some exponent_sign
    else (if is_digit c then some exponent_digits else none)
advance exponent_sign c = if is_digit c then some exponent_digits else none
advance exponent_digits c = if is_digit c then some exponent_digits else none

-- Whether a number may end here.
abbrev pub may_end : Part → Bool
may_end leading_zero = true
may_end whole = true
may_end fraction = true
may_end exponent_digits = true
may_end _ = false

unfoldable pub number_from : Part → Str → Bool
number_from p [] = may_end p
number_from p (c ∷ s) = elim (advance p c) [ none ↦ false | some q ↦ number_from q s ]

abbrev pub is_number : Str → Bool
is_number s = number_from begin s

whole-digits : (s : Str) → all_digits s ≡ true → number_from whole s ≡ true
unfolding number_from advance
whole-digits [] h = refl
whole-digits (c ∷ s) h = ground (arith, h, whole-digits s)

digits_before-number :
    (fuel n : ℕ) (s : Str)
    → n ≤ fuel
    → 0 < n
    → all_digits s ≡ true
    → is_number (digits_before fuel n s) ≡ true
unfolding number_from advance
digits_before-number zero n s h z k = absurd (omega arith)
digits_before-number (suc fuel) n s h z k = elim (dec_lt n 10) [
  | yes p ↦ ap is_number (digits_before-small (suc fuel) n s p) ∙ ground (arith, whole-digits s k)
  | no p ↦
      let last : all_digits ((b'0' + n % 10) ∷ s) ≡ true =
        ground (arith, k, mod-lt n {m = 10} (omega arith)) in
      ap is_number (digits_before-large fuel n s (omega arith))
      ∙ digits_before-number fuel (n / 10) ((b'0' + n % 10) ∷ s) (omega (arith, div-add-mod n 10))
          (omega (arith, div-add-mod n 10, mod-lt n {m = 10} (omega arith))) last
]

-- `std::to_string` prints a number of JSON.
pub to_string-number : (n : ℕ) → is_number (to_string n) ≡ true
unfolding to_string
to_string-number zero = unfold number_from advance digits_before in refl
to_string-number (suc n) = digits_before-number (suc n) (suc n) [] (omega arith) (omega arith) refl
