-- ===== src/Regression/Version.antt =====
-- regression/custom/support/helpers.h: version tags, read with the extractors of `std::stringstream`.
pub mod Decimal
pub mod Lengths
pub mod Tags
pub mod Latest
use thread_pool_pro.Base.{
  ℕ, zero, suc, ◌+◌, ◌-◌, ◌*◌, ◌/◌, ◌%◌, ◌^◌, Bool, true, false, ◌&&◌, ◌||◌, not, Option, none,
  some, List, [], ◌∷◌, ◌++◌, if◌then◌else◌, ◌==◌, ltb, leb,
}
use thread_pool_pro.Regression.{Str, ◌>>=◌}
use thread_pool_pro.Regression.Text.{ℤ, pos, negsuc}

-- `std::isdigit`
abbrev pub is_digit : ℕ → Bool
is_digit c = leb b'0' c && leb c b'9'

-- `std::isspace`
abbrev pub is_space : ℕ → Bool
is_space c = (c == b' ') || (leb 9 c && leb c 13)

-- What an extractor skips first.
unfoldable pub skip_spaces : Str → Str
skip_spaces [] = []
skip_spaces (c ∷ s) = if is_space c then skip_spaces s else c ∷ s

-- The number that the leading digits denote, after `n`, and what follows.
unfoldable pub read_digits : ℕ → Str → ℕ × Str
read_digits n [] = (n, [])
read_digits n (c ∷ s) = if is_digit c then read_digits (n * 10 + (c - b'0')) s else (n, c ∷ s)

abbrev pub starts_digit : Str → Bool
starts_digit [] = false
starts_digit (c ∷ s) = is_digit c

-- Digits that denote a value of `int`, which the sign has to fit.
unfoldable pub read_unsigned : Bool → Str → Option (ℤ × Str)
read_unsigned negative s =
    let (n, rest) = read_digits 0 s in
    if not (starts_digit s)
    then none
    else (if negative
        then (if n == 0
            then some (pos 0, rest)
            else (if leb n (2 ^ 31) then some (negsuc (n - 1), rest) else none))
        else (if ltb n (2 ^ 31) then some (pos n, rest) else none))

unfoldable pub read_signed : Str → Option (ℤ × Str)
read_signed [] = none
read_signed (c ∷ s) =
    if c == b'-'
    then read_unsigned true s
    else (if c == b'+' then read_unsigned false s else read_unsigned false (c ∷ s))

-- `ss >> n` for an `int`.
unfoldable pub read_int : Str → Option (ℤ × Str)
read_int s = read_signed (skip_spaces s)

-- `ss >> c` for a `char`.
abbrev pub read_char_at : Str → Option (ℕ × Str)
read_char_at [] = none
read_char_at (c ∷ s) = some (c, s)

unfoldable pub read_char : Str → Option (ℕ × Str)
read_char s = read_char_at (skip_spaces s)

-- `Baseline`
pub record Baseline : Type 0 where
  pub major : ℤ
  pub minor : ℤ
  pub patch : ℤ
  pub name : Str

-- The extractions that both parsers make, and the tests for the dots.
unfoldable pub read_version : Str → Str → Option (Baseline × Str)
read_version name s = do
  (major, s) ← read_int s
  (dot1, s) ← read_char s
  (minor, s) ← read_int s
  (dot2, s) ← read_char s
  (patch, s) ← read_int s
  if (dot1 == b'.') && (dot2 == b'.')
      then some (record { major = major; minor = minor; patch = patch; name = name }, s)
      else none

abbrev pub is_v : ℕ → Bool
is_v c = (c == b'v') || (c == b'V')

-- `isCustomBaselineName`, on the name of the directory.
unfoldable pub is_custom_baseline_name : Str → Bool
is_custom_baseline_name [] = false
is_custom_baseline_name (c ∷ s) = is_v c

-- `version.erase(0, 1)` after a `v`.
unfoldable pub without_v : Str → Str
without_v [] = []
without_v (c ∷ s) = if is_v c then s else c ∷ s

abbrev pub baseline_of : Option (Baseline × Str) → Option Baseline
baseline_of none = none
baseline_of (some (b, s)) = some b

-- `parseBaseline`, on the name of the directory; `none` where it throws.
unfoldable pub parse_baseline : Str → Option Baseline
parse_baseline name = baseline_of (read_version name (without_v name))

-- No more than spaces are left.
abbrev pub at_end : Option (Baseline × Str) → Option Baseline
at_end none = none
at_end (some (b, s)) = elim (read_char s) [ none ↦ some b | some _ ↦ none ]

-- `tryParseVersionArg`; `none` where it returns false.
unfoldable pub try_parse_version_arg : Str → Option Baseline
try_parse_version_arg [] = none
try_parse_version_arg (c ∷ s) = if is_v c then at_end (read_version (c ∷ s) s) else none

-- `std::to_string` of a number: the digits of `n`, before `s`; `fuel` bounds their number.
unfoldable pub digits_before : ℕ → ℕ → Str → Str
digits_before zero n s = (b'0' + n % 10) ∷ s
digits_before (suc fuel) n s = elim (ltb n 10) [
  | true ↦ (b'0' + n) ∷ s
  | false ↦ digits_before fuel (n / 10) ((b'0' + n % 10) ∷ s)
]

unfoldable pub to_string : ℕ → Str
to_string n = digits_before n n []
