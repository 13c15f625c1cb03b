-- ===== src/Regression/Version/Tags.antt =====
-- The two parsers of version tags.
use thread_pool_pro.Base.{
  ℕ, ◌^◌, ◌<◌, ◌≡◌, inl, inr, refl, ap, true, false, Option, none, some, [], ◌∷◌, arith, Bool-cases,
  Option-cases,
}
use thread_pool_pro.Regression.{Str}
use thread_pool_pro.Regression.Text.{pos}
use thread_pool_pro.Regression.Version.{
  Baseline, read_char, skip_spaces, is_space, is_v, starts_digit, read_version, without_v,
  parse_baseline, baseline_of, at_end, try_parse_version_arg, is_custom_baseline_name,
}
use thread_pool_pro.Regression.Version.Decimal.{decimal, read_int-decimal}

-- The tag of a version, such as `v1.2.0`.
abbrev pub tag : ℕ → ℕ → ℕ → Str
tag major minor patch = b'v' ∷ decimal major (b'.' ∷ decimal minor (b'.' ∷ decimal patch []))

abbrev pub version : ℕ → ℕ → ℕ → Str → Baseline
version major minor patch name = record {
  major = pos major;
  minor = pos minor;
  patch = pos patch;
  name = name;
}

read_char-dot : (s : Str) → read_char (b'.' ∷ s) ≡ some (b'.', s)
unfolding read_char skip_spaces
read_char-dot s = refl

read_version-tag :
    (major minor patch : ℕ) (name : Str)
    → major < 2 ^ 31
    → minor < 2 ^ 31
    → patch < 2 ^ 31
    → read_version name (decimal major (b'.' ∷ decimal minor (b'.' ∷ decimal patch [])))
      ≡ some (version major minor patch name, [])
unfolding read_version
read_version-tag major minor patch name a b c =
    let after_minor = b'.' ∷ decimal patch [] in
    let after_major = b'.' ∷ decimal minor after_minor in
    let first = read_int-decimal major after_major a refl in
    let second = read_int-decimal minor after_minor b refl in
    let third = read_int-decimal patch [] c refl in
    rw
      (
        first,
        read_char-dot (decimal minor after_minor),
        second,
        read_char-dot (decimal patch []),
        third,
      )
      refl

-- A tag of three numbers below 2 ^ 31 is accepted, as a command-line argument and as the name of a
-- directory, and read as these numbers.
pub tag-try_parse_version_arg :
    (major minor patch : ℕ)
    → major < 2 ^ 31
    → minor < 2 ^ 31
    → patch < 2 ^ 31
    → let name = tag major minor patch in
      (try_parse_version_arg name ≡ some (version major minor patch name))
      × (parse_baseline name ≡ some (version major minor patch name))
unfolding try_parse_version_arg parse_baseline without_v read_char skip_spaces
tag-try_parse_version_arg major minor patch a b c =
    let parsed = read_version-tag major minor patch (tag major minor patch) a b c in
    (ap at_end parsed, ap baseline_of parsed)

at_end-baseline_of :
    (r : Option (Baseline × Str)) (b : Baseline) → at_end r ≡ some b → baseline_of r ≡ some b
at_end-baseline_of none b e = e
at_end-baseline_of (some (c, s)) b e = elim (Option-cases (read_char s)) [
  | inl k ↦ ground (arith, k, e)
  | inr (x, k) ↦ absurd (ground (arith, k, e))
]

-- What is accepted as a command-line argument is the name of a directory that the tool owns, and is
-- read the same way there.
pub try_parse_version_arg-parse_baseline :
    (arg : Str) (b : Baseline)
    → try_parse_version_arg arg ≡ some b
    → (is_custom_baseline_name arg ≡ true) × (parse_baseline arg ≡ some b)
unfolding try_parse_version_arg parse_baseline without_v is_custom_baseline_name
try_parse_version_arg-parse_baseline [] b e = absurd (ground arith)
try_parse_version_arg-parse_baseline (c ∷ s) b e = elim (Bool-cases (is_v c)) [
  | inl k ↦
      let accepted : at_end (read_version (c ∷ s) s) ≡ some b = ground (arith, k, e) in
      (k, ground (arith, k, at_end-baseline_of (read_version (c ∷ s) s) b accepted))
  | inr k ↦ absurd (ground (arith, k, e))
]

-- The name of a directory may go on after the version, with anything but a digit: the argument with
-- that name is refused, if it goes on with a character that is no space.
pub tag-trailing :
    (major minor patch c : ℕ) (rest : Str)
    → major < 2 ^ 31
    → minor < 2 ^ 31
    → patch < 2 ^ 31
    → starts_digit (c ∷ rest) ≡ false
    → is_space c ≡ false
    → let name = b'v' ∷ decimal major (b'.' ∷ decimal minor (b'.' ∷ decimal patch (c ∷ rest))) in
      (parse_baseline name ≡ some (version major minor patch name))
      × (try_parse_version_arg name ≡ none)
unfolding try_parse_version_arg parse_baseline without_v read_version read_char skip_spaces
tag-trailing major minor patch c rest a b d e f =
    let after_patch = c ∷ rest in
    let after_minor = b'.' ∷ decimal patch after_patch in
    let after_major = b'.' ∷ decimal minor after_minor in
    let first = read_int-decimal major after_major a refl in
    let second = read_int-decimal minor after_minor b refl in
    let third = read_int-decimal patch after_patch d e in
    (rw (first, second, third) refl, rw (first, second, third) (ground (arith, f)))
