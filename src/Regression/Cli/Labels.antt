-- ===== src/Regression/Cli/Labels.antt =====
-- The label of a column is the tag that was asked for.
use thread_pool_pro.Base.{
  ℕ, ◌≡◌, ◌∙◌, refl, ap, sym, subst, inl, inr, Bool, true, false, ◌||◌, ◌&&◌, Option, none, some,
  [], ◌∷◌, ◌++◌, arith, append-nil, ◌*◌, ◌+◌, ◌-◌, ◌==◌, Bool-cases, Option-cases, append_assoc,
}
use thread_pool_pro.Regression.{Str}
use thread_pool_pro.Regression.Text.{ℤ}
use thread_pool_pro.Regression.Version.{
  Baseline, skip_spaces, read_digits, read_unsigned, read_signed, read_int, read_char, read_char_at,
  read_version, is_v, at_end, try_parse_version_arg,
}
use thread_pool_pro.Regression.Cli.{
  benchmarks, baselines, json, live_results_file, baseline_path, filename_from, filename, has_slash,
  parent_path, label_for,
}

pub has_slash-append : (s t : Str) → has_slash (s ++ t) ≡ (has_slash s || has_slash t)
has_slash-append [] t = refl
has_slash-append (c ∷ s) t = ground (arith, has_slash-append s t)

pub parent_path-append : (s t : Str) → has_slash t ≡ false → parent_path (s ++ b'/' ∷ t) ≡ s
unfolding parent_path
parent_path-append [] t h = ground (arith, h)
parent_path-append (c ∷ s) t h =
    ground (arith, has_slash-append s (b'/' ∷ t), parent_path-append s t h)

pub filename_from-name : (last s : Str) → has_slash s ≡ false → filename_from last s ≡ last ++ s
unfolding filename_from
filename_from-name last [] h = sym (append-nil last)
filename_from-name last (c ∷ s) h =
    let rest : has_slash s ≡ false = ground (arith, h) in
    let one = filename_from-name (last ++ c ∷ []) s rest ∙ append_assoc last (c ∷ []) s in
    ground (arith, h, one)

-- The label of the file of a baseline is the name of the baseline, if there is no slash in it.
pub label_for-baseline_path :
    (b : Baseline) → has_slash b.name ≡ false → label_for (baseline_path b) ≡ b.name
unfolding label_for baseline_path live_results_file filename filename_from
label_for-baseline_path b h =
    let file : has_slash (b.name ++ json) ≡ false =
      ground (arith, has_slash-append b.name json, h) in
    ap filename (parent_path-append (benchmarks (baselines b.name)) (b.name ++ json) file)
    ∙ filename_from-name [] b.name h

-- What the extractors leave.
skip_spaces-slash : (s : Str) → has_slash (skip_spaces s) ≡ has_slash s
unfolding skip_spaces
skip_spaces-slash [] = refl
skip_spaces-slash (c ∷ s) = ground (arith, skip_spaces-slash s)

read_digits-slash : (n : ℕ) (s : Str) → has_slash ((read_digits n s).1) ≡ has_slash s
unfolding read_digits
read_digits-slash n [] = refl
read_digits-slash n (c ∷ s) = ground (arith, read_digits-slash (n * 10 + (c - b'0')) s)

-- What an extraction has read, if it succeeds, has no slash.
abbrev Reads : {A : Type 0} → Str → Option (A × Str) → Type 0
Reads s none = Unit {0}
Reads s (some (a, r)) = has_slash r ≡ has_slash s

read_unsigned-Reads : (negative : Bool) (s : Str) → Reads s (read_unsigned negative s)
unfolding read_unsigned
read_unsigned-Reads negative s = ground (arith, read_digits-slash 0 s)

read_signed-Reads : (s : Str) → Reads s (read_signed s)
unfolding read_signed
read_signed-Reads [] = tt
read_signed-Reads (c ∷ s) = ground (
  arith,
  read_unsigned-Reads true s,
  read_unsigned-Reads false s,
  read_unsigned-Reads false (c ∷ s),
)

Reads-skip : {A : Type 0} (s : Str) (o : Option (A × Str)) → Reads (skip_spaces s) o → Reads s o
Reads-skip s none h = tt
Reads-skip s (some (a, r)) h = h ∙ skip_spaces-slash s

read_int-Reads : (s : Str) → Reads s (read_int s)
unfolding read_int
read_int-Reads s = Reads-skip s (read_signed (skip_spaces s)) (read_signed-Reads (skip_spaces s))

int_read : (s : Str) (i : ℤ) (r : Str) → read_int s ≡ some (i, r) → has_slash r ≡ has_slash s
int_read s i r e = subst (Reads s) e (read_int-Reads s)

-- A character other than a slash.
abbrev Takes : Str → Option (ℕ × Str) → Type 0
Takes s none = has_slash s ≡ false
Takes s (some (c, r)) = has_slash s ≡ ((c == b'/') || has_slash r)

Takes-cases : (s t : Str) → has_slash t ≡ has_slash s → Takes s (read_char_at t)
Takes-cases s [] h = sym h
Takes-cases s (c ∷ t) h = sym h

read_char-Takes : (s : Str) → Takes s (read_char s)
unfolding read_char
read_char-Takes s = Takes-cases s (skip_spaces s) (skip_spaces-slash s)

dot_read :
    (s r : Str) (c : ℕ) → read_char s ≡ some (c, r) → (c == b'.') ≡ true → has_slash s ≡ has_slash r
dot_read s r c e d =
    let t : has_slash s ≡ ((c == b'/') || has_slash r) = subst (Takes s) e (read_char-Takes s) in
    ground (arith, t, d)

-- What the five extractions have read, one after the other.
five_read :
    (s s1 s2 s3 s4 s5 : Str) (i j k : ℤ) (c d : ℕ)
    → read_int s ≡ some (i, s1)
    → read_char s1 ≡ some (c, s2)
    → read_int s2 ≡ some (j, s3)
    → read_char s3 ≡ some (d, s4)
    → read_int s4 ≡ some (k, s5)
    → ((c == b'.') && (d == b'.')) ≡ true
    → has_slash s ≡ has_slash s5
five_read s s1 s2 s3 s4 s5 i j k c d e1 e2 e3 e4 e5 dots =
    sym (int_read s i s1 e1)
    ∙ dot_read s1 s2 c e2 (ground (arith, dots))
    ∙ sym (int_read s2 j s3 e3)
    ∙ dot_read s3 s4 d e4 (ground (arith, dots))
    ∙ sym (int_read s4 k s5 e5)

read_version-slash :
    (name s : Str) (b : Baseline) (r : Str)
    → read_version name s ≡ some (b, r)
    → (has_slash s ≡ has_slash r) × (b.name ≡ name)
unfolding read_version
read_version-slash name s b r e = elim (Option-cases (read_int s)) [
  | inl k ↦ absurd (ground (arith, k, e))
  | inr ((i, s1), e1) ↦ elim (Option-cases (read_char s1)) [
    | inl k ↦ absurd (ground (arith, k, e, e1))
    | inr ((c, s2), e2) ↦ elim (Option-cases (read_int s2)) [
      | inl k ↦ absurd (ground (arith, k, e, e1, e2))
      | inr ((j, s3), e3) ↦ elim (Option-cases (read_char s3)) [
        | inl k ↦ absurd (ground (arith, k, e, e1, e2, e3))
        | inr ((d, s4), e4) ↦ elim (Option-cases (read_int s4)) [
          | inl k ↦ absurd (ground (arith, k, e, e1, e2, e3, e4))
          | inr ((m, s5), e5) ↦ elim (Bool-cases ((c == b'.') && (d == b'.'))) [
            | inl dots ↦
                let five = five_read s s1 s2 s3 s4 s5 i j m c d e1 e2 e3 e4 e5 dots in
                ground (arith, e, e1, e2, e3, e4, e5, dots, five)
            | inr dots ↦ absurd (ground (arith, e, e1, e2, e3, e4, e5, dots))
          ]
        ]
      ]
    ]
  ]
]

at_end-slash :
    (o : Option (Baseline × Str)) (b : Baseline)
    → at_end o ≡ some b
    → (r : Str) × (o ≡ some (b, r)) × (has_slash r ≡ false)
at_end-slash none b e = absurd (ground arith)
at_end-slash (some (c, r)) b e = elim (Option-cases (read_char r)) [
  | inl k ↦ (r, ground (arith, k, e), subst (Takes r) k (read_char-Takes r))
  | inr (x, k) ↦ absurd (ground (arith, k, e))
]

-- An argument that is accepted as a version has no slash, so that its file stays in the directory
-- of the baselines, and the label of that file is the argument.
pub try_parse_version_arg-label :
    (arg : Str) (b : Baseline)
    → try_parse_version_arg arg ≡ some b
    → (has_slash arg ≡ false) × (label_for (baseline_path b) ≡ arg)
unfolding try_parse_version_arg
try_parse_version_arg-label [] b e = absurd (ground arith)
try_parse_version_arg-label (c ∷ s) b e = elim (Bool-cases (is_v c)) [
  | inl v ↦
      let (r, parsed, clear) = at_end-slash (read_version (c ∷ s) s) b (ground (arith, v, e)) in
      let (same, named) = read_version-slash (c ∷ s) s b r parsed in
      let no_slash : has_slash (c ∷ s) ≡ false = ground (arith, v, same, clear) in
      (no_slash, label_for-baseline_path b (ap has_slash named ∙ no_slash) ∙ named)
  | inr v ↦ absurd (ground (arith, v, e))
]
