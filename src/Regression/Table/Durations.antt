-- ===== src/Regression/Table/Durations.antt =====
-- Printed durations fit into their column.
use thread_pool_pro.Base.{
  ℕ, ◌≤◌, ◌≡◌, refl, inl, inr, Bool-cases, [], ◌∷◌, ◌++◌, arith, length, ltb, codes,
}
use thread_pool_pro.Regression.{Str}
use thread_pool_pro.Regression.Text.{display_width, is_continuation}
use thread_pool_pro.Regression.Text.Glyphs.{display_width-append}
use thread_pool_pro.Regression.Version.{to_string, digits_before}
use thread_pool_pro.Regression.Version.Lengths.{to_string_mono}
use thread_pool_pro.Regression.Table.{format_duration}

display_width-le : (s : Str) → display_width s ≤ length s
unfolding display_width
display_width-le [] = omega arith
display_width-le (c ∷ s) = ground (arith, display_width-le s)

three_digits : length (to_string 999) ≡ 3
unfolding to_string digits_before
three_digits = refl

-- The units.
units-width :
    (display_width (codes " ns") ≡ 3)
    × (display_width (codes " us") ≡ 3)
    × (display_width (codes " ms") ≡ 3)
    × (display_width (codes " s") ≡ 2)
unfolding display_width is_continuation
units-width = (refl, refl, refl, refl)

-- When no magnitude takes more than seven columns, every duration fits into the ten columns before a
-- bar.
pub format_duration-fits :
    (magnitude : ℕ → ℕ → Str) (ns : ℕ)
    → ((n unit : ℕ) → display_width (magnitude n unit) ≤ 7)
    → display_width (format_duration magnitude ns) ≤ 10
unfolding format_duration
format_duration-fits magnitude ns h =
    let (n, u, m, s) = units-width in
    elim (Bool-cases (ltb ns 1000)) [
      | inl e ↦
          let short : display_width (to_string ns ++ codes " ns") ≤ 10 = omega (
            arith,
            to_string_mono ns 999 (ground (arith, e)),
            three_digits,
            display_width-le (to_string ns),
            display_width-append (to_string ns) (codes " ns"),
            n,
          ) in
          ground (arith, e, short)
      | inr e ↦ ground (
        arith,
        e,
        h ns 1000,
        h ns 1000000,
        h ns 1000000000,
        display_width-append (magnitude ns 1000) (codes " us"),
        display_width-append (magnitude ns 1000000) (codes " ms"),
        display_width-append (magnitude ns 1000000000) (codes " s"),
        u,
        m,
        s,
      )
    ]
