-- ===== src/Google/Table.antt =====
-- regression/google/support/helpers.h: the lines of its tables, which have no column for iterations.
use thread_pool_pro.Base.{ℕ, ◌≤◌, ◌<◌, ◌≡◌, ◌^◌, ◌∙◌, sym, List, [], ◌∷◌, arith, length}
use thread_pool_pro.Regression.{Str}
use thread_pool_pro.Regression.Text.{display_width, name_cell, pad_cell}
use thread_pool_pro.Regression.Text.Glyphs.{AllGlyphs, concat}
use thread_pool_pro.Regression.Text.Cells.{name_cell-width}
use thread_pool_pro.Regression.Table.{
  Piece, colour, shown, bold, cyan, blue, magenta, reset, cells, draw_border, value_cell,
  value_width, delta_width, delta_title,
}
use thread_pool_pro.Regression.Table.Widths.{
  visible, cells-visible, draw_border-visible, pad_cell-fits, value_cell-visible, blank-width,
  delta_title-width,
}

-- `TEST_W`
abbrev pub benchmark_width : ℕ
benchmark_width = 32

abbrev pub widths : List ℕ
widths = benchmark_width ∷ value_width ∷ value_width ∷ delta_width ∷ []

-- The titles that `setHeader` prints between its two borders.
unfoldable pub title_line : Str → Str → Str → List Piece
title_line header current baseline = cells (
    (bold ∷ cyan ∷ shown (name_cell header benchmark_width) ∷ reset ∷ [])
    ∷ (bold ∷ blue ∷ shown (pad_cell (b' ' ∷ current) value_width) ∷ reset ∷ [])
    ∷ (bold ∷ magenta ∷ shown (pad_cell (b' ' ∷ baseline) value_width) ∷ reset ∷ [])
    ∷ (bold ∷ cyan ∷ shown (pad_cell delta_title delta_width) ∷ reset ∷ [])
    ∷ [])

-- The line that `printComparisonRow` prints, from its texts.
unfoldable pub comparison_line : Str → Str → Str → Piece → Str → List Piece
comparison_line name current baseline delta_colour delta = cells (
    (shown (name_cell name benchmark_width) ∷ [])
    ∷ (blue ∷ shown (pad_cell current value_width) ∷ reset ∷ [])
    ∷ (magenta ∷ shown (pad_cell baseline value_width) ∷ reset ∷ [])
    ∷ (delta_colour ∷ shown (pad_cell delta delta_width) ∷ reset ∷ [])
    ∷ [])

-- For a name in UTF-8 with fewer than 2 ^ 31 code points, labels of at most 23 columns, durations
-- of at most 10, a change of at most 14, and corners of one column: the titles and the row are
-- both as wide as the borders.
pub comparison_line-aligned :
    (gs : List Str) (first second current baseline delta left mid right colour_code : Str) (m n : ℕ)
    → AllGlyphs gs
    → length gs < 2 ^ 31
    → display_width first ≤ 23
    → display_width second ≤ 23
    → display_width current ≤ 10
    → display_width baseline ≤ 10
    → display_width delta ≤ 14
    → display_width left ≡ 1
    → display_width mid ≡ 1
    → display_width right ≡ 1
    → (visible (title_line (concat gs) first second) ≡ visible (draw_border left mid right widths))
      × (visible (
            comparison_line
              (concat gs)
              (value_cell current m)
              (value_cell baseline n)
              (colour colour_code)
              delta)
          ≡ visible (draw_border left mid right widths))
unfolding title_line comparison_line
comparison_line-aligned gs first second current baseline delta left mid right code m n h small f s c
      b d x y z =
    let name = name_cell-width gs benchmark_width h small (omega arith) (omega arith) in
    let one =
      pad_cell-fits (b' ' ∷ first) value_width (omega (arith, blank-width first)) (omega arith) in
    let two =
      pad_cell-fits (b' ' ∷ second) value_width (omega (arith, blank-width second)) (omega arith) in
    let title = pad_cell-fits delta_title 14 (omega (arith, delta_title-width)) (omega arith) in
    let now =
      pad_cell-fits (value_cell current m) value_width
        (omega (arith, value_cell-visible current m c)) (omega arith) in
    let then_was =
      pad_cell-fits (value_cell baseline n) value_width
        (omega (arith, value_cell-visible baseline n b)) (omega arith) in
    let change = pad_cell-fits delta 14 d (omega arith) in
    let border = sym (draw_border-visible left mid right benchmark_width _ x y z) in
    (
      cells-visible _ widths (
        omega (arith, name),
        (omega (arith, one), (omega (arith, two), (omega (arith, title), tt))),
      )
          ∙ border,
      cells-visible _ widths (
        omega (arith, name),
        (omega (arith, now), (omega (arith, then_was), (omega (arith, change), tt))),
      )
          ∙ border,
    )
