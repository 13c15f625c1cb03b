-- ===== src/Regression/Table/Widths.antt =====
-- Every line of a comparison table is as wide as its borders.
use thread_pool_pro.Base.{
  true, ℕ, zero, suc, ◌+◌, ◌-◌, ◌^◌, ◌≤◌, ◌<◌, ◌≡◌, ◌∙◌, refl, sym, List, [], ◌∷◌, ◌++◌, arith,
  length, leb, if◌then◌else◌,
}
use thread_pool_pro.Regression.{Str}
use thread_pool_pro.Regression.Text.{display_width, is_continuation, repeat, pad_cell}
use thread_pool_pro.Regression.Text.Glyphs.{AllGlyphs, concat, display_width-append}
use thread_pool_pro.Regression.Text.Cells.{pad_cell-width, name_cell-width}
use thread_pool_pro.Regression.Table.{
  Piece, colour, shown, box, horizontal, vertical, segments, draw_border, cells, header_line,
  row_line, value_cell, bar, full_block, light_block, iteration_title, delta_title, test_width,
  columns, value_width, duration_width,
}

-- What a line takes on the terminal.
abbrev pub visible_piece : Piece → ℕ
visible_piece (colour c) = 0
visible_piece (shown s) = display_width s

abbrev pub visible : List Piece → ℕ
visible [] = 0
visible (p ∷ ps) = visible_piece p + visible ps

pub visible-append : (ps qs : List Piece) → visible (ps ++ qs) ≡ visible ps + visible qs
visible-append [] qs = omega arith
visible-append (p ∷ ps) qs = omega (arith, visible-append ps qs)

pub repeat-width :
    (token : Str) (n : ℕ) → display_width token ≡ 1 → display_width (repeat token n) ≡ n
unfolding repeat
repeat-width token zero h = unfold display_width in refl
repeat-width token (suc n) h =
    omega (arith, display_width-append token (repeat token n), repeat-width token n h, h)

pub horizontal-width : display_width horizontal ≡ 1
unfolding display_width is_continuation
horizontal-width = refl

pub vertical-width : display_width vertical ≡ 1
unfolding display_width is_continuation
vertical-width = refl

pub space-width : display_width (b' ' ∷ []) ≡ 1
unfolding display_width is_continuation
space-width = refl

pub corner-width : (c : ℕ) → is_continuation c ≡ true → display_width (box c) ≡ 1
unfolding display_width is_continuation
corner-width c e = ground (arith, e)

-- The columns of a table with the lines between them.
abbrev pub table_width : List ℕ → ℕ
table_width [] = 1
table_width (w ∷ ws) = suc w + table_width ws

segments-visible :
    (mid : Str) (ws : List ℕ)
    → display_width mid ≡ 1
    → suc (visible (segments mid ws)) ≡ table_width ws
unfolding segments
segments-visible mid [] h = refl
segments-visible mid (w ∷ ws) h =
    omega (arith, segments-visible mid ws h, repeat-width horizontal w horizontal-width, h)

-- Every line takes as many columns.
abbrev pub AllWide : ℕ → List (List Piece) → Type 0
AllWide w [] = Unit {0}
AllWide w (l ∷ ls) = (visible l ≡ w) × AllWide w ls

-- `drawBorder`, with corners of one column and at least one cell: the line takes the cells and one
-- column between and around them.
pub draw_border-visible :
    (left mid right : Str) (w : ℕ) (ws : List ℕ)
    → display_width left ≡ 1
    → display_width mid ≡ 1
    → display_width right ≡ 1
    → visible (draw_border left mid right (w ∷ ws)) ≡ table_width (w ∷ ws)
unfolding draw_border
draw_border-visible left mid right w ws a b c = omega (
  arith,
  visible-append (segments mid ws) (shown right ∷ _),
  segments-visible mid ws b,
  repeat-width horizontal w horizontal-width,
  a,
  c,
)

-- Cells that take the widths `ws`.
abbrev pub Fits : List (List Piece) → List ℕ → Type 0
Fits [] [] = Unit {0}
Fits [] (w ∷ ws) = ⊥
Fits (c ∷ cs) [] = ⊥
Fits (c ∷ cs) (w ∷ ws) = (visible c ≡ w) × Fits cs ws

pub cells-visible :
    (cs : List (List Piece)) (ws : List ℕ) → Fits cs ws → visible (cells cs) ≡ table_width ws
unfolding cells
cells-visible [] [] f = omega (arith, vertical-width)
cells-visible [] (w ∷ ws) f = absurd f
cells-visible (c ∷ cs) [] f = absurd f
cells-visible (c ∷ cs) (w ∷ ws) (e, f) =
    omega (arith, visible-append c (cells cs), cells-visible cs ws f, e, vertical-width)

pub pad_cell-fits :
    (s : Str) (w : ℕ) → display_width s ≤ w → w < 2 ^ 31 → display_width (pad_cell s w) ≡ w
pad_cell-fits s w h b = ground (arith, pad_cell-width s w (omega arith))

title-width : display_width iteration_title ≡ 10
unfolding display_width is_continuation
title-width = refl

pub delta_title-width : display_width delta_title ≡ 2
unfolding display_width is_continuation
delta_title-width = refl

pub blank-width : (s : Str) → display_width (b' ' ∷ s) ≡ suc (display_width s)
unfolding display_width is_continuation
blank-width s = refl

full_block-width : display_width full_block ≡ 1
unfolding display_width is_continuation
full_block-width = refl

light_block-width : display_width light_block ≡ 1
unfolding display_width is_continuation
light_block-width = refl

-- For a header in UTF-8 with fewer than 2 ^ 31 code points, labels of at most 23 columns, and corners
-- of one column: the line of titles is as wide as the borders above and below it.
pub header_line-aligned :
    (gs : List Str) (current baseline left mid right : Str)
    → AllGlyphs gs
    → length gs < 2 ^ 31
    → display_width current ≤ 23
    → display_width baseline ≤ 23
    → display_width left ≡ 1
    → display_width mid ≡ 1
    → display_width right ≡ 1
    → visible (header_line (concat gs) current baseline)
      ≡ visible (draw_border left mid right columns)
unfolding header_line
header_line-aligned gs current baseline left mid right h small c b l m r =
    let name = name_cell-width gs test_width h small (omega arith) (omega arith) in
    let iteration = pad_cell-fits iteration_title 11 (omega (arith, title-width)) (omega arith) in
    let first =
      pad_cell-fits (b' ' ∷ current) value_width (omega (arith, blank-width current))
        (omega arith) in
    let second =
      pad_cell-fits (b' ' ∷ baseline) value_width (omega (arith, blank-width baseline))
        (omega arith) in
    let delta = pad_cell-fits delta_title 14 (omega (arith, delta_title-width)) (omega arith) in
    cells-visible _ columns (
      omega (arith, name),
      (
        omega (arith, iteration),
        (omega (arith, first), (omega (arith, second), (omega (arith, delta), tt))),
      ),
    )
    ∙ sym (draw_border-visible left mid right test_width _ l m r)

pub bar-visible : (filled : ℕ) → display_width (bar filled) ≡ 10
unfolding bar
bar-visible filled =
    let n = if leb filled 10 then filled else 10 in
    let most : n ≤ 10 = ground arith in
    omega (
      arith,
      display_width-append (repeat full_block n) (repeat light_block (10 - n)),
      repeat-width full_block n full_block-width,
      repeat-width light_block (10 - n) light_block-width,
    )

pub value_cell-visible :
    (duration : Str) (filled : ℕ)
    → display_width duration ≤ 10
    → display_width (value_cell duration filled) ≡ 22
unfolding value_cell
value_cell-visible duration filled h = omega (
  arith,
  blank-width (pad_cell duration duration_width ++ b' ' ∷ bar filled),
  display_width-append (pad_cell duration duration_width) (b' ' ∷ bar filled),
  blank-width (bar filled),
  bar-visible filled,
  pad_cell-fits duration duration_width h (omega arith),
)

-- For a name in UTF-8 with fewer than 2 ^ 31 code points, a tier and durations of at most 10 columns, a
-- change of at most 14, and corners of one column: a row is as wide as the borders, whatever the bars
-- show.
pub row_line-aligned :
    (gs : List Str) (iteration current baseline delta left mid right colour_code : Str) (m n : ℕ)
    → AllGlyphs gs
    → length gs < 2 ^ 31
    → display_width iteration ≤ 10
    → display_width current ≤ 10
    → display_width baseline ≤ 10
    → display_width delta ≤ 14
    → display_width left ≡ 1
    → display_width mid ≡ 1
    → display_width right ≡ 1
    → visible (
        row_line
          (concat gs)
          iteration
          (value_cell current m)
          (value_cell baseline n)
          (colour colour_code)
          delta)
      ≡ visible (draw_border left mid right columns)
unfolding row_line
row_line-aligned gs iteration current baseline delta left mid right code m n h small i c b d x y z =
    let name = name_cell-width gs test_width h small (omega arith) (omega arith) in
    let tier =
      pad_cell-fits (b' ' ∷ iteration) 11 (omega (arith, blank-width iteration)) (omega arith) in
    let first =
      pad_cell-fits (value_cell current m) value_width
        (omega (arith, value_cell-visible current m c)) (omega arith) in
    let second =
      pad_cell-fits (value_cell baseline n) value_width
        (omega (arith, value_cell-visible baseline n b)) (omega arith) in
    let change = pad_cell-fits delta 14 d (omega arith) in
    cells-visible _ columns (
      omega (arith, name),
      (
        omega (arith, tier),
        (omega (arith, first), (omega (arith, second), (omega (arith, change), tt))),
      ),
    )
    ∙ sym (draw_border-visible left mid right test_width _ x y z)
