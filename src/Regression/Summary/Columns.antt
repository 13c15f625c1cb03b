-- ===== src/Regression/Summary/Columns.antt =====
-- The box of the summary has lines of one width.
use thread_pool_pro.Base.{ℕ, ◌≤◌, ◌≡◌, refl, true, [], ◌∷◌, ◌++◌, arith, codes}
use thread_pool_pro.Regression.{Str}
use thread_pool_pro.Regression.Text.{display_width, is_continuation, pad_cell}
use thread_pool_pro.Regression.Text.Glyphs.{display_width-append}
use thread_pool_pro.Regression.Table.{Piece, box, draw_border, bar, magenta, blue, gray}
use thread_pool_pro.Regression.Table.Widths.{
  visible, visible_piece, table_width, AllWide, cells-visible, pad_cell-fits, draw_border-visible,
  corner-width, blank-width, bar-visible,
}
use thread_pool_pro.Regression.Version.{to_string}
use thread_pool_pro.Regression.Summary.{
  Doubles, Tally, total, widths, label_width, count_text, count_cell, result_line, summary_title,
  summary_lines,
}

border-wide :
    (a b c : ℕ)
    → is_continuation a ≡ true
    → is_continuation b ≡ true
    → is_continuation c ≡ true
    → visible (draw_border (box a) (box b) (box c) widths) ≡ table_width widths
border-wide a b c e f g =
    draw_border-visible (box a) (box b) (box c) 20 (26 ∷ []) (corner-width a e) (corner-width b f)
      (corner-width c g)

label-fits : (s : Str) → display_width s ≤ 19 → display_width (pad_cell (b' ' ∷ s) label_width) ≡ 20
label-fits s h = pad_cell-fits (b' ' ∷ s) 20 (omega (arith, blank-width s)) (omega arith)

module _ {D : Type 0} (d : Doubles D) where
  result_line-wide :
      (tint : Piece) (label : Str) (count all : ℕ)
      → visible_piece tint ≡ 0
      → display_width label ≤ 19
      → display_width (count_text d count all) ≤ 12
      → visible (result_line d tint label count all) ≡ table_width widths
  unfolding result_line
  result_line-wide tint label count all e l c =
      let text = pad_cell (count_text d count all) 12 in
      let inner = pad_cell-fits (count_text d count all) 12 c (omega arith) in
      let cell : display_width (count_cell d count all) ≤ 26 = omega (
        arith,
        blank-width (text ++ b' ' ∷ bar (d.filled count all)),
        display_width-append text (b' ' ∷ bar (d.filled count all)),
        blank-width (bar (d.filled count all)),
        bar-visible (d.filled count all),
        inner,
      ) in
      let value = pad_cell-fits (count_cell d count all) 26 cell (omega arith) in
      cells-visible _ widths (omega (arith, e, label-fits label l), (omega (arith, e, value), tt))

  faster-width :
      (label : Str) → display_width label ≤ 12 → display_width (label ++ codes " faster") ≤ 19
  faster-width label h =
      let seven : display_width (codes " faster") ≡ 7 =
        unfold display_width is_continuation in refl in
      omega (arith, display_width-append label (codes " faster"), seven)

  summary_title-wide :
      (all : ℕ)
      → display_width (to_string all) ≤ 13
      → visible (summary_title d all) ≡ table_width widths
  unfolding summary_title
  summary_title-wide all h =
      let eight : display_width (codes " Summary") ≡ 8 =
        unfold display_width is_continuation in refl in
      let more : display_width (codes " comparisons") ≡ 12 =
        unfold display_width is_continuation in refl in
      let label = pad_cell-fits (codes " Summary") 20 (omega (arith, eight)) (omega arith) in
      let value =
        pad_cell-fits (b' ' ∷ to_string all ++ codes " comparisons") 26
          (omega (
            arith,
            blank-width (to_string all ++ codes " comparisons"),
            display_width-append (to_string all) (codes " comparisons"),
            more,
          ))
          (omega arith) in
      cells-visible _ widths (omega (arith, label), (omega (arith, value), tt))

  -- For labels of at most 12 columns, counts with their shares of at most 12, and a total of at most
  -- 13 digits: all lines of the summary take the same columns.
  pub summary_lines-aligned :
      (current baseline : Str) (t : Tally)
      → display_width current ≤ 12
      → display_width baseline ≤ 12
      → display_width (count_text d t.faster (total t)) ≤ 12
      → display_width (count_text d t.slower (total t)) ≤ 12
      → display_width (count_text d t.tied (total t)) ≤ 12
      → display_width (to_string (total t)) ≤ 13
      → AllWide 49 (summary_lines d current baseline t)
  unfolding summary_lines
  summary_lines-aligned current baseline t c b f s e n =
      let three : display_width (codes "Tie") ≤ 19 =
        unfold display_width is_continuation in omega arith in
      (
        border-wide 0x8C 0xAC 0x90 (unfold is_continuation in refl) (unfold is_continuation in refl)
            (unfold is_continuation in refl),
        (
          summary_title-wide (total t) n,
          (
            border-wide 0x9C 0xBC 0xA4 (unfold is_continuation in refl)
                (unfold is_continuation in refl) (unfold is_continuation in refl),
            (
              result_line-wide blue (current ++ codes " faster") t.faster (total t) refl
                  (faster-width current c) f,
              (
                result_line-wide magenta (baseline ++ codes " faster") t.slower (total t) refl
                    (faster-width baseline b) s,
                (
                  result_line-wide gray (codes "Tie") t.tied (total t) refl three e,
                  (
                    border-wide 0x94 0xB4 0x98 (unfold is_continuation in refl)
                        (unfold is_continuation in refl) (unfold is_continuation in refl),
                    tt,
                  ),
                ),
              ),
            ),
          ),
        ),
      )
