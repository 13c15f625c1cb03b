-- ===== src/Regression/Comparison/Rows.antt =====
-- A line of a table takes 105 columns.
use thread_pool_pro.Base.{
  ℕ, ◌^◌, ◌≤◌, ◌<◌, ◌≡◌, ◌∙◌, refl, subst, true, List, ◌++◌, arith, length, codes,
}
use thread_pool_pro.Regression.{Str}
use thread_pool_pro.Regression.Text.{display_width, is_continuation}
use thread_pool_pro.Regression.Text.Glyphs.{AllGlyphs, concat, display_width-append}
use thread_pool_pro.Regression.Table.{box, columns, draw_border, header_line}
use thread_pool_pro.Regression.Table.Widths.{
  visible, draw_border-visible, corner-width, header_line-aligned, row_line-aligned, blank-width,
}
use thread_pool_pro.Regression.Table.Durations.{format_duration-fits}
use thread_pool_pro.Regression.Summary.{Doubles}
use thread_pool_pro.Regression.Comparison.{
  Look, dash, up, down, top_line, middle_line, bottom_line, delta_colour, arrow, delta_text,
  delta_cell, duration, comparison_row,
}

-- A text in UTF-8 with fewer than 2 ^ 31 code points.
abbrev pub IsText : Str → Type 0
IsText s = (gs : List Str) × AllGlyphs gs × (length gs < 2 ^ 31) × (concat gs ≡ s)

border-visible :
    (a b c : ℕ)
    → is_continuation a ≡ true
    → is_continuation b ≡ true
    → is_continuation c ≡ true
    → visible (draw_border (box a) (box b) (box c) columns) ≡ 105
border-visible a b c e f g =
    draw_border-visible (box a) (box b) (box c) 26 _ (corner-width a e) (corner-width b f)
      (corner-width c g)

pub top_line-visible : visible top_line ≡ 105
top_line-visible =
    border-visible 0x8C 0xAC 0x90 (unfold is_continuation in refl) (unfold is_continuation in refl)
      (unfold is_continuation in refl)

pub middle_line-visible : visible middle_line ≡ 105
middle_line-visible =
    border-visible 0x9C 0xBC 0xA4 (unfold is_continuation in refl) (unfold is_continuation in refl)
      (unfold is_continuation in refl)

pub bottom_line-visible : visible bottom_line ≡ 105
bottom_line-visible =
    border-visible 0x94 0xB4 0x98 (unfold is_continuation in refl) (unfold is_continuation in refl)
      (unfold is_continuation in refl)

left-width : display_width (box 0x8C) ≡ 1
left-width = corner-width 0x8C (unfold is_continuation in refl)

mid-width : display_width (box 0xAC) ≡ 1
mid-width = corner-width 0xAC (unfold is_continuation in refl)

right-width : display_width (box 0x90) ≡ 1
right-width = corner-width 0x90 (unfold is_continuation in refl)

arrows-width :
    (display_width dash ≡ 2)
    × (display_width up ≡ 2)
    × (display_width down ≡ 2)
    × (display_width (codes "%") ≡ 1)
unfolding display_width is_continuation
arrows-width = (refl, refl, refl, refl)

module _ {D : Type 0} (d : Doubles D) (look : Look D) where
  arrow-width : (pct : D) → display_width (arrow d look pct) ≡ 2
  unfolding arrow
  arrow-width pct = ground (arith, arrows-width)

  delta_cell-fits :
      (pct : D)
      → display_width (look.change_text pct) ≤ 10
      → display_width (delta_cell d look pct) ≤ 14
  delta_cell-fits pct h = omega (
    arith,
    blank-width (arrow d look pct ++ delta_text d look pct),
    display_width-append (arrow d look pct) (delta_text d look pct),
    display_width-append (look.change_text pct) (codes "%"),
    arrow-width pct,
    arrows-width,
    h,
  )

  -- The durations and the changes fit into their cells.
  abbrev pub Fitting : Type 0
  Fitting =
      ((n unit : ℕ) → display_width (look.magnitude n unit) ≤ 7)
      × ((pct : D) → display_width (look.change_text pct) ≤ 10)

  pub comparison_row-visible :
      (name tier : Str) (b c : D)
      → Fitting
      → IsText name
      → display_width tier ≤ 10
      → visible (comparison_row d look name tier b c) ≡ 105
  unfolding comparison_row delta_colour
  comparison_row-visible name tier b c (m, t) (gs, glyphs, small, e) h =
      subst (λ s. visible (comparison_row d look s tier b c) ≡ 105) e
        (row_line-aligned gs tier (duration d look c) (duration d look b)
            (delta_cell d look (d.change b c)) (box 0x8C) (box 0xAC) (box 0x90) _ _ _ glyphs small h
            (format_duration-fits look.magnitude (look.rounded c) m)
            (format_duration-fits look.magnitude (look.rounded b) m)
            (delta_cell-fits (d.change b c) (t (d.change b c))) left-width mid-width right-width
          ∙ top_line-visible)

  pub header-visible :
      (s current baseline : Str)
      → IsText s
      → display_width current ≤ 23
      → display_width baseline ≤ 23
      → visible (header_line s current baseline) ≡ 105
  header-visible s current baseline (gs, glyphs, small, e) c b =
      subst (λ t. visible (header_line t current baseline) ≡ 105) e
        (header_line-aligned gs current baseline (box 0x8C) (box 0xAC) (box 0x90) glyphs small c b
            left-width mid-width right-width
          ∙ top_line-visible)
