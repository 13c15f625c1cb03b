-- ===== src/Suites/Boxes.antt =====
-- The boxes that the examples print: the header of an example, and labels with values.
use thread_pool_pro.Base.{
  ℕ, ◌+◌, ◌-◌, ◌^◌, ◌≤◌, ◌<◌, ◌≡◌, refl, List, [], ◌∷◌, ◌++◌, map, arith, larger,
}
use thread_pool_pro.Regression.{Str}
use thread_pool_pro.Regression.Text.{display_width, is_continuation, pad_cell, repeat}
use thread_pool_pro.Regression.Text.Glyphs.{display_width-append}
use thread_pool_pro.Regression.Text.Cells.{spaces-width}
use thread_pool_pro.Regression.Table.{
  Piece, colour, shown, box, reset, bold, green, yellow, bar_pieces, draw_border,
}
use thread_pool_pro.Regression.Table.Widths.{
  visible, AllWide, pad_cell-fits, draw_border-visible, vertical-width, space-width, corner-width,
}
use thread_pool_pro.Suites.{Suite}

-- `DIM`
abbrev pub dim : Piece
dim = colour (27 ∷ b'[' ∷ b'2' ∷ b'm' ∷ [])

-- The borders above and below a box that is `width` columns wide within.
abbrev pub top_border : ℕ → List Piece
top_border width = draw_border (box 0x8C) (box 0xAC) (box 0x90) (width ∷ [])

abbrev pub bottom_border : ℕ → List Piece
bottom_border width = draw_border (box 0x94) (box 0xB4) (box 0x98) (width ∷ [])

-- "[id] "
abbrev pub id_prefix : Suite → Str
id_prefix s = b'[' ∷ s.id ++ b']' ∷ b' ' ∷ []

abbrev pub header_width : Suite → ℕ
header_width s = larger (display_width (id_prefix s ++ s.name)) (display_width s.category) + 2

-- The lines that `printExampleHeader` prints, after an empty one.
unfoldable pub example_header : Suite → List (List Piece)
example_header s =
    top_border (header_width s)
    ∷ (bar_pieces
        ++ shown (b' ' ∷ [])
          ∷ yellow
          ∷ shown (id_prefix s)
          ∷ reset
          ∷ bold
          ∷ shown (pad_cell s.name (header_width s - 2 - display_width (id_prefix s)))
          ∷ reset
          ∷ shown (b' ' ∷ [])
          ∷ bar_pieces)
    ∷ (bar_pieces
        ++ shown (b' ' ∷ [])
          ∷ dim
          ∷ shown (pad_cell s.category (header_width s - 2))
          ∷ reset
          ∷ shown (b' ' ∷ [])
          ∷ bar_pieces)
    ∷ bottom_border (header_width s)
    ∷ []

-- The widest of the texts.
unfoldable pub widest : ℕ → List Str → ℕ
widest w [] = w
widest w (s ∷ rest) = widest (larger w (display_width s)) rest

-- A label with its value.
pub record Stat : Type 0 where
  pub label : Str
  pub value : Str

unfoldable pub stat_line : ℕ → ℕ → Stat → List Piece
stat_line label_width value_width r =
    bar_pieces
    ++ shown (b' ' ∷ [])
      ∷ shown (pad_cell r.label label_width)
      ∷ shown (b' ' ∷ [])
      ∷ shown (repeat (b' ' ∷ []) (value_width - display_width r.value))
      ∷ green
      ∷ shown r.value
      ∷ reset
      ∷ shown (b' ' ∷ [])
      ∷ bar_pieces

unfoldable pub stat_lines : ℕ → ℕ → List Stat → List (List Piece)
stat_lines label_width value_width rows =
    top_border (label_width + value_width + 3) ∷ map (stat_line label_width value_width) rows
    ++ bottom_border (label_width + value_width + 3) ∷ []

-- The box of a list of labels with their values.
unfoldable pub stat_box : List Stat → List (List Piece)
stat_box rows =
    stat_lines (widest 0 (map (λ r. r.label) rows)) (widest 0 (map (λ r. r.value) rows)) rows

AllWide-append :
    (w : ℕ) (ls ms : List (List Piece)) → AllWide w ls → AllWide w ms → AllWide w (ls ++ ms)
AllWide-append w [] ms p q = q
AllWide-append w (l ∷ ls) ms (e, p) q = (e, AllWide-append w ls ms p q)

widest-ge : (w : ℕ) (ss : List Str) → w ≤ widest w ss
unfolding widest
widest-ge w [] = omega arith
widest-ge w (s ∷ rest) = ground (arith, widest-ge (larger w (display_width s)) rest)

abbrev pub AllBelow : ℕ → List Str → Type 0
AllBelow w [] = Unit {0}
AllBelow w (s ∷ rest) = (display_width s ≤ w) × AllBelow w rest

widest-AllBelow : (w : ℕ) (ss : List Str) → AllBelow (widest w ss) ss
unfolding widest
widest-AllBelow w [] = tt
widest-AllBelow w (s ∷ rest) = (
  ground (arith, widest-ge (larger w (display_width s)) rest),
  widest-AllBelow (larger w (display_width s)) rest,
)

top_border-visible : (w : ℕ) → visible (top_border w) ≡ w + 2
top_border-visible w = omega (
  arith,
  draw_border-visible (box 0x8C) (box 0xAC) (box 0x90) w []
      (corner-width 0x8C (unfold is_continuation in refl))
      (corner-width 0xAC (unfold is_continuation in refl))
      (corner-width 0x90 (unfold is_continuation in refl)),
)

bottom_border-visible : (w : ℕ) → visible (bottom_border w) ≡ w + 2
bottom_border-visible w = omega (
  arith,
  draw_border-visible (box 0x94) (box 0xB4) (box 0x98) w []
      (corner-width 0x94 (unfold is_continuation in refl))
      (corner-width 0xB4 (unfold is_continuation in refl))
      (corner-width 0x98 (unfold is_continuation in refl)),
)

stat_line-wide :
    (lw vw : ℕ) (r : Stat)
    → display_width r.label ≤ lw
    → display_width r.value ≤ vw
    → lw < 2 ^ 31
    → visible (stat_line lw vw r) ≡ lw + vw + 3 + 2
unfolding stat_line
stat_line-wide lw vw r a b small = omega (
  arith,
  vertical-width,
  pad_cell-fits r.label lw a small,
  space-width,
  spaces-width (vw - display_width r.value),
)

stat_rows-wide :
    (lw vw : ℕ) (rows : List Stat)
    → AllBelow lw (map (λ r. r.label) rows)
    → AllBelow vw (map (λ r. r.value) rows)
    → lw < 2 ^ 31
    → AllWide (lw + vw + 3 + 2) (map (stat_line lw vw) rows)
stat_rows-wide lw vw [] a b small = tt
stat_rows-wide lw vw (r ∷ rows) (p, a) (q, b) small =
    (stat_line-wide lw vw r p q small, stat_rows-wide lw vw rows a b small)

-- When no label has 2 ^ 31 columns, all lines of a box of labels and values are equally wide.
pub stat_box-aligned :
    (rows : List Stat)
    → widest 0 (map (λ r. r.label) rows) < 2 ^ 31
    → AllWide
        (widest 0 (map (λ r. r.label) rows) + widest 0 (map (λ r. r.value) rows) + 3 + 2)
        (stat_box rows)
unfolding stat_box stat_lines
stat_box-aligned rows small =
    let labels = map (λ (r : Stat). r.label) rows in
    let values = map (λ (r : Stat). r.value) rows in
    let lw = widest 0 labels in
    let vw = widest 0 values in
    (
      top_border-visible (lw + vw + 3),
      AllWide-append (lw + vw + 3 + 2) (map (stat_line lw vw) rows) (_ ∷ [])
          (stat_rows-wide lw vw rows (widest-AllBelow 0 labels) (widest-AllBelow 0 values) small)
          (bottom_border-visible (lw + vw + 3), tt),
    )

-- When the header takes fewer than 2 ^ 31 columns, its four lines are equally wide, however long the
-- name and the category are.
pub example_header-aligned :
    (s : Suite) → header_width s < 2 ^ 31 → AllWide (header_width s + 2) (example_header s)
unfolding example_header
example_header-aligned s small =
    let whole = display_width-append (id_prefix s) s.name in
    let most : (display_width (id_prefix s) + display_width s.name + 2 ≤ header_width s)
        × (display_width s.category + 2 ≤ header_width s) =
      ground (arith, whole) in
    let rest = header_width s - 2 - display_width (id_prefix s) in
    (
      top_border-visible (header_width s),
      (
        omega (
          arith,
          vertical-width,
          space-width,
          pad_cell-fits s.name rest (omega arith) (omega arith),
        ),
        (
          omega (
            arith,
            vertical-width,
            space-width,
            pad_cell-fits s.category (header_width s - 2) (omega arith) (omega arith),
          ),
          (bottom_border-visible (header_width s), tt),
        ),
      ),
    )
