-- ===== src/Regression/Text/Cells.antt =====
-- `truncateCell` and `padCell` on texts in UTF-8, and the cell that they make.
use thread_pool_pro.Base.{
  ℕ, zero, suc, ◌-◌, ◌^◌, ◌≤◌, ◌<◌, ◌≡◌, ◌∙◌, refl, ap, List, [], ◌∷◌, ◌++◌, arith, length, take,
  leb, if◌then◌else◌, dec_le, ◌==◌,
}
use thread_pool_pro.Regression.{Str}
use thread_pool_pro.Regression.Text.{
  display_width, pos, as_int, repeat, pad_cell, truncate_cell, truncate_loop, ellipsis, fits_int,
  name_cell, is_continuation,
}
use thread_pool_pro.Regression.Text.Glyphs.{
  AllGlyphs, concat, display_width-append, display_width-concat, length-take_glyphs, AllGlyphs-take,
  ellipsis-IsGlyph, truncate_loop-concat,
}

pub as_int-small : (n : ℕ) → n < 2 ^ 31 → as_int n ≡ pos n
unfolding as_int
as_int-small n h = ground arith

-- For a text in UTF-8 with fewer than 2 ^ 31 code points and a positive width: `truncateCell` gives the
-- text back if it has at most as many code points as the width, and otherwise cuts it before a code
-- point, one short of the width, and puts the ellipsis there.
pub truncate_cell-concat :
    (gs : List Str) (width : ℕ)
    → AllGlyphs gs
    → length gs < 2 ^ 31
    → truncate_cell (concat gs) (suc width)
      ≡ (if leb (length gs) (suc width) then concat gs else concat (take width gs) ++ ellipsis)
unfolding truncate_cell
truncate_cell-concat gs width h small =
    let shown : as_int (display_width (concat gs)) ≡ pos (length gs) =
      ap as_int (display_width-concat gs h) ∙ as_int-small (length gs) small in
    let cut = truncate_loop-concat (length (concat gs)) width gs h (omega arith) in
    ap
      (λ i.
        if fits_int i (suc width)
        then concat gs
        else (if width == 0
            then ellipsis
            else truncate_loop (length (concat gs)) (concat gs) width ++ ellipsis))
      shown
    ∙ cases width cut
  where
    cases :
        (n : ℕ)
        → truncate_loop (length (concat gs)) (concat gs) n ≡ concat (take n gs)
        → (if leb (length gs) (suc n)
            then concat gs
            else (if n == 0
                then ellipsis
                else truncate_loop (length (concat gs)) (concat gs) n ++ ellipsis))
          ≡ (if leb (length gs) (suc n) then concat gs else concat (take n gs) ++ ellipsis)
    cases zero cut = ground arith
    cases (suc n) cut = ground (arith, cut)

pub spaces-width : (n : ℕ) → display_width (repeat (b' ' ∷ []) n) ≡ n
unfolding repeat display_width is_continuation
spaces-width zero = refl
spaces-width (suc n) = ground (arith, spaces-width n)

-- `padCell` on a text that has fewer than 2 ^ 31 columns: it is as wide as it was, or as the cell.
pub pad_cell-width :
    (s : Str) (width : ℕ)
    → display_width s < 2 ^ 31
    → display_width (pad_cell s width)
      ≡ (if leb width (display_width s) then display_width s else width)
unfolding pad_cell
pad_cell-width s width small =
    let shown = as_int-small (display_width s) small in
    let wide = display_width-append s (repeat (b' ' ∷ []) (width - display_width s)) in
    ground (arith, shown, wide, spaces-width (width - display_width s))

truncate_cell-width :
    (gs : List Str) (width : ℕ)
    → AllGlyphs gs
    → length gs < 2 ^ 31
    → display_width (truncate_cell (concat gs) width) ≤ width
truncate_cell-width gs zero h small = unfold truncate_cell display_width in omega arith
truncate_cell-width gs (suc width) h small = elim (dec_le (length gs) (suc width)) [
  | yes p ↦
      let kept : truncate_cell (concat gs) (suc width) ≡ concat gs =
        truncate_cell-concat gs width h small ∙ ground arith in
      omega (arith, ap display_width kept, display_width-concat gs h)
  | no p ↦
      let cut : truncate_cell (concat gs) (suc width) ≡ concat (take width gs) ++ ellipsis =
        truncate_cell-concat gs width h small ∙ ground arith in
      omega (
        arith,
        ap display_width cut,
        display_width-append (concat (take width gs)) ellipsis,
        display_width-concat (take width gs) (AllGlyphs-take width gs h),
        display_width-concat (ellipsis ∷ []) (ellipsis-IsGlyph, tt),
        length-take_glyphs width gs (omega arith),
      )
]

-- For a name in UTF-8 with fewer than 2 ^ 31 code points, and a column that is not empty: the cell is
-- exactly as wide as the column, and so as the border above it.
pub name_cell-width :
    (gs : List Str) (width : ℕ)
    → AllGlyphs gs
    → length gs < 2 ^ 31
    → 0 < width
    → width < 2 ^ 31
    → display_width (name_cell (concat gs) width) ≡ width
unfolding name_cell
name_cell-width gs width h small some_width below =
    let inner = truncate_cell-width gs (width - 1) h small in
    let blank : display_width (b' ' ∷ truncate_cell (concat gs) (width - 1))
        ≡ suc (display_width (truncate_cell (concat gs) (width - 1))) =
      unfold display_width is_continuation in refl in
    ground
      (arith, pad_cell-width (b' ' ∷ truncate_cell (concat gs) (width - 1)) width (omega arith))
