-- ===== src/Regression/Listing/Boxes.antt =====
-- The boxes and the columns of the listings.
use thread_pool_pro.Base.{
  true, ℕ, zero, suc, ◌+◌, ◌-◌, ◌≤◌, ◌<◌, ◌≡◌, refl, ap, [], ◌∷◌, ◌++◌, arith, length,
  length-append, larger, codes,
}
use thread_pool_pro.Regression.{Str}
use thread_pool_pro.Regression.Text.{display_width, is_continuation, repeat}
use thread_pool_pro.Regression.Text.Glyphs.{display_width-append}
use thread_pool_pro.Regression.Text.Cells.{spaces-width}
use thread_pool_pro.Regression.Table.{box, horizontal}
use thread_pool_pro.Regression.Table.Widths.{
  visible, AllWide, repeat-width, horizontal-width, corner-width,
}
use thread_pool_pro.Regression.Version.{to_string}
use thread_pool_pro.Regression.Version.Lengths.{to_string_mono}
use thread_pool_pro.Regression.Methods.{Group, method_id}
use thread_pool_pro.Regression.Listing.{
  padded, frame_line, frame_top, frame_bottom, left_side, right_side, version_text, count_box,
}
use thread_pool_pro.Regression.Listing.Methods.{box_row, header_width, header_box, id_width}

frame_line-wide :
    (c d w : ℕ)
    → is_continuation c ≡ true
    → is_continuation d ≡ true
    → visible (frame_line (box c) (box d) w) ≡ w + 4
unfolding frame_line
frame_line-wide c d w e f =
    omega
      (arith, corner-width c e, corner-width d f, repeat-width horizontal (w + 2) horizontal-width)

frame_top-wide : (w : ℕ) → visible (frame_top w) ≡ w + 4
frame_top-wide w =
    frame_line-wide 0x8C 0x90 w (unfold is_continuation in refl) (unfold is_continuation in refl)

frame_bottom-wide : (w : ℕ) → visible (frame_bottom w) ≡ w + 4
frame_bottom-wide w =
    frame_line-wide 0x94 0x98 w (unfold is_continuation in refl) (unfold is_continuation in refl)

left-width : display_width left_side ≡ 2
unfolding display_width is_continuation
left-width = refl

right-width : display_width right_side ≡ 2
unfolding display_width is_continuation
right-width = refl

box_row-wide :
    (w : ℕ) (label value : Str)
    → display_width (padded 13 label ++ value) ≤ w
    → visible (box_row w label value) ≡ w + 4
unfolding box_row
box_row-wide w label value h = omega (
  arith,
  left-width,
  right-width,
  display_width-append (padded 13 label) value,
  spaces-width (w - display_width (padded 13 label ++ value)),
)

-- The box of a version and the box of the count have lines of one width, whatever the version is
-- called and however many methods there are.
pub boxes-aligned :
    (name : Str) (methods n : ℕ)
    → AllWide (header_width name methods + 4) (header_box name methods)
      × AllWide (display_width (version_text ++ to_string n) + 4) (count_box n)
unfolding header_box count_box
boxes-aligned name methods n =
    let v = display_width (padded 13 (codes "Version") ++ name) in
    let m = display_width (padded 13 (codes "Methods") ++ to_string methods) in
    let most : (v ≤ larger v m) × (m ≤ larger v m) = ground arith in
    let width = display_width (version_text ++ to_string n) in
    (
      (
        frame_top-wide (larger v m),
        (
          box_row-wide (larger v m) (codes "Version") name most.0,
          (
            box_row-wide (larger v m) (codes "Methods") (to_string methods) most.1,
            (frame_bottom-wide (larger v m), tt),
          ),
        ),
      ),
      (
        frame_top-wide width,
        (
          omega (arith, left-width, right-width, display_width-append version_text (to_string n)),
          (frame_bottom-wide width, tt),
        ),
      ),
    )

length-spaces : (n : ℕ) → length (repeat (b' ' ∷ []) n) ≡ n
unfolding repeat
length-spaces zero = refl
length-spaces (suc n) = ap suc (length-spaces n)

-- All ids of a group are printed with the same width, that of the last of them.
pub ids-aligned :
    (g : Group) (j : ℕ)
    → j < length g.members
    → length (padded (id_width g) (method_id g.letter j)) ≡ id_width g
unfolding method_id
ids-aligned g j h = omega (
  arith,
  to_string_mono (j + 1) (length g.members) (omega arith),
  length-append (method_id g.letter j)
      (repeat (b' ' ∷ []) (id_width g - length (method_id g.letter j))),
  length-spaces (id_width g - length (method_id g.letter j)),
)
