-- ===== src/Regression/Text/Glyphs.antt =====
-- Texts in UTF-8, code point by code point.
use thread_pool_pro.Base.{
  ℕ, zero, suc, ◌+◌, ◌≤◌, ◌≡◌, ◌∙◌, refl, ap, true, false, List, [], ◌∷◌, ◌++◌, arith, length, take,
  drop, take-append, drop-append, length-append,
}
use thread_pool_pro.Regression.{Str}
use thread_pool_pro.Regression.Text.{
  is_continuation, display_width, glyph_length, truncate_loop, ellipsis,
}

abbrev pub AllContinue : Str → Type 0
AllContinue [] = Unit {0}
AllContinue (c ∷ s) = (is_continuation c ≡ true) × AllContinue s

-- One code point: a first byte and as many continuations as it announces.
abbrev pub IsGlyph : Str → Type 0
IsGlyph [] = ⊥
IsGlyph (c ∷ s) = (is_continuation c ≡ false) × AllContinue s × (glyph_length c ≡ suc (length s))

abbrev pub AllGlyphs : List Str → Type 0
AllGlyphs [] = Unit {0}
AllGlyphs (g ∷ gs) = IsGlyph g × AllGlyphs gs

abbrev pub concat : List Str → Str
concat [] = []
concat (g ∷ gs) = g ++ concat gs

pub display_width-append : (s t : Str) → display_width (s ++ t) ≡ display_width s + display_width t
unfolding display_width
display_width-append [] t = omega arith
display_width-append (c ∷ s) t = ground (arith, display_width-append s t)

display_width-continue : (s : Str) → AllContinue s → display_width s ≡ 0
unfolding display_width
display_width-continue [] h = refl
display_width-continue (c ∷ s) (e, h) = ground (arith, e, display_width-continue s h)

display_width-glyph : (g : Str) → IsGlyph g → display_width g ≡ 1
unfolding display_width
display_width-glyph [] h = absurd h
display_width-glyph (c ∷ s) (e, h, n) = ground (arith, e, display_width-continue s h)

-- A text is as wide as it has code points.
pub display_width-concat : (gs : List Str) → AllGlyphs gs → display_width (concat gs) ≡ length gs
unfolding display_width
display_width-concat [] h = refl
display_width-concat (g ∷ gs) (h, k) =
    omega (
      arith,
      display_width-append g (concat gs),
      display_width-glyph g h,
      display_width-concat gs k,
    )

pub length-take_glyphs : (n : ℕ) (gs : List Str) → n ≤ length gs → length (take n gs) ≡ n
length-take_glyphs zero gs h = refl
length-take_glyphs (suc n) [] h = absurd (omega arith)
length-take_glyphs (suc n) (g ∷ gs) h = omega (arith, length-take_glyphs n gs (omega arith))

pub AllGlyphs-take : (n : ℕ) (gs : List Str) → AllGlyphs gs → AllGlyphs (take n gs)
AllGlyphs-take zero gs h = tt
AllGlyphs-take (suc n) [] h = tt
AllGlyphs-take (suc n) (g ∷ gs) (h, k) = (h, AllGlyphs-take n gs k)

pub ellipsis-IsGlyph : IsGlyph ellipsis
unfolding is_continuation glyph_length
ellipsis-IsGlyph = (refl, (refl, (refl, tt)), refl)

-- The loop keeps whole code points.
pub truncate_loop-concat :
    (fuel columns : ℕ) (gs : List Str)
    → AllGlyphs gs
    → length (concat gs) ≤ fuel
    → truncate_loop fuel (concat gs) columns ≡ concat (take columns gs)
unfolding truncate_loop
truncate_loop-concat zero zero [] h b = refl
truncate_loop-concat zero (suc columns) [] h b = refl
truncate_loop-concat (suc fuel) zero [] h b = refl
truncate_loop-concat (suc fuel) (suc columns) [] h b = refl
truncate_loop-concat fuel columns ([] ∷ gs) h b = absurd h.0
truncate_loop-concat zero columns ((c ∷ s) ∷ gs) h b = absurd (omega arith)
truncate_loop-concat (suc fuel) zero ((c ∷ s) ∷ gs) h b = refl
truncate_loop-concat (suc fuel) (suc columns) ((c ∷ s) ∷ gs) ((e, k, n), h) b =
    let first : take (glyph_length c) (c ∷ s ++ concat gs) ≡ c ∷ s =
      ap (λ m. take m (c ∷ s ++ concat gs)) n ∙ take-append (c ∷ s) (concat gs) in
    let rest : drop (glyph_length c) (c ∷ s ++ concat gs) ≡ concat gs =
      ap (λ m. drop m (c ∷ s ++ concat gs)) n ∙ drop-append (c ∷ s) (concat gs) in
    let ih = truncate_loop-concat fuel columns gs h (omega (arith, length-append s (concat gs))) in
    ap (λ r. r ++ truncate_loop fuel (drop (glyph_length c) (c ∷ s ++ concat gs)) columns) first
    ∙ ap (λ r. (c ∷ s) ++ truncate_loop fuel r columns) rest
    ∙ ap (λ r. (c ∷ s) ++ r) ih
