-- ===== src/Regression/Text.antt =====
-- regression/custom/support/helpers.h: cells of a table, measured in columns of a terminal.
pub mod Glyphs
pub mod Cells
use Prim.Native.Nat.{bit_and}
use thread_pool_pro.Base.{
  ℕ, zero, suc, ◌+◌, ◌-◌, ◌%◌, ◌^◌, Bool, true, false, List, [], ◌∷◌, ◌++◌, take, drop,
  if◌then◌else◌, ◌==◌, ltb, leb, length,
}
use thread_pool_pro.Regression.{Str}

-- A byte that continues a code point.
unfoldable pub is_continuation : ℕ → Bool
is_continuation c = bit_and c 0xC0 == 0x80

-- `displayWidth`
unfoldable pub display_width : Str → ℕ
display_width [] = 0
display_width (c ∷ text) =
    if is_continuation c then display_width text else suc (display_width text)

-- Integers: `pos n` is n, and `negsuc n` is - n - 1.
pub data ℤ : Type 0 where
  pos : ℕ → ℤ
  negsuc : ℕ → ℤ

-- `static_cast<int>` of a `std::size_t`.
unfoldable pub as_int : ℕ → ℤ
as_int n = if ltb (n % 2 ^ 32) (2 ^ 31) then pos (n % 2 ^ 32) else negsuc (2 ^ 32 - 1 - n % 2 ^ 32)

-- `repeat`
unfoldable pub repeat : Str → ℕ → Str
repeat token zero = []
repeat token (suc n) = token ++ repeat token n

-- `padCell`, for a width that is not negative.
unfoldable pub pad_cell : Str → ℕ → Str
pad_cell s width = elim (as_int (display_width s)) [
  | pos w ↦ if leb width w then s else s ++ repeat (b' ' ∷ []) (width - w)
  | negsuc w ↦ s ++ repeat (b' ' ∷ []) (width + w + 1)
]

-- "…"
abbrev pub ellipsis : Str
ellipsis = 0xE2 ∷ 0x80 ∷ 0xA6 ∷ []

-- The length of the code point that `c` begins.
unfoldable pub glyph_length : ℕ → ℕ
glyph_length c =
    if bit_and c 0x80 == 0
    then 1
    else (if bit_and c 0xE0 == 0xC0 then 2 else (if bit_and c 0xF0 == 0xE0 then 3 else 4))

-- The loop of `truncateCell`, where `take` and `drop` are `substr`, for as many more columns;
-- `fuel` bounds its rounds.
unfoldable pub truncate_loop : ℕ → Str → ℕ → Str
truncate_loop zero s columns = []
truncate_loop (suc fuel) [] columns = []
truncate_loop (suc fuel) (c ∷ s) zero = []
truncate_loop (suc fuel) (c ∷ s) (suc columns) =
    take (glyph_length c) (c ∷ s) ++ truncate_loop fuel (drop (glyph_length c) (c ∷ s)) columns

abbrev pub fits_int : ℤ → ℕ → Bool
fits_int (pos w) width = leb w width
fits_int (negsuc w) width = true

-- `truncateCell`, for a width that is not negative.
unfoldable pub truncate_cell : Str → ℕ → Str
truncate_cell s zero = []
truncate_cell s (suc width) =
    if fits_int (as_int (display_width s)) (suc width)
    then s
    else (if width == 0 then ellipsis else truncate_loop (length s) s width ++ ellipsis)

-- The cell that holds a name: a space and the name, cut and padded to the width of the column.
unfoldable pub name_cell : Str → ℕ → Str
name_cell s width = pad_cell (b' ' ∷ truncate_cell s (width - 1)) width
