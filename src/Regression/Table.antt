-- ===== src/Regression/Table.antt =====
-- regression/custom/support/helpers.h: the lines of a comparison table, as what the terminal shows and
-- the colour codes in between.
pub mod Widths
pub mod Durations
use thread_pool_pro.Base.{ℕ, List, [], ◌∷◌, ◌++◌, ◌-◌, leb, ltb, codes, if◌then◌else◌}
use thread_pool_pro.Regression.{Str}
use thread_pool_pro.Regression.Version.{to_string}
use thread_pool_pro.Regression.Text.{pad_cell, repeat, name_cell}

pub data Piece : Type 0 where
  colour : Str → Piece
  shown : Str → Piece

-- `H` and `V`, and the corners are the three bytes E2 94 and one more.
abbrev pub box : ℕ → Str
box c = 0xE2 ∷ 0x94 ∷ c ∷ []

abbrev pub horizontal : Str
horizontal = box 0x80

abbrev pub vertical : Str
vertical = box 0x82

-- `RESET`, `BOLD`, `CYAN`, `GRAY`, `BLUE`, `MAGENTA`
abbrev pub reset : Piece
reset = colour (27 ∷ b'[' ∷ b'0' ∷ b'm' ∷ [])

abbrev pub bold : Piece
bold = colour (27 ∷ b'[' ∷ b'1' ∷ b'm' ∷ [])

abbrev pub cyan : Piece
cyan = colour (27 ∷ b'[' ∷ b'9' ∷ b'6' ∷ b'm' ∷ [])

abbrev pub gray : Piece
gray = colour (27 ∷ b'[' ∷ b'3' ∷ b'7' ∷ b'm' ∷ [])

abbrev pub blue : Piece
blue = colour (27 ∷ b'[' ∷ b'9' ∷ b'4' ∷ b'm' ∷ [])

abbrev pub magenta : Piece
magenta = colour (27 ∷ b'[' ∷ b'9' ∷ b'5' ∷ b'm' ∷ [])

-- `GREEN`, `YELLOW`, `WHITE` and `DARK_GRAY`
abbrev pub green : Piece
green = colour (27 ∷ b'[' ∷ b'9' ∷ b'2' ∷ b'm' ∷ [])

abbrev pub yellow : Piece
yellow = colour (27 ∷ b'[' ∷ b'9' ∷ b'3' ∷ b'm' ∷ [])

abbrev pub white : Piece
white = colour (27 ∷ b'[' ∷ b'9' ∷ b'7' ∷ b'm' ∷ [])

abbrev pub dark_gray : Piece
dark_gray = colour (27 ∷ b'[' ∷ b'9' ∷ b'0' ∷ b'm' ∷ [])

-- `TEST_W`, `ITER_W`, `VAL_W` and `DELTA_W`
abbrev pub test_width : ℕ
test_width = 26

abbrev pub iteration_width : ℕ
iteration_width = 11

abbrev pub value_width : ℕ
value_width = 24

abbrev pub delta_width : ℕ
delta_width = 14

abbrev pub columns : List ℕ
columns = test_width ∷ iteration_width ∷ value_width ∷ value_width ∷ delta_width ∷ []

-- The loop of `drawBorder`, after its first round.
unfoldable pub segments : Str → List ℕ → List Piece
segments mid [] = []
segments mid (w ∷ widths) = shown mid ∷ shown (repeat horizontal w) ∷ segments mid widths

-- `drawBorder`
unfoldable pub draw_border : Str → Str → Str → List ℕ → List Piece
draw_border left mid right [] = gray ∷ shown left ∷ shown right ∷ reset ∷ []
draw_border left mid right (w ∷ widths) =
    gray ∷ shown left ∷ shown (repeat horizontal w) ∷ segments mid widths
    ++ shown right ∷ reset ∷ []

-- The vertical line between two cells.
abbrev pub bar_pieces : List Piece
bar_pieces = gray ∷ shown vertical ∷ reset ∷ []

-- A line of cells.
unfoldable pub cells : List (List Piece) → List Piece
cells [] = bar_pieces
cells (cell ∷ rest) = bar_pieces ++ cell ++ cells rest

-- " Iteration" and " Δ"
abbrev pub iteration_title : Str
iteration_title = b' ' ∷ b'I' ∷ b't' ∷ b'e' ∷ b'r' ∷ b'a' ∷ b't' ∷ b'i' ∷ b'o' ∷ b'n' ∷ []

abbrev pub delta_title : Str
delta_title = b' ' ∷ 0xCE ∷ 0x94 ∷ []

-- The titles that `setHeader` prints between its two borders.
unfoldable pub header_line : Str → Str → Str → List Piece
header_line header current baseline = cells (
    (bold ∷ cyan ∷ shown (name_cell header test_width) ∷ reset ∷ [])
    ∷ (bold ∷ cyan ∷ shown (pad_cell iteration_title iteration_width) ∷ reset ∷ [])
    ∷ (bold ∷ blue ∷ shown (pad_cell (b' ' ∷ current) value_width) ∷ reset ∷ [])
    ∷ (bold ∷ magenta ∷ shown (pad_cell (b' ' ∷ baseline) value_width) ∷ reset ∷ [])
    ∷ (bold ∷ cyan ∷ shown (pad_cell delta_title delta_width) ∷ reset ∷ [])
    ∷ [])

-- "█" and "░"
abbrev pub full_block : Str
full_block = 0xE2 ∷ 0x96 ∷ 0x88 ∷ []

abbrev pub light_block : Str
light_block = 0xE2 ∷ 0x96 ∷ 0x91 ∷ []

-- `BAR_W` and `DUR_W`
abbrev pub bar_width : ℕ
bar_width = 10

abbrev pub duration_width : ℕ
duration_width = 10

-- `bar`, from the rounded number of full blocks, which may be too large.
unfoldable pub bar : ℕ → Str
bar filled =
    let filled = if leb filled bar_width then filled else bar_width in
    repeat full_block filled ++ repeat light_block (bar_width - filled)

-- `formatDuration`, for a number of nanoseconds that is not negative, where `magnitude n unit` is
-- `formatMagnitude` of n / unit.
unfoldable pub format_duration : (ℕ → ℕ → Str) → ℕ → Str
format_duration magnitude ns =
    if ltb ns 1000
    then to_string ns ++ codes " ns"
    else (if ltb ns 1000000
        then magnitude ns 1000 ++ codes " us"
        else (if ltb ns 1000000000
            then magnitude ns 1000000 ++ codes " ms"
            else magnitude ns 1000000000 ++ codes " s"))

-- `currentCell` and `baselineCell` of `printComparisonRow`.
unfoldable pub value_cell : Str → ℕ → Str
value_cell duration filled = b' ' ∷ pad_cell duration duration_width ++ b' ' ∷ bar filled

-- The line that `printComparisonRow` prints, from its texts.
unfoldable pub row_line : Str → Str → Str → Str → Piece → Str → List Piece
row_line name iteration current baseline delta_colour delta = cells (
    (shown (name_cell name test_width) ∷ [])
    ∷ (shown (pad_cell (b' ' ∷ iteration) iteration_width) ∷ [])
    ∷ (blue ∷ shown (pad_cell current value_width) ∷ reset ∷ [])
    ∷ (magenta ∷ shown (pad_cell baseline value_width) ∷ reset ∷ [])
    ∷ (delta_colour ∷ shown (pad_cell delta delta_width) ∷ reset ∷ [])
    ∷ [])
