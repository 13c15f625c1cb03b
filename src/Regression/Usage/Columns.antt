-- ===== src/Regression/Usage/Columns.antt =====
-- The descriptions of a usage begin in one column.
use thread_pool_pro.Base.{ℕ, ◌+◌, ◌-◌, ◌≤◌, ◌≡◌, refl, List, [], ◌∷◌, arith, if◌then◌else◌, ltb}
use thread_pool_pro.Regression.Text.{display_width, is_continuation}
use thread_pool_pro.Regression.Text.Cells.{spaces-width}
use thread_pool_pro.Regression.Table.Widths.{visible, visible_piece, visible-append}
use thread_pool_pro.Regression.Usage.{
  Segment, Row, command_width, widest_command, column, command_pieces, lead,
}

-- The colours of a command are colour codes.
abbrev pub AllColours : List Segment → Type 0
AllColours [] = Unit {0}
AllColours (s ∷ rest) = (visible_piece s.colour ≡ 0) × AllColours rest

command_pieces-visible :
    (c : List Segment) → AllColours c → visible (command_pieces c) ≡ command_width c
unfolding command_pieces command_width
command_pieces-visible [] h = refl
command_pieces-visible (s ∷ rest) (e, h) = omega (arith, e, command_pieces-visible rest h)

widest_command-ge : (w : ℕ) (rows : List Row) → w ≤ widest_command w rows
unfolding widest_command
widest_command-ge w [] = omega arith
widest_command-ge w (r ∷ rest) = ground (
  arith,
  widest_command-ge (if ltb w (command_width r.command) then command_width r.command else w) rest,
)

-- Each command is followed by spaces up to the column.
abbrev pub Leads : ℕ → List Row → Type 0
Leads w [] = Unit {0}
Leads w (r ∷ rest) =
    (visible (lead w r.command) ≡ w + 2) × (command_width r.command + 3 ≤ w) × Leads w rest

abbrev pub Coloured : List Row → Type 0
Coloured [] = Unit {0}
Coloured (r ∷ rest) = AllColours r.command × Coloured rest

two-width : display_width (b' ' ∷ b' ' ∷ []) ≡ 2
unfolding display_width is_continuation
two-width = refl

Leads-from :
    (v w : ℕ) (rows : List Row) → Coloured rows → widest_command v rows + 3 ≤ w → Leads w rows
unfolding widest_command lead
Leads-from v w [] c h = tt
Leads-from v w (r ∷ rest) (c, cs) h =
    let most = if ltb v (command_width r.command) then command_width r.command else v in
    let fits : command_width r.command + 3 ≤ w = ground (arith, h, widest_command-ge most rest) in
    (
      omega (
        arith,
        visible-append (command_pieces r.command) (_ ∷ []),
        command_pieces-visible r.command c,
        spaces-width (w - command_width r.command),
        two-width,
        fits,
      ),
      fits,
      Leads-from most w rest cs h,
    )

-- In a usage with coloured commands, all descriptions begin in the same column, three columns behind
-- the widest command at least.
pub usage-aligned : (rows : List Row) → Coloured rows → Leads (column rows) rows
unfolding column
usage-aligned rows c = Leads-from 0 (column rows) rows c (omega arith)
