-- ===== src/Regression/Usage.antt =====
-- `printUsage` in regression/custom/regression_main.cpp: a table of commands, and notes under it.
pub mod Columns
use thread_pool_pro.Base.{ℕ, ◌+◌, ◌-◌, List, [], ◌∷◌, ◌++◌, map, if◌then◌else◌, ltb, codes}
use thread_pool_pro.Regression.{Str}
use thread_pool_pro.Regression.Text.{display_width, repeat}
use thread_pool_pro.Regression.Table.{Piece, shown, reset, bold, cyan, gray, yellow, dark_gray}

-- `Segment` and `Row`
pub record Segment : Type 0 where
  pub colour : Piece
  pub text : Str

pub record Row : Type 0 where
  pub command : List Segment
  pub description : Str

abbrev pub segment : Piece → Str → Segment
segment c t = record { colour = c; text = t }

abbrev pub row : List Segment → Str → Row
row c d = record { command = c; description = d }

-- The columns of a command.
unfoldable pub command_width : List Segment → ℕ
command_width [] = 0
command_width (s ∷ rest) = display_width s.text + command_width rest

-- The loop that finds the widest command.
unfoldable pub widest_command : ℕ → List Row → ℕ
widest_command w [] = w
widest_command w (r ∷ rest) =
    widest_command (if ltb w (command_width r.command) then command_width r.command else w) rest

-- `colWidth`
unfoldable pub column : List Row → ℕ
column rows = widest_command 0 rows + 3

unfoldable pub command_pieces : List Segment → List Piece
command_pieces [] = []
command_pieces (s ∷ rest) = s.colour ∷ shown s.text ∷ reset ∷ command_pieces rest

-- What stands before a description.
unfoldable pub lead : ℕ → List Segment → List Piece
lead width command =
    shown (b' ' ∷ b' ' ∷ []) ∷ command_pieces command
    ++ shown (repeat (b' ' ∷ []) (width - command_width command)) ∷ []

-- A row, where `tint` is the colour of descriptions.
unfoldable pub usage_line : Piece → ℕ → Row → List Piece
usage_line tint width r = lead width r.command ++ tint ∷ shown r.description ∷ reset ∷ []

unfoldable pub usage_table : Piece → List Row → List (List Piece)
usage_table tint rows = map (usage_line tint (column rows)) rows

-- The rows of the table.
abbrev pub regression : Segment
regression = segment cyan (codes "regression")

unfoldable pub usage_rows : List Row
usage_rows =
    row (regression ∷ []) (codes "compare newest baseline vs current run")
    ∷ row (regression ∷ segment yellow (codes " list") ∷ []) (codes "list all baselines")
    ∷ row
        (regression ∷ segment yellow (codes " methods") ∷ segment gray (codes " [<baseline>]") ∷ [])
        (codes "list methods (all, or one baseline)")
    ∷ row
        (regression ∷ segment gray (codes " <baseline>") ∷ segment gray (codes " [<method>]") ∷ [])
        (codes "vs one baseline")
    ∷ row (regression ∷ segment gray (codes " <method>") ∷ []) (codes "vs current run, one method")
    ∷ row (regression ∷ segment gray (codes " <baseline> <baseline>") ∷ [])
        (codes "baseline vs baseline")
    ∷ row (regression ∷ segment gray (codes " <baseline> <baseline> <method>") ∷ [])
        (codes "baseline vs baseline, one method")
    ∷ row (regression ∷ segment yellow (codes " -h | --help | help") ∷ []) (codes "this summary")
    ∷ []

-- The lines under the table.
unfoldable pub notes : List (List Piece)
notes =
    []
    ∷ (gray
        ∷ shown (codes "<baseline>")
        ∷ dark_gray
        ∷ shown (codes " = version tag, e.g. v1.2.0    ")
        ∷ gray
        ∷ shown (codes "<method>")
        ∷ dark_gray
        ∷ shown (codes " = benchmark name, e.g. push_back")
        ∷ reset
        ∷ [])
    ∷ []
    ∷ (dark_gray
        ∷ shown
            (codes "quoting: a <method> with spaces/commas doesn't need quotes -- every word after")
        ∷ [])
    ∷ (shown (codes "the tag(s) joins back into the name") ∷ [])
    ∷ []
    ∷ (shown (codes "shortcuts: <method> can be a [LetterN] id from ")
        ∷ reset
        ∷ yellow
        ∷ shown (codes "methods")
        ∷ reset
        ∷ dark_gray
        ∷ shown (codes " (e.g. \"u1\")")
        ∷ reset
        ∷ [])
    ∷ []

-- `printUsage`
unfoldable pub print_usage : List (List Piece)
print_usage =
    (bold ∷ shown (codes "Usage:") ∷ reset ∷ []) ∷ usage_table dark_gray usage_rows ++ notes
