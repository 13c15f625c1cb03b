-- ===== src/Regression/Comparison.antt =====
-- A comparison of two snapshots: how `setHeader` and `printComparisonRow` show a line, and what `main`
-- prints and writes once it knows the two files. `load` is `loadResults`.
pub mod Agreement
pub mod Rows
pub mod Widths
pub mod Ids
use thread_pool_pro.Base.{
  ℕ, Bool, true, false, not, ◌&&◌, Option, none, some, List, [], ◌∷◌, ◌++◌, if◌then◌else◌, codes,
}
use thread_pool_pro.Regression.{Str}
use thread_pool_pro.Regression.Table.{
  Piece, colour, shown, box, bold, gray, green, columns, draw_border, header_line, row_line,
  value_cell, format_duration, delta_title,
}
use thread_pool_pro.Regression.Methods.{
  BenchmarkResult, unique_operations, group_methods_by_letter, looks_like_method_id, Filtered, both,
  baseline_missing, current_missing, apply_method_filter, Resolved, method, out_of_range,
  unknown_id, too_large, resolve_method_id,
}
use thread_pool_pro.Regression.Report.{
  Line, empty_line, header, separator, row, closing, is_blank, print_regression,
}
use thread_pool_pro.Regression.Summary.{
  Doubles, RegressionRow, changes, results_from, print_summary,
}
use thread_pool_pro.Regression.Export.{export_json, export_markdown}
use thread_pool_pro.Regression.Cli.{label_for}

-- What a row uses of `double` besides.
pub record Look (D : Type 0) : Type 0 where
  pub rounded : D → ℕ  -- `std::llround`, of a value that is not negative
  pub magnitude : ℕ → ℕ → Str  -- `formatMagnitude` of a number of nanoseconds in a unit
  pub greater : D → D → D  -- `std::max`
  pub blocks : D → D → ℕ  -- `std::lround(ns / maxNs * BAR_W)`, and 0 where `maxNs` is not positive
  pub is_significant : D → Bool  -- `std::fabs(pct) >= SIGNIFICANT_THRESHOLD`
  pub change_text : D → Str  -- with its sign and one decimal
  pub fixed : D → Str  -- with two decimals

-- `RED`
abbrev pub red : Piece
red = colour (27 ∷ b'[' ∷ b'9' ∷ b'1' ∷ b'm' ∷ [])

-- The bytes that a piece is.
abbrev pub bytes : Piece → Str
bytes (colour code) = code
bytes (shown s) = s

-- "— ", "▲ " and "▼ "
abbrev pub dash : Str
dash = 0xE2 ∷ 0x80 ∷ 0x94 ∷ b' ' ∷ []

abbrev pub up : Str
up = 0xE2 ∷ 0x96 ∷ 0xB2 ∷ b' ' ∷ []

abbrev pub down : Str
down = 0xE2 ∷ 0x96 ∷ 0xBC ∷ b' ' ∷ []

abbrev pub top_line : List Piece
top_line = draw_border (box 0x8C) (box 0xAC) (box 0x90) columns

abbrev pub middle_line : List Piece
middle_line = draw_border (box 0x9C) (box 0xBC) (box 0xA4) columns

abbrev pub bottom_line : List Piece
bottom_line = draw_border (box 0x94) (box 0xB4) (box 0x98) columns

module _ {D : Type 0} (d : Doubles D) (look : Look D) where
  abbrev pub tint : D → Piece
  tint pct = if d.is_noise pct then gray else (if d.is_positive pct then green else red)

  -- `boldDeltaColor`
  unfoldable pub delta_colour : D → Piece
  delta_colour pct =
      colour (if look.is_significant pct then bytes bold ++ bytes (tint pct) else bytes (tint pct))

  unfoldable pub arrow : D → Str
  arrow pct = if d.is_noise pct then dash else (if d.is_positive pct then up else down)

  abbrev pub delta_text : D → Str
  delta_text pct = look.change_text pct ++ codes "%"

  abbrev pub delta_cell : D → Str
  delta_cell pct = b' ' ∷ arrow pct ++ delta_text pct

  abbrev pub duration : D → Str
  duration ns = format_duration look.magnitude (look.rounded ns)

  -- The line of `printComparisonRow`, from the name, the tier, the baseline and the current value.
  unfoldable pub comparison_row : Str → Str → D → D → List Piece
  comparison_row name tier b c =
      let most = look.greater b c in
      row_line name tier (value_cell (duration c) (look.blocks c most))
        (value_cell (duration b) (look.blocks b most)) (delta_colour (d.change b c))
        (delta_cell (d.change b c))

  -- What the terminal shows for a line of `printRegression`, with the labels of the two sides.
  unfoldable pub shown_line : Str → Str → Line D → List (List Piece)
  shown_line current baseline empty_line = [] ∷ []
  shown_line current baseline (header s) =
      top_line ∷ header_line s current baseline ∷ middle_line ∷ []
  shown_line current baseline separator = middle_line ∷ []
  shown_line current baseline (row suite name iter tier b c) = comparison_row name tier b c ∷ []
  shown_line current baseline closing = bottom_line ∷ []

  unfoldable pub shown_lines : Str → Str → List (Line D) → List (List Piece)
  shown_lines current baseline [] = []
  shown_lines current baseline (l ∷ ls) =
      shown_line current baseline l ++ shown_lines current baseline ls

  -- What a line appends to `markdown_buffer()`.
  unfoldable pub markdown_line : Str → Str → Line D → Str
  markdown_line current baseline (header s) =
      codes "\n## "
      ++ s
      ++ codes "\n\n"
      ++ codes "| Test | Iteration | "
      ++ current
      ++ codes " | "
      ++ baseline
      ++ codes " |"
      ++ delta_title
      ++ codes " |\n"
      ++ codes "|---|---|---|---|---|\n"
  markdown_line current baseline (row suite name iter tier b c) =
      codes "| "
      ++ name
      ++ codes " | "
      ++ tier
      ++ codes " | "
      ++ duration c
      ++ codes " | "
      ++ duration b
      ++ codes " | "
      ++ delta_text (d.change b c)
      ++ codes " |\n"
  markdown_line current baseline l = []

  unfoldable pub transcript : Str → Str → List (Line D) → Str
  transcript current baseline [] = []
  transcript current baseline (l ∷ ls) =
      markdown_line current baseline l ++ transcript current baseline ls

-- How a comparison ends: with what it prints and the two files that it writes, where they can be opened;
-- or with an exception, before anything is printed.
pub data Ended : Type 0 where
  finished : List (List Piece) → Option Str → Option Str → Ended
  not_loaded : Str → Ended  -- the file
  no_such_id : Resolved → Ended
  no_such_method : Str → Ended  -- the label of the side that lacks it

-- The files that `main` writes.
abbrev pub json_file : Str
json_file = codes "regression/results/regression_results.json"

abbrev pub markdown_file : Str
markdown_file = codes "regression/results/regression_results.md"

module _ {D : Type 0} (d : Doubles D) (look : Look D)
    (load : Str → Option (List (BenchmarkResult D))) (can_open : Str → Bool) (custom : Str) where
  -- The end of `main`, for the two labels, the baseline and the current results.
  unfoldable pub report : Str → Str → List (BenchmarkResult D) → List (BenchmarkResult D) → Ended
  report current_side baseline_side baseline current =
      let ls = print_regression d.zero_double current baseline in
      let rows = results_from d [] current baseline in
      let (summary, text) = print_summary d current_side baseline_side (changes rows) in
      finished (shown_lines d look current_side baseline_side ls ++ summary)
        (export_json look.fixed (can_open json_file) rows)
        (export_markdown (can_open markdown_file) custom
          (transcript d look current_side baseline_side ls ++ text))

  -- The part of `main` that applies the filter, to loaded results.
  abbrev pub filtered : Str → Str → Filtered D → Ended
  filtered current_side baseline_side (both baseline current) =
      report current_side baseline_side baseline current
  filtered current_side baseline_side baseline_missing = no_such_method baseline_side
  filtered current_side baseline_side current_missing = no_such_method current_side

  -- From the loading on, for the method that the filter names.
  unfoldable pub compare_method : Str → Str → Str → Ended
  compare_method current_file baseline_file name = elim (load baseline_file) [
    | none ↦ not_loaded baseline_file
    | some baseline ↦ elim (load current_file) [
      | none ↦ not_loaded current_file
      | some current ↦
          if is_blank name
          then report (label_for current_file) (label_for baseline_file) baseline current
          else filtered (label_for current_file) (label_for baseline_file)
              (apply_method_filter baseline current name)
    ]
  ]

  -- After `resolveMethodId`.
  abbrev pub resolved : Str → Str → Resolved → Ended
  resolved current_file baseline_file (method name) = compare_method current_file baseline_file name
  resolved current_file baseline_file r = no_such_id r

  -- `resolveMethodId` on a file that cannot be loaded: the number is read first.
  abbrev pub unresolved : Str → Resolved → Ended
  unresolved file too_large = no_such_id too_large
  unresolved file r = not_loaded file

  -- What `main` does for a comparison, where `sort` is `std::sort` of the names.
  unfoldable pub compare : (List Str → List Str) → Str → Str → Str → Ended
  compare sort current_file baseline_file filter =
      if not (is_blank filter) && looks_like_method_id filter
      then elim (load baseline_file) [
        | none ↦ unresolved baseline_file (resolve_method_id [] filter)
        | some results ↦
            resolved current_file baseline_file
              (resolve_method_id (group_methods_by_letter sort (unique_operations results)) filter)
      ]
      else compare_method current_file baseline_file filter
