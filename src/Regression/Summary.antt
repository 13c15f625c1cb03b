-- ===== src/Regression/Summary.antt =====
-- `regression_results`, and `printSummary` in regression/custom/support/framework.h, with the texts of
-- its report. The arithmetic on `double` is a parameter.
pub mod Totals
pub mod Columns
use thread_pool_pro.Base.{
  ℕ, suc, ◌+◌, Bool, true, false, List, [], ◌∷◌, ◌++◌, map, if◌then◌else◌, ◌==◌, codes,
}
use thread_pool_pro.Regression.{Str}
use thread_pool_pro.Regression.Text.{pad_cell}
use thread_pool_pro.Regression.Table.{
  Piece, shown, box, reset, bold, cyan, gray, blue, magenta, bar_pieces, cells, draw_border, bar,
}
use thread_pool_pro.Regression.Version.{to_string}
use thread_pool_pro.Regression.Methods.{BenchmarkResult, get_cns}

-- `RegressionRow`
pub record RegressionRow (D : Type 0) : Type 0 where
  pub suite : Str
  pub operation : Str
  pub iteration : ℕ
  pub baseline_ns : D
  pub current_ns : D
  pub pct_change : D

-- What is used of `double`: the number 0.0, the change in per cent, and its two tests; and the number
-- of columns that a bar fills for a share, with the texts of the shares.
pub record Doubles (D : Type 0) : Type 0 where
  pub zero_double : D
  pub change : D → D → D  -- `pct`, from the baseline and the current value
  pub is_noise : D → Bool  -- `std::fabs(pct) < NOISE_THRESHOLD`
  pub is_positive : D → Bool  -- `pct > 0.0`
  pub filled : ℕ → ℕ → ℕ  -- of a count among all
  pub share_text : ℕ → ℕ → Str  -- with one decimal
  pub share_int : ℕ → ℕ → ℕ  -- cut to an `int`

module _ {D : Type 0} (d : Doubles D) where
  -- What `printComparisonRow` appends for an entry of the baseline.
  unfoldable pub result_of : List (BenchmarkResult D) → BenchmarkResult D → RegressionRow D
  result_of current r =
      let now = get_cns d.zero_double current r.operation r.iterations in
      record {
        suite = r.suite;
        operation = r.operation;
        iteration = r.iterations;
        baseline_ns = r.ns_per_op;
        current_ns = now;
        pct_change = d.change r.ns_per_op now;
      }

  -- `regression_results()` after `printRegression`, which appends to `seen`.
  unfoldable pub results_from :
      List (RegressionRow D)
      → List (BenchmarkResult D)
      → List (BenchmarkResult D)
      → List (RegressionRow D)
  results_from seen current [] = seen
  results_from seen current (r ∷ rest) =
      results_from (seen ++ result_of current r ∷ []) current rest

-- `faster`, `slower` and `tied`
pub record Tally : Type 0 where
  pub faster : ℕ
  pub slower : ℕ
  pub tied : ℕ

abbrev pub changes : {D : Type 0} → List (RegressionRow D) → List D
changes rows = map (λ r. r.pct_change) rows

abbrev pub no_rows : Tally
no_rows = record { faster = 0; slower = 0; tied = 0 }

module _ {D : Type 0} (d : Doubles D) where
  -- A round of the loop that counts, for the `pct_change` of a row.
  unfoldable pub tally_row : Tally → D → Tally
  tally_row t pct =
      if d.is_noise pct
      then record t { tied = suc t.tied }
      else (if d.is_positive pct
          then record t { faster = suc t.faster }
          else record t { slower = suc t.slower })

  unfoldable pub tally_from : Tally → List D → Tally
  tally_from t [] = t
  tally_from t (pct ∷ rest) = tally_from (tally_row t pct) rest

abbrev pub total : Tally → ℕ
total t = t.faster + t.slower + t.tied

-- `labelW` and `valueW`
abbrev pub label_width : ℕ
label_width = 20

abbrev pub value_width : ℕ
value_width = 26

abbrev pub widths : List ℕ
widths = label_width ∷ value_width ∷ []

module _ {D : Type 0} (d : Doubles D) where
  abbrev pub count_text : ℕ → ℕ → Str
  count_text count all = to_string count ++ codes " (" ++ d.share_text count all ++ codes "%)"

  abbrev pub count_cell : ℕ → ℕ → Str
  count_cell count all =
      b' ' ∷ pad_cell (count_text count all) 12 ++ b' ' ∷ bar (d.filled count all)

  -- The line of a result.
  unfoldable pub result_line : Piece → Str → ℕ → ℕ → List Piece
  result_line tint label count all = cells (
      (tint ∷ shown (pad_cell (b' ' ∷ label) label_width) ∷ reset ∷ [])
      ∷ (tint ∷ shown (pad_cell (count_cell count all) value_width) ∷ reset ∷ [])
      ∷ [])

  unfoldable pub summary_title : ℕ → List Piece
  summary_title all = cells (
      (bold ∷ cyan ∷ shown (pad_cell (codes " Summary") label_width) ∷ reset ∷ [])
      ∷ (shown (pad_cell (b' ' ∷ to_string all ++ codes " comparisons") value_width) ∷ [])
      ∷ [])

  -- The lines of the box, with the labels of the two sides.
  unfoldable pub summary_lines : Str → Str → Tally → List (List Piece)
  summary_lines current baseline t =
      draw_border (box 0x8C) (box 0xAC) (box 0x90) widths
      ∷ summary_title (total t)
      ∷ draw_border (box 0x9C) (box 0xBC) (box 0xA4) widths
      ∷ result_line blue (current ++ codes " faster") t.faster (total t)
      ∷ result_line magenta (baseline ++ codes " faster") t.slower (total t)
      ∷ result_line gray (codes "Tie") t.tied (total t)
      ∷ draw_border (box 0x94) (box 0xB4) (box 0x98) widths
      ∷ []

  -- What the box appends to `markdown_buffer()`.
  unfoldable pub markdown_row : Str → ℕ → ℕ → Str
  markdown_row label count all =
      codes "| "
      ++ label
      ++ codes " | "
      ++ to_string count
      ++ codes " ("
      ++ to_string (d.share_int count all)
      ++ codes "%) |\n"

  unfoldable pub markdown_summary : Str → Str → Tally → Str
  markdown_summary current baseline t =
      codes "\n## Summary\n\n| Result | Count |\n|---|---|\n"
      ++ markdown_row (current ++ codes " faster") t.faster (total t)
      ++ markdown_row (baseline ++ codes " faster") t.slower (total t)
      ++ markdown_row (codes "Tie") t.tied (total t)

  -- `printSummary`, from the `pct_change` of all rows: what it prints and what it appends to the report;
  -- nothing without rows.
  unfoldable pub print_summary : Str → Str → List D → List (List Piece) × Str
  print_summary current baseline pcts =
      let t = tally_from d no_rows pcts in
      if total t == 0
      then ([], [])
      else ([] ∷ summary_lines current baseline t ++ [] ∷ [], markdown_summary current baseline t)
