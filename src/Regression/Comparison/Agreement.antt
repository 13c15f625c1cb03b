-- ===== src/Regression/Comparison/Agreement.antt =====
-- What is printed for a comparison and what is exported are about the same rows.
use thread_pool_pro.Base.{◌≡◌, ◌∙◌, refl, ap, sym, List, [], ◌∷◌, map}
use thread_pool_pro.Regression.Methods.{BenchmarkResult}
use thread_pool_pro.Regression.Report.{Line, row, convert_iter, row_of, print_regression}
use thread_pool_pro.Regression.Report.Nesting.{rows_of, print_regression-rows}
use thread_pool_pro.Regression.Summary.{Doubles, RegressionRow, result_of, results_from}
use thread_pool_pro.Regression.Summary.Totals.{results_from_lem}

module _ {D : Type 0} (d : Doubles D) where
  -- The line that shows an exported row.
  abbrev pub line_of : RegressionRow D → Line D
  line_of r =
      row r.suite r.operation r.iteration (convert_iter r.iteration) r.baseline_ns r.current_ns

  lines-results :
      (current baseline : List (BenchmarkResult D))
      → map (row_of d.zero_double current) baseline
        ≡ map line_of (map (result_of d current) baseline)
  unfolding row_of result_of
  lines-results current [] = refl
  lines-results current (r ∷ rest) =
      ap (λ ls. row_of d.zero_double current r ∷ ls) (lines-results current rest)

  -- The tables that are printed show the rows that are exported, all of them and in their order, with
  -- the same two values.
  pub print_regression-results_from :
      (current baseline : List (BenchmarkResult D))
      → rows_of d.zero_double current (print_regression d.zero_double current baseline)
        ≡ map line_of (results_from d [] current baseline)
  print_regression-results_from current baseline =
      print_regression-rows d.zero_double current baseline
      ∙ lines-results current baseline
      ∙ sym (ap (map line_of) (results_from_lem d [] current baseline))
