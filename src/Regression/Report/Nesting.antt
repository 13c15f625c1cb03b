-- ===== src/Regression/Report/Nesting.antt =====
-- Each row stands in the table of its suite.
use thread_pool_pro.Base.{
  ◌≡◌, refl, inl, inr, Bool, true, false, ◌&&◌, List, [], ◌∷◌, arith, Bool-cases, map,
}
use thread_pool_pro.Regression.{Str}
use thread_pool_pro.Regression.Methods.{str_eq, BenchmarkResult}
use thread_pool_pro.Regression.Methods.Entries.{str_eq_refl, str_eq_sym}
use thread_pool_pro.Regression.Report.{
  Line, empty_line, header, separator, row, closing, separate, no_suite, close_table, row_of,
  print_rows, print_regression,
}

-- Between two tables, or in the one of a suite, before or after its first row.
pub data Place : Type 0 where
  outside : Place
  begun : Str → Place
  filled : Str → Place

-- Whether lines make up tables from here on: a table is a header, then rows of its suite with
-- separators between them, then the closing border.
pub tables : {D : Type 0} → Place → List (Line D) → Bool
tables outside [] = true
tables outside (empty_line ∷ ls) = tables outside ls
tables outside (header s ∷ ls) = tables (begun s) ls
tables outside (l ∷ ls) = false
tables (begun s) (row suite op iter tier b c ∷ ls) = str_eq s suite && tables (filled s) ls
tables (begun s) ls = false
tables (filled s) (row suite op iter tier b c ∷ ls) = str_eq s suite && tables (filled s) ls
tables (filled s) (separator ∷ row suite op iter tier b c ∷ ls) =
    str_eq s suite && tables (filled s) ls
tables (filled s) (closing ∷ ls) = tables outside ls
tables (filled s) ls = false

module _ {D : Type 0} (zero_double : D) (current : List (BenchmarkResult D)) where
  -- No suite has the name that stands for none.
  abbrev pub Suited : List (BenchmarkResult D) → Type 0
  Suited [] = Unit {0}
  Suited (r ∷ rest) = (str_eq r.suite no_suite ≡ false) × Suited rest

  filled-tables :
      (suite last : Str) (rs : List (BenchmarkResult D))
      → str_eq suite no_suite ≡ false
      → Suited rs
      → tables (filled suite) (print_rows zero_double current suite last rs) ≡ true
  unfolding tables print_rows close_table separate row_of
  filled-tables suite last [] h s = ground (arith, h)
  filled-tables suite last (r ∷ rest) h (k, s) = elim (Bool-cases (str_eq suite r.suite)) [
    | inl e ↦ let ih = filled-tables suite r.operation rest h s in ground (arith, e, ih)
    | inr e ↦
        let ih = filled-tables r.suite r.operation rest k s in
        ground (arith, e, h, ih, str_eq_refl r.suite)
  ]

  -- When no entry has the suite " ": `printRegression` prints tables, in which each row stands under
  -- the header of its suite, a separator only between two rows, and every table is closed.
  pub print_regression-tables :
      (rs : List (BenchmarkResult D))
      → Suited rs
      → tables outside (print_regression zero_double current rs) ≡ true
  unfolding print_regression print_rows tables close_table separate row_of
  print_regression-tables [] s = refl
  print_regression-tables (r ∷ rest) (k, s) =
      let ih = filled-tables r.suite r.operation rest k s in
      ground (arith, str_eq_sym no_suite r.suite, k, ih, str_eq_refl r.suite)

  -- The rows among the lines.
  abbrev pub rows_of : List (Line D) → List (Line D)
  rows_of [] = []
  rows_of (row suite op iter tier b c ∷ ls) = row suite op iter tier b c ∷ rows_of ls
  rows_of (l ∷ ls) = rows_of ls

  print_rows-rows :
      (suite last : Str) (rs : List (BenchmarkResult D))
      → rows_of (print_rows zero_double current suite last rs) ≡ map (row_of zero_double current) rs
  unfolding print_rows close_table separate row_of
  print_rows-rows suite last [] = elim (Bool-cases (str_eq suite no_suite)) [
    | inl e ↦ ground (arith, e)
    | inr e ↦ ground (arith, e)
  ]
  print_rows-rows suite last (r ∷ rest) =
      ground
        (arith, print_rows-rows suite r.operation rest, print_rows-rows r.suite r.operation rest)

  -- `printRegression` prints one row for each entry of the baseline, in order, with the current value
  -- that `getCns` finds.
  pub print_regression-rows :
      (rs : List (BenchmarkResult D))
      → rows_of (print_regression zero_double current rs) ≡ map (row_of zero_double current) rs
  unfolding print_regression
  print_regression-rows rs = print_rows-rows no_suite [] rs
