-- ===== src/Google/Report/Nesting.antt =====
-- Each row stands in the table of its group.
use thread_pool_pro.Base.{
  ◌≡◌, ◌∙◌, refl, ap, inl, inr, Bool, true, false, ◌&&◌, List, [], ◌∷◌, arith, Bool-cases, map,
}
use thread_pool_pro.Regression.{Str}
use thread_pool_pro.Regression.Methods.{str_eq}
use thread_pool_pro.Regression.Methods.Entries.{str_eq_refl, str_eq_sym, str_eq_sound}
use thread_pool_pro.Regression.Report.{no_suite}
use thread_pool_pro.Google.{Benchmark, base_name}
use thread_pool_pro.Google.Report.{
  Line, empty_line, header, row, closing, close_table, row_of, print_rows, print_regression,
}

-- Between two tables, or in the one of a group, before or after its first row.
pub data Place : Type 0 where
  outside : Place
  begun : Str → Place
  filled : Str → Place

-- Whether lines make up tables from here on: a table is a header, then rows of benchmarks of its group,
-- then the closing border.
pub tables : {D : Type 0} → Place → List (Line D) → Bool
tables outside [] = true
tables outside (empty_line ∷ ls) = tables outside ls
tables outside (header g ∷ ls) = tables (begun g) ls
tables outside (l ∷ ls) = false
tables (begun g) (row name b c ∷ ls) = str_eq g (base_name name) && tables (filled g) ls
tables (begun g) ls = false
tables (filled g) (row name b c ∷ ls) = str_eq g (base_name name) && tables (filled g) ls
tables (filled g) (closing ∷ ls) = tables outside ls
tables (filled g) ls = false

module _ {D : Type 0} (zero_double : D) (current : List (Benchmark D)) where
  -- No benchmark has the group that stands for none.
  abbrev pub Named : List (Benchmark D) → Type 0
  Named [] = Unit {0}
  Named (r ∷ rest) = (str_eq (base_name r.name) no_suite ≡ false) × Named rest

  filled-tables :
      (group : Str) (rs : List (Benchmark D))
      → str_eq group no_suite ≡ false
      → Named rs
      → tables (filled group) (print_rows zero_double current group rs) ≡ true
  unfolding tables print_rows close_table row_of
  filled-tables group [] h s = ground (arith, h)
  filled-tables group (r ∷ rest) h (k, s) =
      let ih = filled-tables (base_name r.name) rest k s in
      elim (Bool-cases (str_eq group (base_name r.name))) [
        | inl e ↦
            let same = str_eq_sound group (base_name r.name) e in
            let here : tables (filled group)
                  (print_rows zero_double current (base_name r.name) rest)
                ≡ true =
              ap (λ g. tables (filled g) (print_rows zero_double current (base_name r.name) rest))
                same
              ∙ ih in
            ground (arith, e, here)
        | inr e ↦ ground (arith, e, h, ih, str_eq_refl (base_name r.name))
      ]

  -- When no group is called " ": `printRegression` prints tables, in which each row stands under the
  -- header of its group, and every table is closed.
  pub print_regression-grouped :
      (rs : List (Benchmark D))
      → Named rs
      → tables outside (print_regression zero_double current rs) ≡ true
  unfolding print_regression print_rows tables close_table row_of
  print_regression-grouped [] s = refl
  print_regression-grouped (r ∷ rest) (k, s) =
      let ih = filled-tables (base_name r.name) rest k s in
      ground (arith, str_eq_sym no_suite (base_name r.name), k, ih, str_eq_refl (base_name r.name))

  -- The rows among the lines.
  abbrev pub rows_of : List (Line D) → List (Line D)
  rows_of [] = []
  rows_of (row name b c ∷ ls) = row name b c ∷ rows_of ls
  rows_of (l ∷ ls) = rows_of ls

  print_rows-rows :
      (group : Str) (rs : List (Benchmark D))
      → rows_of (print_rows zero_double current group rs) ≡ map (row_of zero_double current) rs
  unfolding print_rows close_table row_of
  print_rows-rows group [] = elim (Bool-cases (str_eq group no_suite)) [
    | inl e ↦ ground (arith, e)
    | inr e ↦ ground (arith, e)
  ]
  print_rows-rows group (r ∷ rest) = ground (arith, print_rows-rows (base_name r.name) rest)

  -- `printRegression` prints one row for each entry of the baseline, in order, with the current value
  -- that `getCns` finds.
  pub print_regression-each :
      (rs : List (Benchmark D))
      → rows_of (print_regression zero_double current rs) ≡ map (row_of zero_double current) rs
  unfolding print_regression
  print_regression-each rs = print_rows-rows no_suite rs
