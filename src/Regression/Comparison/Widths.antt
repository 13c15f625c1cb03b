-- ===== src/Regression/Comparison/Widths.antt =====
-- The tables of a comparison have lines of one width.
use thread_pool_pro.Base.{
  ℕ, ◌≤◌, ◌≡◌, inl, inr, Bool-cases, not, ◌&&◌, List, [], ◌∷◌, ◌++◌, arith, ◌==◌,
}
use thread_pool_pro.Regression.{Str}
use thread_pool_pro.Regression.Text.{display_width, is_continuation}
use thread_pool_pro.Regression.Table.{Piece, header_line}
use thread_pool_pro.Regression.Table.Widths.{visible}
use thread_pool_pro.Regression.Methods.{BenchmarkResult, str_eq}
use thread_pool_pro.Regression.Report.{
  Line, empty_line, header, separator, row, closing, is_blank, convert_iter, separate, close_table,
  no_suite, row_of, print_rows, print_regression,
}
use thread_pool_pro.Regression.Summary.{Doubles}
use thread_pool_pro.Regression.Comparison.{
  Look, top_line, middle_line, bottom_line, shown_line, shown_lines,
}
use thread_pool_pro.Regression.Comparison.Rows.{
  IsText, top_line-visible, middle_line-visible, bottom_line-visible, Fitting,
  comparison_row-visible, header-visible,
}

-- Every line is empty, or takes `w` columns.
abbrev pub EvenLines : ℕ → List (List Piece) → Type 0
EvenLines w [] = Unit {0}
EvenLines w ([] ∷ ls) = EvenLines w ls
EvenLines w ((p ∷ ps) ∷ ls) = (visible (p ∷ ps) ≡ w) × EvenLines w ls

EvenLines-append :
    (w : ℕ) (ls ms : List (List Piece)) → EvenLines w ls → EvenLines w ms → EvenLines w (ls ++ ms)
EvenLines-append w [] ms e f = f
EvenLines-append w ([] ∷ ls) ms e f = EvenLines-append w ls ms e f
EvenLines-append w ((p ∷ ps) ∷ ls) ms (h, e) f = (h, EvenLines-append w ls ms e f)

EvenLines-one : (w : ℕ) (l : List Piece) → visible l ≡ w → EvenLines w (l ∷ [])
EvenLines-one w [] e = tt
EvenLines-one w (p ∷ ps) e = (e, tt)

convert_iter-width : (iter : ℕ) → display_width (convert_iter iter) ≤ 10
unfolding convert_iter display_width is_continuation
convert_iter-width iter = elim (Bool-cases (iter == 10000)) [
  | inl e ↦ ground (arith, e)
  | inr e ↦ elim (Bool-cases (iter == 100000)) [
    | inl f ↦ ground (arith, e, f)
    | inr f ↦ ground (arith, e, f)
  ]
]

module _ {D : Type 0} (d : Doubles D) (look : Look D) where
  -- A line whose texts fit.
  abbrev pub TextLine : Line D → Type 0
  TextLine empty_line = Unit {0}
  TextLine (header s) = IsText s
  TextLine separator = Unit {0}
  TextLine (row suite name iter tier b c) = IsText name × (display_width tier ≤ 10)
  TextLine closing = Unit {0}

  abbrev pub AllText : List (Line D) → Type 0
  AllText [] = Unit {0}
  AllText (l ∷ ls) = TextLine l × AllText ls

  shown_line-even :
      (current baseline : Str) (l : Line D)
      → Fitting d look
      → display_width current ≤ 23
      → display_width baseline ≤ 23
      → TextLine l
      → EvenLines 105 (shown_line d look current baseline l)
  unfolding shown_line
  shown_line-even current baseline empty_line f c b t = tt
  shown_line-even current baseline (header s) f c b t =
      EvenLines-append 105 (top_line ∷ []) (header_line s current baseline ∷ middle_line ∷ [])
        (EvenLines-one 105 top_line top_line-visible)
        (EvenLines-append 105 (header_line s current baseline ∷ []) (middle_line ∷ [])
          (EvenLines-one 105 _ (header-visible d look s current baseline t c b))
          (EvenLines-one 105 middle_line middle_line-visible))
  shown_line-even current baseline separator f c b t =
      EvenLines-one 105 middle_line middle_line-visible
  shown_line-even current baseline (row suite name iter tier x y) f c b (t, h) =
      EvenLines-one 105 _ (comparison_row-visible d look name tier x y f t h)
  shown_line-even current baseline closing f c b t =
      EvenLines-one 105 bottom_line bottom_line-visible

  shown_lines-even :
      (current baseline : Str) (ls : List (Line D))
      → Fitting d look
      → display_width current ≤ 23
      → display_width baseline ≤ 23
      → AllText ls
      → EvenLines 105 (shown_lines d look current baseline ls)
  unfolding shown_lines
  shown_lines-even current baseline [] f c b t = tt
  shown_lines-even current baseline (l ∷ ls) f c b (t, ts) =
      EvenLines-append 105 (shown_line d look current baseline l) _
        (shown_line-even current baseline l f c b t) (shown_lines-even current baseline ls f c b ts)

  -- The names and the suites of entries.
  abbrev pub AllNamed : List (BenchmarkResult D) → Type 0
  AllNamed [] = Unit {0}
  AllNamed (r ∷ rest) = IsText r.suite × IsText r.operation × AllNamed rest

  AllText-append : (ls ms : List (Line D)) → AllText ls → AllText ms → AllText (ls ++ ms)
  AllText-append [] ms a b = b
  AllText-append (l ∷ ls) ms (t, a) b = (t, AllText-append ls ms a b)

  close_table-AllText : (suite : Str) → AllText (close_table suite)
  unfolding close_table
  close_table-AllText suite = elim (Bool-cases (str_eq suite no_suite)) [
    | inl e ↦ ground (arith, e)
    | inr e ↦ ground (arith, e)
  ]

  separate-AllText : (last name : Str) → AllText (separate last name)
  unfolding separate
  separate-AllText last name = elim (Bool-cases (not (is_blank last) && not (str_eq last name))) [
    | inl e ↦ rw e (tt, tt)
    | inr e ↦ rw e tt
  ]

  print_rows-AllText :
      (current : List (BenchmarkResult D)) (suite last : Str) (rs : List (BenchmarkResult D))
      → AllNamed rs
      → AllText (print_rows d.zero_double current suite last rs)
  unfolding print_rows row_of
  print_rows-AllText current suite last [] n = close_table-AllText suite
  print_rows-AllText current suite last (r ∷ rest) (s, o, n) =
      let fits = convert_iter-width r.iterations in
      elim (Bool-cases (str_eq suite r.suite)) [
        | inl e ↦ rw e (
            AllText-append (separate last r.operation) _ (separate-AllText last r.operation)
              ((o, fits), print_rows-AllText current suite r.operation rest n))
        | inr e ↦ rw e (
            AllText-append (close_table suite ++ _) _
              (AllText-append (close_table suite) _ (close_table-AllText suite)
                (tt, (s, separate-AllText [] r.operation)))
              ((o, fits), print_rows-AllText current r.suite r.operation rest n))
      ]

  -- When durations, changes and the labels of the two sides fit into their cells, and all suites and
  -- names are UTF-8 of fewer than 2 ^ 31 code points: every line that `printRegression` shows is empty
  -- or takes 105 columns, however long a suite or a name is.
  pub shown_lines-aligned :
      (current_side baseline_side : Str) (current baseline : List (BenchmarkResult D))
      → Fitting d look
      → display_width current_side ≤ 23
      → display_width baseline_side ≤ 23
      → AllNamed baseline
      → EvenLines 105 (
          shown_lines d look current_side baseline_side
            (print_regression d.zero_double current baseline))
  unfolding print_regression
  shown_lines-aligned current_side baseline_side current baseline f c b n =
      shown_lines-even current_side baseline_side _ f c b
        (print_rows-AllText current no_suite [] baseline n)
