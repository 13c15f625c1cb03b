-- ===== src/Regression/Report.antt =====
-- `printRegression` in regression/custom/support/framework.h: which lines it prints, in which order.
pub mod Nesting
use thread_pool_pro.Base.{ℕ, Bool, true, false, not, ◌&&◌, List, [], ◌∷◌, ◌++◌, if◌then◌else◌, ◌==◌}
use thread_pool_pro.Regression.{Str}
use thread_pool_pro.Regression.Methods.{str_eq, BenchmarkResult, get_cns}

-- `convertIter`
unfoldable pub convert_iter : ℕ → Str
convert_iter iter =
    if iter == 10000
    then b'1' ∷ b'0' ∷ b'K' ∷ []
    else (if iter == 100000 then b'1' ∷ b'0' ∷ b'0' ∷ b'K' ∷ [] else b'1' ∷ b'M' ∷ [])

-- The lines: an empty one, the header of a suite, a separator, the row of an entry with its two
-- values, and the border that closes a table.
pub data Line (D : Type 0) : Type 0 where
  empty_line : Line D
  header : Str → Line D
  separator : Line D
  row : Str → Str → ℕ → Str → D → D → Line D
  closing : Line D

-- `drawGroupSeparatorIfNeeded`, where `last` is `lastRowGroup`.
abbrev pub is_blank : Str → Bool
is_blank [] = true
is_blank (c ∷ s) = false

unfoldable pub separate : {D : Type 0} → Str → Str → List (Line D)
separate last name = if not (is_blank last) && not (str_eq last name) then separator ∷ [] else []

-- `currentSuite` before the first entry.
abbrev pub no_suite : Str
no_suite = b' ' ∷ []

unfoldable pub close_table : {D : Type 0} → Str → List (Line D)
close_table suite = if str_eq suite no_suite then [] else closing ∷ []

module _ {D : Type 0} (zero_double : D) (current : List (BenchmarkResult D)) where
  unfoldable pub row_of : BenchmarkResult D → Line D
  row_of r =
      row r.suite r.operation r.iterations (convert_iter r.iterations) r.ns_per_op
        (get_cns zero_double current r.operation r.iterations)

  -- The loop, for `currentSuite` and `lastRowGroup`; `setHeader` clears the latter.
  unfoldable pub print_rows : Str → Str → List (BenchmarkResult D) → List (Line D)
  print_rows suite last [] = close_table suite
  print_rows suite last (r ∷ rest) =
      if str_eq suite r.suite
      then separate last r.operation ++ row_of r ∷ print_rows suite r.operation rest
      else close_table suite
        ++ empty_line ∷ header r.suite ∷ separate [] r.operation
        ++ row_of r ∷ print_rows r.suite r.operation rest

  -- `printRegression`
  unfoldable pub print_regression : List (BenchmarkResult D) → List (Line D)
  print_regression baseline = print_rows no_suite [] baseline
