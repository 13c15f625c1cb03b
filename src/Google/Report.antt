-- ===== src/Google/Report.antt =====
-- `printRegression` in regression/google/support/framework.h, with the rows that it records and
-- `exportJson` of regression/google/support/export.h.
pub mod Nesting
use thread_pool_pro.Base.{
  ℕ, Bool, true, false, Option, none, some, List, [], ◌∷◌, ◌++◌, if◌then◌else◌, codes,
}
use thread_pool_pro.Regression.{Str}
use thread_pool_pro.Regression.Methods.{str_eq, has_name}
use thread_pool_pro.Regression.Report.{no_suite}
use thread_pool_pro.Regression.Summary.{Doubles}
use thread_pool_pro.Google.{Benchmark, base_name, get_cns, filter_by_name}

-- The lines: an empty one, the header of a group, the row of an entry with its two values, and the
-- border that closes a table.
pub data Line (D : Type 0) : Type 0 where
  empty_line : Line D
  header : Str → Line D
  row : Str → D → D → Line D
  closing : Line D

unfoldable pub close_table : {D : Type 0} → Str → List (Line D)
close_table group = if str_eq group no_suite then [] else closing ∷ []

-- `RegressionRow`
pub record RegressionRow (D : Type 0) : Type 0 where
  pub name : Str
  pub baseline_ns : D
  pub current_ns : D
  pub pct_change : D

-- How `applyMethodFilter` ends: with both sides filtered, or with the side that it names as missing.
pub data Filtered (D : Type 0) : Type 0 where
  both : List (Benchmark D) → List (Benchmark D) → Filtered D
  baseline_missing : Filtered D
  current_missing : Filtered D

module _ {D : Type 0} where
  -- The loop of `uniqueNames`, after the names `seen`.
  unfoldable pub unique_from : List Str → List (Benchmark D) → List Str
  unique_from seen [] = seen
  unique_from seen (r ∷ rest) =
      unique_from (if has_name r.name seen then seen else seen ++ r.name ∷ []) rest

  unfoldable pub unique_names : List (Benchmark D) → List Str
  unique_names results = unique_from [] results

  abbrev pub is_empty : List (Benchmark D) → Bool
  is_empty [] = true
  is_empty (r ∷ rest) = false

  unfoldable pub apply_method_filter : List (Benchmark D) → List (Benchmark D) → Str → Filtered D
  apply_method_filter baseline current name =
      if is_empty (filter_by_name baseline name)
      then baseline_missing
      else (if is_empty (filter_by_name current name)
          then current_missing
          else both (filter_by_name baseline name) (filter_by_name current name))

module _ {D : Type 0} (zero_double : D) (current : List (Benchmark D)) where
  unfoldable pub row_of : Benchmark D → Line D
  row_of r = row r.name r.real_time (get_cns zero_double current r.name)

  -- The loop, for `currentGroup`.
  unfoldable pub print_rows : Str → List (Benchmark D) → List (Line D)
  print_rows group [] = close_table group
  print_rows group (r ∷ rest) =
      let rows = row_of r ∷ print_rows (base_name r.name) rest in
      if str_eq group (base_name r.name)
      then rows
      else close_table group ++ empty_line ∷ header (base_name r.name) ∷ rows

  -- `printRegression`
  unfoldable pub print_regression : List (Benchmark D) → List (Line D)
  print_regression baseline = print_rows no_suite baseline

module _ {D : Type 0} (d : Doubles D) where
  -- What `printComparisonRow` appends for an entry of the baseline.
  unfoldable pub result_of : List (Benchmark D) → Benchmark D → RegressionRow D
  result_of current r =
      let now = get_cns d.zero_double current r.name in
      record {
        name = r.name;
        baseline_ns = r.real_time;
        current_ns = now;
        pct_change = d.change r.real_time now;
      }

module _ {D : Type 0} (fixed : D → Str) where
  -- An entry of the file, up to the comma behind it, and then `rest`.
  unfoldable pub json_entry : RegressionRow D → Str → Str
  json_entry r rest =
      codes "  {\n"
      ++ (codes "    \"name\": \""
          ++ (r.name
              ++ (codes "\",\n"
                  ++ (codes "    \"baseline_ns\": "
                      ++ (fixed r.baseline_ns
                          ++ (codes ",\n"
                              ++ (codes "    \"current_ns\": "
                                  ++ (fixed r.current_ns
                                      ++ (codes ",\n"
                                          ++ (codes "    \"pct_change\": "
                                              ++ (fixed r.pct_change
                                                  ++ (codes "\n"
                                                      ++ (codes "  }" ++ rest)))))))))))))

  unfoldable pub json_entries : List (RegressionRow D) → Str
  json_entries [] = codes "]\n"
  json_entries (r ∷ []) = json_entry r (codes "\n" ++ codes "]\n")
  json_entries (r ∷ q ∷ rest) = json_entry r (codes ",\n" ++ json_entries (q ∷ rest))

  -- `exportJson`: what the file holds; nothing is written when it cannot be opened.
  unfoldable pub export_json : Bool → List (RegressionRow D) → Option Str
  export_json opened rows = if opened then some (codes "[\n" ++ json_entries rows) else none
