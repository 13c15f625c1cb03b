-- ===== src/Examples/Exports.antt =====
-- A file that the comparison tool exports.
use thread_pool_pro.Base.{ℕ, ◌≡◌, some, true, List, [], ◌∷◌, arith, codes}
use thread_pool_pro.Regression.{Str}
use thread_pool_pro.Regression.Version.{to_string, digits_before}
use thread_pool_pro.Regression.Summary.{RegressionRow}
use thread_pool_pro.Regression.Export.{export_json}
use thread_pool_pro.Regression.Export.Numbers.{number_from, advance}
use thread_pool_pro.Regression.Export.Json.{punct, between, lex}
use thread_pool_pro.Regression.Export.Tokens.{AllRowsPlain, objects, export_json-tokens}

abbrev row : Str → RegressionRow ℕ
row operation = record {
  suite = codes "queue";
  operation = operation;
  iteration = 100000;
  baseline_ns = 12;
  current_ns = 9;
  pct_change = 33;
}

abbrev rows : List (RegressionRow ℕ)
rows = row (codes "push_back, 0 listeners") ∷ row (codes "steal") ∷ []

rows-AllRowsPlain : AllRowsPlain to_string rows
unfolding to_string digits_before number_from advance
rows-AllRowsPlain = ground arith

export_json-tokens_example :
    (file : Str) × (export_json to_string true rows ≡ some file)
    × (lex between file ≡ some (punct b'[' ∷ objects to_string rows))
export_json-tokens_example = export_json-tokens to_string rows rows-AllRowsPlain
