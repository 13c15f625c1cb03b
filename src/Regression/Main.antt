-- ===== src/Regression/Main.antt =====
-- `main` in regression/custom/regression_main.cpp, from the arguments to what is printed and written.
-- `load` is `loadResults`, `sort` is `std::sort` of names and `sort_baselines` that of baselines, and
-- `entries` are those of the directory of baselines.
pub mod Ids
use thread_pool_pro.Base.{Bool, Option, List}
use thread_pool_pro.Regression.{Str}
use thread_pool_pro.Regression.Table.{Piece}
use thread_pool_pro.Regression.Version.{Baseline}
use thread_pool_pro.Regression.Version.Latest.{Entry}
use thread_pool_pro.Regression.Methods.{BenchmarkResult}
use thread_pool_pro.Regression.Summary.{Doubles}
use thread_pool_pro.Regression.Listing.{Listed, print_list}
use thread_pool_pro.Regression.Listing.Methods.{print_methods}
use thread_pool_pro.Regression.Usage.{print_usage}
use thread_pool_pro.Regression.Cli.{
  Action, list_baselines, list_methods, usage, compare_files, no_baseline, plan,
}
use thread_pool_pro.Regression.Comparison.{Look, Ended, compare}

-- How `main` ends: after a listing, the usage or a comparison, or with the exception that there is no
-- baseline.
pub data Ran : Type 0 where
  listed : Listed → Ran
  shows_usage : List (List Piece) → Ran
  compared : Ended → Ran
  without_baseline : Ran

module _ {D : Type 0} (d : Doubles D) (look : Look D)
    (load : Str → Option (List (BenchmarkResult D))) (can_open : Str → Bool) (custom : Str)
    (sort : List Str → List Str) (sort_baselines : List Baseline → List Baseline)
    (entries : List Entry) where
  -- What `main` does for its choice.
  unfoldable pub perform : Action → Ran
  perform list_baselines = listed (print_list sort_baselines custom entries)
  perform (list_methods version) = listed (print_methods sort_baselines sort load version entries)
  perform usage = shows_usage print_usage
  perform (compare_files current_file baseline_file filter) =
      compared (compare d look load can_open custom sort current_file baseline_file filter)
  perform no_baseline = without_baseline

  -- `main`, on the arguments behind the name of the program, where `latest` is what `latestBaseline`
  -- returns.
  unfoldable pub main : Option Str → List Str → Ran
  main latest args = perform (plan latest args)
