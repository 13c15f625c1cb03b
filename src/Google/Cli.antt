-- ===== src/Google/Cli.antt =====
-- regression/google/regression_main.cpp, and the baselines of the tool in
-- regression/google/support/helpers.h.
pub mod Labels
use thread_pool_pro.Base.{
  ℕ, Bool, true, false, ◌&&◌, Option, none, some, List, [], ◌∷◌, ◌++◌, if◌then◌else◌, codes,
}
use thread_pool_pro.Regression.{Str}
use thread_pool_pro.Regression.Methods.{str_eq}
use thread_pool_pro.Regression.Version.{Baseline}
use thread_pool_pro.Regression.Version.Latest.{Entry, Latest, latest_loop}
use thread_pool_pro.Regression.Cli.{
  benchmarks, baselines, json, filename, parent_path, current_label, Action, list_baselines,
  list_methods, usage, compare_files, no_baseline, join, list_word, methods_word, is_help,
}
use thread_pool_pro.Regression.Table.{Piece, shown, reset, bold, cyan, gray, yellow, dark_gray}
use thread_pool_pro.Regression.Usage.{Segment, Row, segment, row, usage_table}
use thread_pool_pro.Google.{is_google_baseline_name}
use thread_pool_pro.Google.Shared.{try_parse_version_arg}

-- `latestBaseline`, up to the path of the snapshot, where `exists` tells which snapshots are in a folder.
unfoldable pub latest_baseline : (Str → Str → Bool) → List Entry → Latest
latest_baseline exists entries = latest_loop (is_google_baseline_name exists) none entries

-- `kLiveResultsFile`
unfoldable pub live_results_file : Str
live_results_file = codes "benchmarks/results/google_benchmark_results.json"

-- `baselinePath`
unfoldable pub baseline_path : Baseline → Str
baseline_path version =
    benchmarks (baselines (version.name ++ (b'/' ∷ (b'g' ∷ (version.name ++ json)))))

-- `labelFor`
unfoldable pub label_for : Str → Str
label_for file =
    if str_eq file live_results_file then current_label else filename (parent_path file)

abbrev pub against_latest : Option Str → List Str → Action
against_latest none words = no_baseline
against_latest (some latest) words = compare_files live_results_file latest (join words)

-- After one version: a second one, or the benchmark.
unfoldable pub compare_version : Baseline → List Str → Action
compare_version v1 [] = compare_files live_results_file (baseline_path v1) (join [])
compare_version v1 (arg ∷ args) = elim (try_parse_version_arg arg) [
  | none ↦ compare_files live_results_file (baseline_path v1) (join (arg ∷ args))
  | some v2 ↦ compare_files (baseline_path v1) (baseline_path v2) (join args)
]

-- The comparison, where `latest` is what `latestBaseline` returns.
unfoldable pub compare_plan : Option Str → List Str → Action
compare_plan latest [] = against_latest latest []
compare_plan latest (arg ∷ args) = elim (try_parse_version_arg arg) [
  | none ↦ against_latest latest (arg ∷ args)
  | some v1 ↦ compare_version v1 args
]

-- `main`, on the arguments behind the name of the program.
unfoldable pub plan : Option Str → List Str → Action
plan latest [] = compare_plan latest []
plan latest (arg ∷ []) =
    if str_eq arg list_word
    then list_baselines
    else (if str_eq arg methods_word
        then list_methods []
        else (if is_help arg then usage else compare_plan latest (arg ∷ [])))
plan latest (arg ∷ second ∷ []) =
    if str_eq arg methods_word then list_methods second else compare_plan latest (arg ∷ second ∷ [])
plan latest (arg ∷ second ∷ third ∷ args) = compare_plan latest (arg ∷ second ∷ third ∷ args)

abbrev tool : Segment
tool = segment cyan (codes "google_regression")

-- The rows of the usage.
unfoldable pub usage_rows : List Row
usage_rows =
    row (tool ∷ []) (codes "compare newest baseline vs current run")
    ∷ row (tool ∷ segment yellow (codes " list") ∷ []) (codes "list all baselines")
    ∷ row (tool ∷ segment yellow (codes " methods") ∷ segment gray (codes " [<baseline>]") ∷ [])
        (codes "list benchmarks (all, or one baseline)")
    ∷ row (tool ∷ segment gray (codes " <baseline>") ∷ segment gray (codes " [<benchmark>]") ∷ [])
        (codes "vs one baseline")
    ∷ row (tool ∷ segment gray (codes " <benchmark>") ∷ []) (codes "vs current run, one benchmark")
    ∷ row (tool ∷ segment gray (codes " <baseline> <baseline>") ∷ []) (codes "baseline vs baseline")
    ∷ row (tool ∷ segment gray (codes " <baseline> <baseline> <benchmark>") ∷ [])
        (codes "baseline vs baseline, one benchmark")
    ∷ row (tool ∷ segment yellow (codes " -h | --help | help") ∷ []) (codes "this summary")
    ∷ []

-- The lines under the table.
unfoldable pub notes : List (List Piece)
notes =
    []
    ∷ (gray
        ∷ shown (codes "<baseline>")
        ∷ dark_gray
        ∷ shown (codes " = version tag, e.g. v1.2.0    ")
        ∷ gray
        ∷ shown (codes "<benchmark>")
        ∷ dark_gray
        ∷ shown (codes " = benchmark name, e.g. BM_PushBack")
        ∷ reset
        ∷ [])
    ∷ []
    ∷ (dark_gray
        ∷ shown (codes "quoting: a <benchmark> with spaces (rare, but Google Benchmark allows it)")
        ∷ [])
    ∷ (shown (codes "doesn't need quotes -- every word after the tag(s) joins back into the name")
        ∷ [])
    ∷ []
    ∷ (shown (codes "shortcuts: <benchmark> can be a [LetterN] id from ")
        ∷ reset
        ∷ yellow
        ∷ shown (codes "methods")
        ∷ reset
        ∷ dark_gray
        ∷ shown (codes " (e.g. \"a1\")")
        ∷ reset
        ∷ [])
    ∷ []

-- `printUsage`
unfoldable pub print_usage : List (List Piece)
print_usage =
    (bold ∷ shown (codes "Usage:") ∷ reset ∷ []) ∷ usage_table dark_gray usage_rows ++ notes
