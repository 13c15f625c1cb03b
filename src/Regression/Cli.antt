-- ===== src/Regression/Cli.antt =====
-- regression/custom/regression_main.cpp: what the arguments of the tool ask for.
pub mod Labels
pub mod Words
use thread_pool_pro.Base.{
  ℕ, Bool, true, false, ◌||◌, Option, none, some, List, [], ◌∷◌, ◌++◌, if◌then◌else◌, ◌==◌,
}
use thread_pool_pro.Regression.{Str}
use thread_pool_pro.Regression.Methods.{str_eq}
use thread_pool_pro.Regression.Report.{is_blank}
use thread_pool_pro.Regression.Version.{Baseline, try_parse_version_arg}

-- "benchmarks/", before `s`
abbrev pub benchmarks : Str → Str
benchmarks s = b'b' ∷ b'e' ∷ b'n' ∷ b'c' ∷ b'h' ∷ b'm' ∷ b'a' ∷ b'r' ∷ b'k' ∷ b's' ∷ b'/' ∷ s

-- "baselines/", before `s`
abbrev pub baselines : Str → Str
baselines s = b'b' ∷ b'a' ∷ b's' ∷ b'e' ∷ b'l' ∷ b'i' ∷ b'n' ∷ b'e' ∷ b's' ∷ b'/' ∷ s

-- ".json"
abbrev pub json : Str
json = b'.' ∷ b'j' ∷ b's' ∷ b'o' ∷ b'n' ∷ []

-- `kLiveResultsFile`
unfoldable pub live_results_file : Str
live_results_file = benchmarks (
    b'r' ∷ b'e' ∷ b's' ∷ b'u' ∷ b'l' ∷ b't' ∷ b's' ∷ b'/' ∷ b'b' ∷ b'e' ∷ b'n' ∷ b'c' ∷ b'h' ∷ b'm'
    ∷ b'a' ∷ b'r' ∷ b'k' ∷ b'_' ∷ b'r' ∷ b'e' ∷ b's' ∷ b'u' ∷ b'l' ∷ b't' ∷ b's' ∷ json)

-- `baselinePath`
unfoldable pub baseline_path : Baseline → Str
baseline_path version = benchmarks (baselines (version.name ++ (b'/' ∷ (version.name ++ json))))

-- `filename()` of a path: what follows its last slash, after `last`.
unfoldable pub filename_from : Str → Str → Str
filename_from last [] = last
filename_from last (c ∷ s) =
    if c == b'/' then filename_from [] s else filename_from (last ++ c ∷ []) s

unfoldable pub filename : Str → Str
filename s = filename_from [] s

abbrev pub has_slash : Str → Bool
has_slash [] = false
has_slash (c ∷ s) = (c == b'/') || has_slash s

-- `parent_path()` of a path without a root and without double slashes: what stands before the last
-- slash.
unfoldable pub parent_path : Str → Str
parent_path [] = []
parent_path (c ∷ s) = if has_slash s then c ∷ parent_path s else []

-- "Current"
abbrev pub current_label : Str
current_label = b'C' ∷ b'u' ∷ b'r' ∷ b'r' ∷ b'e' ∷ b'n' ∷ b't' ∷ []

-- `labelFor`
unfoldable pub label_for : Str → Str
label_for file =
    if str_eq file live_results_file then current_label else filename (parent_path file)

-- What `main` does: a listing, the usage, a comparison of two files for a method, or the error that
-- there is no baseline.
pub data Action : Type 0 where
  list_baselines : Action
  list_methods : Str → Action
  usage : Action
  compare_files : Str → Str → Str → Action  -- the current file, the baseline, the method
  no_baseline : Action

-- The loop that joins the words of the method.
unfoldable pub join_after : Str → List Str → Str
join_after filter [] = filter
join_after filter (word ∷ words) =
    join_after ((if is_blank filter then filter else filter ++ b' ' ∷ []) ++ word) words

unfoldable pub join : List Str → Str
join words = join_after [] words

abbrev pub against_latest : Option Str → List Str → Action
against_latest none words = no_baseline
against_latest (some latest) words = compare_files live_results_file latest (join words)

-- After one version: a second one, or the method.
unfoldable pub compare_version : Baseline → List Str → Action
compare_version v1 [] = compare_files live_results_file (baseline_path v1) (join [])
compare_version v1 (arg ∷ args) = elim (try_parse_version_arg arg) [
  | none ↦ compare_files live_results_file (baseline_path v1) (join (arg ∷ args))
  | some v2 ↦ compare_files (baseline_path v1) (baseline_path v2) (join args)
]

-- The comparison, where `latest` is what `latestBaseline` returns.
unfoldable pub compare_plan : Option Str → List Str → Action
compare_plan latest [] = against_latest latest []
compare_plan latest (arg ∷ args) = elim (try_parse_version_arg arg) [
  | none ↦ against_latest latest (arg ∷ args)
  | some v1 ↦ compare_version v1 args
]

-- "list", "methods", "-h", "--help" and "help"
abbrev pub list_word : Str
list_word = b'l' ∷ b'i' ∷ b's' ∷ b't' ∷ []

abbrev pub methods_word : Str
methods_word = b'm' ∷ b'e' ∷ b't' ∷ b'h' ∷ b'o' ∷ b'd' ∷ b's' ∷ []

abbrev pub is_help : Str → Bool
is_help arg =
    str_eq arg (b'-' ∷ b'h' ∷ [])
    || str_eq arg (b'-' ∷ b'-' ∷ b'h' ∷ b'e' ∷ b'l' ∷ b'p' ∷ [])
    || str_eq arg (b'h' ∷ b'e' ∷ b'l' ∷ b'p' ∷ [])

-- `main`, on the arguments behind the name of the program.
unfoldable pub plan : Option Str → List Str → Action
plan latest [] = compare_plan latest []
plan latest (arg ∷ []) =
    if str_eq arg list_word
    then list_baselines
    else (if str_eq arg methods_word
        then list_methods []
        else (if is_help arg then usage else compare_plan latest (arg ∷ [])))
plan latest (arg ∷ second ∷ []) =
    if str_eq arg methods_word then list_methods second else compare_plan latest (arg ∷ second ∷ [])
plan latest (arg ∷ second ∷ third ∷ args) = compare_plan latest (arg ∷ second ∷ third ∷ args)
