-- ===== src/Examples/Registry.antt =====
-- The registry of some examples.
use thread_pool_pro.Base.{ℕ, ◌≡◌, refl, ap, some, List, [], ◌∷◌, arith, codes, length}
use thread_pool_pro.Regression.{Str}
use thread_pool_pro.Regression.Version.{to_string, digits_before}
use thread_pool_pro.Regression.Cli.{filename, filename_from, parent_path}
use thread_pool_pro.Google.{before_last}
use thread_pool_pro.Suites.{
  Suite, Registry, no_suites, register_all, register, register_in, add_suite, counter_of, count_up,
  stem, prettify, prettify_from, to_lower, main, run_one,
}
use thread_pool_pro.Suites.Choice.{Apart, main-id_runs}

abbrev files : List (Str × ℕ)
files =
    (codes "suite/quickstart/basic_usage.cpp", 0)
    ∷ (codes "suite/misuse/double_get.cpp", 1)
    ∷ (codes "suite/quickstart/detach_task.cpp", 2)
    ∷ []

abbrev suite : Str → Str → Str → ℕ → Suite
suite id category name run = record { id = id; category = category; name = name; run = run }

abbrev before : List Suite
before =
    suite (codes "Q1") (codes "quickstart") (codes "Basic Usage") 0
    ∷ suite (codes "M1") (codes "misuse") (codes "Double Get") 1
    ∷ []

abbrev detach_task : Suite
detach_task = suite (codes "Q2") (codes "quickstart") (codes "Detach Task") 2

abbrev registry : Registry
registry = record {
  suites =
      suite (codes "Q1") (codes "quickstart") (codes "Basic Usage") 0
      ∷ suite (codes "M1") (codes "misuse") (codes "Double Get") 1
      ∷ detach_task
      ∷ [];
  counters = (codes "quickstart", 2) ∷ (codes "misuse", 1) ∷ [];
}

registered : register_all files no_suites ≡ some registry
unfolding register_all register register_in add_suite counter_of count_up stem prettify
    prettify_from filename filename_from parent_path before_last to_string digits_before
registered = refl

apart : Apart detach_task before
unfolding to_lower
apart = (
  λ e. refl,
  λ e. omega (arith, ap length e),
  (λ e. absurd (omega arith), λ e. omega (arith, ap length e), tt),
)

main-id_runs_example :
    (main registry.suites (codes "Q2" ∷ []) ≡ run_one detach_task)
    × (main registry.suites (to_lower (codes "Q2") ∷ []) ≡ run_one detach_task)
main-id_runs_example = main-id_runs files registry before detach_task [] registered refl apart
