-- ===== src/Google.antt =====
-- regression/google: the tool for snapshots of Google Benchmark, where it differs from the one for the
-- custom benchmarks. This file is about support/helpers.h.
pub mod Names
pub mod Table
pub mod Shared
pub mod Report
pub mod Cli
pub mod Listing
use thread_pool_pro.Base.{
  ℕ, Bool, true, false, ◌&&◌, Option, none, some, List, [], ◌∷◌, ◌++◌, if◌then◌else◌, ◌==◌,
}
use thread_pool_pro.Regression.{Str}
use thread_pool_pro.Regression.Methods.{str_eq}
use thread_pool_pro.Regression.Report.{no_suite, close_table}
use thread_pool_pro.Regression.Version.{is_v, Baseline}
use thread_pool_pro.Regression.Cli.{benchmarks, baselines, json}

-- `BenchmarkResult`, where `D` is `double`.
pub record Benchmark (D : Type 0) : Type 0 where
  pub name : Str
  pub iterations : ℕ
  pub real_time : D
  pub cpu_time : D
  pub time_unit : Str

-- `s.substr(0, s.find(c))`, and all of `s` where `c` does not occur.
unfoldable pub before_first : ℕ → Str → Str
before_first c [] = []
before_first c (d ∷ s) = if d == c then [] else d ∷ before_first c s

abbrev pub has_char : ℕ → Str → Bool
has_char c [] = false
has_char c (d ∷ s) = if d == c then true else has_char c s

-- `s.substr(0, s.rfind(c))`, and all of `s` where `c` does not occur.
unfoldable pub before_last : ℕ → Str → Str
before_last c [] = []
before_last c (d ∷ s) = if has_char c s then d ∷ before_last c s else (if d == c then [] else d ∷ s)

-- `baseName`
unfoldable pub base_name : Str → Str
base_name name = before_last b'_' (before_first b'/' name)

-- `isGoogleBaselineName`, where `exists` tells which snapshots are in the folder of that name.
unfoldable pub is_google_baseline_name : (Str → Str → Bool) → Str → Bool
is_google_baseline_name exists [] = false
is_google_baseline_name exists (c ∷ s) = is_v c && exists (c ∷ s) (b'g' ∷ (c ∷ s) ++ json)

module _ {D : Type 0} where
  -- `getCns`, where `zero_double` is 0.0.
  unfoldable pub get_cns : D → List (Benchmark D) → Str → D
  get_cns zero_double [] name = zero_double
  get_cns zero_double (r ∷ rest) name =
      if str_eq r.name name then r.real_time else get_cns zero_double rest name

  -- `filterByName`
  unfoldable pub filter_by_name : List (Benchmark D) → Str → List (Benchmark D)
  filter_by_name [] name = []
  filter_by_name (r ∷ rest) name =
      if str_eq r.name name then r ∷ filter_by_name rest name else filter_by_name rest name
