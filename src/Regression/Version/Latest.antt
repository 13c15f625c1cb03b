-- ===== src/Regression/Version/Latest.antt =====
-- `latestBaseline`: the order of versions, and the newest directory.
pub mod Order
pub mod Newest
use thread_pool_pro.Base.{
  ℕ, zero, suc, ◌+◌, ◌≤◌, ◌<◌, ◌≡◌, ◌≢◌, ◌∙◌, refl, ap, sym, subst, ◌⊎◌, inl, inr, Bool, true,
  false, ◌||◌, ◌&&◌, Option, none, some, List, [], ◌∷◌, arith, if◌then◌else◌, ltb, ◌==◌, Bool-cases,
  Option-cases,
}
use thread_pool_pro.Regression.{Str}
use thread_pool_pro.Regression.Text.{ℤ, pos, negsuc}
use thread_pool_pro.Regression.Version.{Baseline, is_custom_baseline_name, parse_baseline}

-- `<` on `int`, and `==`.
abbrev pub less_int : ℤ → ℤ → Bool
less_int (pos m) (pos n) = ltb m n
less_int (pos m) (negsuc n) = false
less_int (negsuc m) (pos n) = true
less_int (negsuc m) (negsuc n) = ltb n m

-- `<` on `std::string`.
abbrev pub less_str : Str → Str → Bool
less_str s [] = false
less_str [] (d ∷ t) = true
less_str (c ∷ s) (d ∷ t) = if ltb c d then true else (if ltb d c then false else less_str s t)

-- The first difference decides.
abbrev pub lexicographic : Bool → Bool → Bool → Bool
lexicographic less greater rest = if less then true else (if greater then false else rest)

-- `a < b`, from the comparison of `Baseline` that the compiler writes.
unfoldable pub older : Baseline → Baseline → Bool
older a b = lexicographic (less_int a.major b.major) (less_int b.major a.major) (
    lexicographic (less_int a.minor b.minor) (less_int b.minor a.minor) (
      lexicographic (less_int a.patch b.patch) (less_int b.patch a.patch) (less_str a.name b.name)))

-- An entry of the directory: whether it is a directory, and its name.
pub record Entry : Type 0 where
  pub is_directory : Bool
  pub name : Str

-- How `latestBaseline` ends; `invalid` throws for a name, `nothing` as there is no baseline.
pub data Latest : Type 0 where
  newest : Baseline → Latest
  nothing : Latest
  invalid : Str → Latest

abbrev pub found : Option Baseline → Latest
found none = nothing
found (some b) = newest b

abbrev pub newer : Option Baseline → Baseline → Option Baseline
newer none current = some current
newer (some latest) current = if older latest current then some current else some latest

-- The loop, where `is_ours` tells which names belong to the tool.
unfoldable pub latest_loop : (Str → Bool) → Option Baseline → List Entry → Latest
latest_loop is_ours latest [] = found latest
latest_loop is_ours latest (e ∷ entries) =
    if e.is_directory && is_ours e.name
    then elim (parse_baseline e.name) [
      | none ↦ invalid e.name
      | some current ↦ latest_loop is_ours (newer latest current) entries
    ]
    else latest_loop is_ours latest entries

-- `latestBaseline`, up to the path of the snapshot.
unfoldable pub latest_baseline : List Entry → Latest
latest_baseline entries = latest_loop is_custom_baseline_name none entries
