-- ===== src/Suites.antt =====
-- examples/support and examples/example_main.cpp: the program that runs the examples by id, name or
-- category. Suites register themselves before `main`; a suite's function is a number.
pub mod Names
pub mod Numbering
pub mod Choice
pub mod Boxes
pub mod Usage
pub mod Listing
use thread_pool_pro.Base.{
  ℕ, suc, ◌+◌, Bool, true, false, ◌&&◌, ◌||◌, Option, none, some, List, [], ◌∷◌, ◌++◌, map,
  if◌then◌else◌, ◌==◌, leb,
}
use thread_pool_pro.Regression.{Str}
use thread_pool_pro.Regression.Methods.{str_eq, to_upper}
use thread_pool_pro.Regression.Version.{to_string}
use thread_pool_pro.Regression.Cli.{filename, parent_path, list_word}
use thread_pool_pro.Google.{before_last}

-- The loop of `prettify`, for `firstLetter`.
unfoldable pub prettify_from : Bool → Str → Str
prettify_from first [] = []
prettify_from true (c ∷ s) = to_upper c ∷ prettify_from false s
prettify_from false (c ∷ s) = (if c == b'_' then b' ' else c) ∷ prettify_from (c == b'_') s

unfoldable pub prettify : Str → Str
prettify text = prettify_from true text

-- `std::tolower`
abbrev pub lower : ℕ → ℕ
lower c = if leb b'A' c && leb c b'Z' then c + 32 else c

-- `toLower`
unfoldable pub to_lower : Str → Str
to_lower s = map lower s

-- `ExampleSuite`
pub record Suite : Type 0 where
  pub id : Str
  pub category : Str
  pub name : Str
  pub run : ℕ

-- `example_registry()` and `category_counters()`
pub record Registry : Type 0 where
  pub suites : List Suite
  pub counters : List (Str × ℕ)

-- `counters[category]`, and 0 for a category that it does not hold.
unfoldable pub counter_of : Str → List (Str × ℕ) → ℕ
counter_of category [] = 0
counter_of category ((key, n) ∷ rest) = if str_eq key category then n else counter_of category rest

-- `++counters[category]`
unfoldable pub count_up : Str → List (Str × ℕ) → List (Str × ℕ)
count_up category [] = (category, 1) ∷ []
count_up category ((key, n) ∷ rest) =
    if str_eq key category then (key, suc n) ∷ rest else (key, n) ∷ count_up category rest

-- `stem()` of a file name: what stands before its last dot, unless this is the first character.
unfoldable pub stem : Str → Str
stem name = elim (before_last b'.' name) [ [] ↦ name | c ∷ s ↦ c ∷ s ]

-- What `ExampleRegistrar` does in the category `category`, whose first character is `c`.
unfoldable pub add_suite : Str → ℕ → Str → ℕ → Registry → Registry
add_suite category c name run r =
    let counters = count_up category r.counters in
    record {
      suites =
          r.suites
          ++ record {
            id = to_upper c ∷ to_string (counter_of category counters);
            category = category;
            name = prettify name;
            run = run;
          }
            ∷ [];
      counters = counters;
    }

-- `ExampleRegistrar`, for a relative path without double slashes; `none` where it takes the first
-- character of an empty category.
unfoldable pub register_in : Str → Str → ℕ → Registry → Option Registry
register_in [] file run r = none
register_in (c ∷ s) file run r = some (add_suite (c ∷ s) c (stem (filename file)) run r)

unfoldable pub register : Str → ℕ → Registry → Option Registry
register file run r = register_in (filename (parent_path file)) file run r

-- The registrars of all files, in the order in which they are initialised.
unfoldable pub register_all : List (Str × ℕ) → Registry → Option Registry
register_all [] r = some r
register_all ((file, run) ∷ files) r = elim (register file run r) [
  | none ↦ none
  | some r' ↦ register_all files r'
]

abbrev pub no_suites : Registry
no_suites = record { suites = []; counters = [] }

-- What `main` does.
pub data Action : Type 0 where
  run_all : List Suite → Action
  usage : Action
  listing : List Suite → Action
  run_one : Suite → Action
  run_category : List Suite → Action
  unknown : Str → Action

abbrev pub matched : Str → List Suite → Action
matched requested [] = unknown requested
matched requested (s ∷ rest) = run_category (s ∷ rest)

-- `main`'s loop, after the category matches `found`.
unfoldable pub is_exact : Str → Suite → Bool
is_exact requested_lower s =
    str_eq (to_lower s.name) requested_lower || str_eq (to_lower s.id) requested_lower

unfoldable pub choose : Str → Str → List Suite → List Suite → Action
choose requested requested_lower found [] = matched requested found
choose requested requested_lower found (s ∷ rest) =
    if is_exact requested_lower s
    then run_one s
    else choose requested requested_lower
        (if str_eq (to_lower s.category) requested_lower then found ++ s ∷ [] else found) rest

abbrev pub is_help : Str → Bool
is_help arg =
    str_eq arg (b'-' ∷ b'h' ∷ []) || str_eq arg (b'-' ∷ b'-' ∷ b'h' ∷ b'e' ∷ b'l' ∷ b'p' ∷ [])

-- `main`, on the arguments behind the name of the program.
unfoldable pub main : List Suite → List Str → Action
main suites [] = run_all suites
main suites (requested ∷ args) =
    if is_help requested
    then usage
    else (if str_eq requested list_word
        then listing suites
        else choose requested (to_lower (prettify requested)) [] suites)
