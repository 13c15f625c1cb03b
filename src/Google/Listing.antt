-- ===== src/Google/Listing.antt =====
-- `printList` and `printMethods` in regression/google/support/framework.h.
use thread_pool_pro.Base.{ℕ, ◌≢◌, Bool, Option, none, some, List, [], ◌∷◌, ◌++◌, arith, length}
use thread_pool_pro.Regression.{Str}
use thread_pool_pro.Regression.Table.{Piece, shown, reset, green, dark_gray}
use thread_pool_pro.Regression.Version.{Baseline, to_string, digits_before}
use thread_pool_pro.Regression.Version.Latest.{Entry}
use thread_pool_pro.Regression.Methods.{Group, method_id}
use thread_pool_pro.Regression.Listing.{Listed, collect, list_found}
use thread_pool_pro.Regression.Listing.Methods.{methods_found, versions_loop, member_lines}
use thread_pool_pro.Google.{Benchmark, is_google_baseline_name}
use thread_pool_pro.Google.Report.{unique_names}
use thread_pool_pro.Google.Cli.{baseline_path}

-- `printList`
unfoldable pub print_list :
    (List Baseline → List Baseline) → Str → (Str → Str → Bool) → List Entry → Listed
print_list sort custom exists entries =
    list_found sort custom (collect (is_google_baseline_name exists) entries)

-- How an id is printed: as it is.
abbrev pub id_cell : Str → Str
id_cell id = id

-- A group. `idWidth` is computed here too, and not used.
unfoldable pub letter_lines : Group → List (List Piece)
letter_lines g =
    (green
      ∷ shown (g.letter ∷ [])
      ∷ reset
      ∷ shown (b' ' ∷ [])
      ∷ dark_gray
      ∷ shown (b'(' ∷ to_string (length g.members) ++ b')' ∷ [])
      ∷ reset
      ∷ [])
    ∷ member_lines id_cell g.letter 0 g.members

abbrev pub loaded_names : {D : Type 0} → Option (List (Benchmark D)) → Option (List Str)
loaded_names none = none
loaded_names (some results) = some (unique_names results)

-- `printMethods`
unfoldable pub print_methods :
    {D : Type 0}
    → (List Baseline → List Baseline)
    → (List Str → List Str)
    → (Str → Option (List (Benchmark D)))
    → Str
    → (Str → Str → Bool)
    → List Entry
    → Listed
print_methods sort sort_names load filter exists entries =
    methods_found sort
      (versions_loop letter_lines sort_names baseline_path (λ file. loaded_names (load file)))
      filter (collect (is_google_baseline_name exists) entries)

-- The ids of the first and of the tenth member of a group differ in width.
pub id_cell-unaligned :
    (letter : ℕ) → length (id_cell (method_id letter 0)) ≢ length (id_cell (method_id letter 9))
unfolding method_id to_string digits_before
id_cell-unaligned letter e = omega (arith, e)
