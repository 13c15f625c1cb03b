-- ===== src/Suites/Listing.antt =====
-- examples/support/framework.h: what a run and a listing print, and the categories that they count.
pub mod Categories
use thread_pool_pro.Base.{
  ℕ, zero, suc, ◌+◌, ◌-◌, ◌≤◌, ◌<◌, ◌≡◌, ◌∙◌, refl, ap, sym, subst, inl, inr, Bool-cases, Bool,
  true, false, not, ◌&&◌, ◌||◌, List, [], ◌∷◌, ◌++◌, map, length, length-append, append_assoc,
  append-nil, arith, if◌then◌else◌, ltb, larger, codes,
}
use thread_pool_pro.Regression.{Str}
use thread_pool_pro.Regression.Text.{repeat}
use thread_pool_pro.Regression.Methods.{str_eq, has_name}
use thread_pool_pro.Regression.Methods.Entries.{str_eq_refl, str_eq_sound, str_eq_sym}
use thread_pool_pro.Regression.Table.{Piece, shown, reset, bold, cyan, green}
use thread_pool_pro.Regression.Version.{to_string}
use thread_pool_pro.Regression.Listing.{branch, padded}
use thread_pool_pro.Suites.{
  Suite, prettify, Action, run_all, usage, listing, run_one, run_category, unknown,
}
use thread_pool_pro.Suites.Usage.{print_usage}
use thread_pool_pro.Suites.Boxes.{dim, Stat, stat_box, example_header}

-- A category with its suites.
pub record Grouped : Type 0 where
  pub category : Str
  pub suites : List Suite

-- A round of the loop that groups the suites.
unfoldable pub add_grouped : List Grouped → Suite → List Grouped
add_grouped [] s = record { category = s.category; suites = s ∷ [] } ∷ []
add_grouped (g ∷ []) s =
    if str_eq g.category s.category
    then record { category = g.category; suites = g.suites ++ s ∷ [] } ∷ []
    else g ∷ record { category = s.category; suites = s ∷ [] } ∷ []
add_grouped (g ∷ h ∷ gs) s = g ∷ add_grouped (h ∷ gs) s

unfoldable pub group_from : List Grouped → List Suite → List Grouped
group_from gs [] = gs
group_from gs (s ∷ rest) = group_from (add_grouped gs s) rest

-- The categories that `printAllExampleSuite` collects, after `seen`.
unfoldable pub categories_from : List Str → List Suite → List Str
categories_from seen [] = seen
categories_from seen (s ∷ rest) =
    categories_from (if has_name s.category seen then seen else seen ++ s.category ∷ []) rest

-- The width of the column of ids.
unfoldable pub id_width : ℕ → List Suite → ℕ
id_width w [] = w
id_width w (s ∷ rest) = id_width (larger w (length s.id)) rest

-- The line of a suite.
unfoldable pub tree_line : ℕ → Bool → Suite → List Piece
tree_line w last s =
    cyan
    ∷ shown (branch last)
    ∷ reset
    ∷ green
    ∷ shown (b'[' ∷ padded w s.id ++ b']' ∷ [])
    ∷ reset
    ∷ shown (b' ' ∷ b' ' ∷ s.name)
    ∷ []

unfoldable pub tree_lines : ℕ → List Suite → List (List Piece)
tree_lines w [] = []
tree_lines w (s ∷ []) = tree_line w true s ∷ []
tree_lines w (s ∷ t ∷ rest) = tree_line w false s ∷ tree_lines w (t ∷ rest)

-- A category: an empty line, its title and its suites.
unfoldable pub group_lines : ℕ → Grouped → List (List Piece)
group_lines w g =
    []
    ∷ (bold
        ∷ cyan
        ∷ shown (prettify g.category)
        ∷ reset
        ∷ dim
        ∷ shown (b' ' ∷ b'(' ∷ to_string (length g.suites) ++ b')' ∷ [])
        ∷ reset
        ∷ [])
    ∷ tree_lines w g.suites

unfoldable pub all_group_lines : ℕ → List Grouped → List (List Piece)
all_group_lines w [] = []
all_group_lines w (g ∷ gs) = group_lines w g ++ all_group_lines w gs

-- The texts of the boxes: "Suites", "Categories", "Examples" and "Time".
abbrev pub suites_text : Str
suites_text = b'S' ∷ b'u' ∷ b'i' ∷ b't' ∷ b'e' ∷ b's' ∷ []

abbrev pub categories_text : Str
categories_text = b'C' ∷ b'a' ∷ b't' ∷ b'e' ∷ b'g' ∷ b'o' ∷ b'r' ∷ b'i' ∷ b'e' ∷ b's' ∷ []

abbrev pub examples_text : Str
examples_text = b'E' ∷ b'x' ∷ b'a' ∷ b'm' ∷ b'p' ∷ b'l' ∷ b'e' ∷ b's' ∷ []

abbrev pub time_text : Str
time_text = b'T' ∷ b'i' ∷ b'm' ∷ b'e' ∷ []

abbrev pub stat : Str → Str → Stat
stat l v = record { label = l; value = v }

-- `printExampleSuiteList`
unfoldable pub suite_list : List Suite → List (List Piece)
suite_list suites =
    let grouped = group_from [] suites in
    []
      ∷ (bold ∷ shown (codes "Available example suites") ∷ reset ∷ [])
      ∷ all_group_lines (id_width 0 suites) grouped
    ++ []
      ∷ stat_box (
          stat suites_text (to_string (length suites))
          ∷ stat categories_text (to_string (length grouped))
          ∷ [])
    ++ [] ∷ []

-- `printRunSummary`, where `time` is the printed time.
unfoldable pub run_summary : ℕ → ℕ → Str → List (List Piece)
run_summary examples categories time =
    []
      ∷ stat_box (
          stat examples_text (to_string examples)
          ∷ stat categories_text (to_string categories)
          ∷ stat time_text time
          ∷ [])
    ++ [] ∷ []

-- What a run does: it prints lines, and calls the functions of suites.
pub data Event : Type 0 where
  prints : List (List Piece) → Event
  calls : ℕ → Event

unfoldable pub run_loop : List Suite → List Event → List Event
run_loop [] after = after
run_loop (s ∷ rest) after = prints ([] ∷ example_header s) ∷ calls s.run ∷ run_loop rest after

-- `runSuites`
unfoldable pub run_suites : List Suite → ℕ → Str → List Event
run_suites suites categories time =
    run_loop suites (prints (run_summary (length suites) categories time) ∷ [])

-- `printAllExampleSuite`
unfoldable pub run_registry : List Suite → Str → List Event
run_registry suites time = run_suites suites (length (categories_from [] suites)) time

-- `printOneSuite`
unfoldable pub run_single : Suite → List Event
run_single s = prints ([] ∷ example_header s) ∷ calls s.run ∷ prints ([] ∷ []) ∷ []

-- What `main` does for an action. The message about an unknown suite goes to the error stream.
unfoldable pub perform : Str → Action → List Event
perform time (run_all suites) = run_registry suites time
perform time usage = prints print_usage ∷ []
perform time (listing suites) = prints (suite_list suites) ∷ []
perform time (run_one s) = run_single s
perform time (run_category suites) = run_suites suites 1 time
perform time (unknown word) = []
