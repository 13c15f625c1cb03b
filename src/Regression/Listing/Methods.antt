-- ===== src/Regression/Listing/Methods.antt =====
-- `printMethods` in regression/custom/support/framework.h. `sort` is `std::sort` of baselines, and `load`
-- is `loadResults`.
use thread_pool_pro.Base.{
  ℕ, suc, ◌+◌, ◌-◌, Bool, true, false, Option, none, some, List, [], ◌∷◌, ◌++◌, length,
  if◌then◌else◌, larger, codes,
}
use thread_pool_pro.Regression.{Str}
use thread_pool_pro.Regression.Text.{display_width, repeat}
use thread_pool_pro.Regression.Table.{Piece, shown, reset, cyan, white, green, dark_gray}
use thread_pool_pro.Regression.Version.{Baseline, is_custom_baseline_name, to_string}
use thread_pool_pro.Regression.Version.Latest.{Entry}
use thread_pool_pro.Regression.Methods.{
  str_eq, BenchmarkResult, unique_operations, Group, group_methods_by_letter, method_id,
}
use thread_pool_pro.Regression.Report.{is_blank}
use thread_pool_pro.Regression.Cli.{baseline_path}
use thread_pool_pro.Regression.Listing.{
  branch, padded, Listed, Found, collect, frame_top, frame_bottom, left_side, right_side, lines,
  invalid_version, unknown_version, no_snapshot, refused, baselines,
}

-- `printBoxRow`
unfoldable pub box_row : ℕ → Str → Str → List Piece
box_row header_width label value =
    cyan
    ∷ shown left_side
    ∷ reset
    ∷ white
    ∷ shown (padded 13 label)
    ∷ reset
    ∷ green
    ∷ shown value
    ∷ reset
    ∷ shown (repeat (b' ' ∷ []) (header_width - display_width (padded 13 label ++ value)))
    ∷ cyan
    ∷ shown right_side
    ∷ reset
    ∷ []

abbrev pub header_width : Str → ℕ → ℕ
header_width name methods =
    larger (display_width (padded 13 (codes "Version") ++ name))
      (display_width (padded 13 (codes "Methods") ++ to_string methods))

-- The box with the version and the number of its methods.
unfoldable pub header_box : Str → ℕ → List (List Piece)
header_box name methods =
    frame_top (header_width name methods)
    ∷ box_row (header_width name methods) (codes "Version") name
    ∷ box_row (header_width name methods) (codes "Methods") (to_string methods)
    ∷ frame_bottom (header_width name methods)
    ∷ []

-- The line of the member `j` of a group, whose id is printed by `cell`.
unfoldable pub member_line : (Str → Str) → ℕ → ℕ → Bool → Str → List Piece
member_line cell letter j last name =
    cyan
    ∷ shown (branch last)
    ∷ reset
    ∷ green
    ∷ shown (b'[' ∷ [])
    ∷ shown (cell (method_id letter j))
    ∷ shown (b']' ∷ [])
    ∷ reset
    ∷ shown (b' ' ∷ b' ' ∷ [])
    ∷ white
    ∷ shown name
    ∷ reset
    ∷ []

unfoldable pub member_lines : (Str → Str) → ℕ → ℕ → List Str → List (List Piece)
member_lines cell letter j [] = []
member_lines cell letter j (m ∷ []) = member_line cell letter j true m ∷ []
member_lines cell letter j (m ∷ n ∷ rest) =
    member_line cell letter j false m ∷ member_lines cell letter (suc j) (n ∷ rest)

-- `idWidth`
abbrev pub id_width : Group → ℕ
id_width g = length (to_string (length g.members)) + 1

-- A group, with its ids as wide as the widest of them.
unfoldable pub letter_lines : Group → List (List Piece)
letter_lines g =
    (green
      ∷ shown (g.letter ∷ [])
      ∷ reset
      ∷ shown (b' ' ∷ [])
      ∷ dark_gray
      ∷ shown (b'(' ∷ to_string (length g.members) ++ b')' ∷ [])
      ∷ reset
      ∷ [])
    ∷ member_lines (padded (id_width g)) g.letter 0 g.members

unfoldable pub tree_lines : (Group → List (List Piece)) → List Group → List (List Piece)
tree_lines letter [] = []
tree_lines letter (g ∷ []) = letter g
tree_lines letter (g ∷ h ∷ gs) = letter g ++ [] ∷ tree_lines letter (h ∷ gs)

-- The lines of one baseline, with the names that it has measured.
unfoldable pub version_lines :
    (Group → List (List Piece)) → (List Str → List Str) → Str → List Str → List (List Piece)
version_lines letter sort_names name names =
    header_box name (length names)
    ++ [] ∷ tree_lines letter (group_methods_by_letter sort_names names)
    ++ [] ∷ []

abbrev pub after_lines : List (List Piece) → Listed → Listed
after_lines ls (lines ms) = lines (ls ++ ms)
after_lines ls (invalid_version name) = invalid_version name
after_lines ls (unknown_version name) = unknown_version name
after_lines ls (no_snapshot file) = no_snapshot file

-- The loop over the baselines, where `names_in` gives the names in a file, if it can be loaded.
unfoldable pub versions_loop :
    (Group → List (List Piece))
    → (List Str → List Str)
    → (Baseline → Str)
    → (Str → Option (List Str))
    → List Baseline
    → Listed
versions_loop letter sort_names path names_in [] = lines []
versions_loop letter sort_names path names_in (b ∷ bs) =
    let rest = versions_loop letter sort_names path names_in bs in
    elim (names_in (path b)) [
      | none ↦ no_snapshot (path b)
      | some names ↦ after_lines (version_lines letter sort_names b.name names) rest
    ]

-- `std::find_if` on the names.
unfoldable pub find_version : Str → List Baseline → Option Baseline
find_version name [] = none
find_version name (b ∷ bs) = if str_eq b.name name then some b else find_version name bs

abbrev pub selected : Str → List Baseline → Option (List Baseline)
selected filter bs =
    if is_blank filter
    then some bs
    else (elim (find_version filter bs) [ none ↦ none | some b ↦ some (b ∷ []) ])

abbrev pub loaded_names : {D : Type 0} → Option (List (BenchmarkResult D)) → Option (List Str)
loaded_names none = none
loaded_names (some results) = some (unique_operations results)

abbrev pub methods_found :
    (List Baseline → List Baseline) → (List Baseline → Listed) → Str → Found → Listed
methods_found sort show filter (refused name) = invalid_version name
methods_found sort show filter (baselines bs) = elim (selected filter (sort bs)) [
  | none ↦ unknown_version filter
  | some chosen ↦ show chosen
]

-- `printMethods`
unfoldable pub print_methods :
    {D : Type 0}
    → (List Baseline → List Baseline)
    → (List Str → List Str)
    → (Str → Option (List (BenchmarkResult D)))
    → Str
    → List Entry
    → Listed
print_methods sort sort_names load filter entries =
    methods_found sort
      (versions_loop letter_lines sort_names baseline_path (λ file. loaded_names (load file)))
      filter (collect is_custom_baseline_name entries)
