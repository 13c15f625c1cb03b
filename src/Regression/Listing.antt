-- ===== src/Regression/Listing.antt =====
-- `printList` in regression/custom/support/framework.h, and what `printMethods` shares with it. `sort`
-- is `std::sort` of baselines.
pub mod Methods
pub mod Boxes
use thread_pool_pro.Base.{
  ℕ, zero, suc, ◌+◌, ◌-◌, Bool, true, false, ◌&&◌, Option, none, some, List, [], ◌∷◌, ◌++◌, map,
  length, if◌then◌else◌, larger, codes,
}
use thread_pool_pro.Regression.{Str}
use thread_pool_pro.Regression.Text.{display_width, repeat}
use thread_pool_pro.Regression.Table.{
  Piece, shown, reset, cyan, white, green, dark_gray, horizontal, box,
}
use thread_pool_pro.Regression.Version.{
  Baseline, is_custom_baseline_name, parse_baseline, to_string,
}
use thread_pool_pro.Regression.Version.Latest.{Entry}
use thread_pool_pro.Regression.Methods.{
  str_eq, BenchmarkResult, unique_operations, Group, group_methods_by_letter, method_id,
}
use thread_pool_pro.Regression.Report.{is_blank}
use thread_pool_pro.Regression.Cli.{baseline_path}

-- "└─ " and "├─ "
abbrev pub branch : Bool → Str
branch last = 0xE2 ∷ 0x94 ∷ (if last then 0x94 else 0x9C) ∷ 0xE2 ∷ 0x94 ∷ 0x80 ∷ b' ' ∷ []

-- A text, padded by `std::setw` on its right.
abbrev pub padded : ℕ → Str → Str
padded w s = s ++ repeat (b' ' ∷ []) (w - length s)

-- How a listing ends: with its lines, or with an exception about a name, whatever was printed before.
pub data Listed : Type 0 where
  lines : List (List Piece) → Listed
  invalid_version : Str → Listed  -- a directory that `parseBaseline` refuses
  unknown_version : Str → Listed  -- the version that is asked for
  no_snapshot : Str → Listed  -- a file that `loadResults` refuses

-- The loop over the directory, where `is_ours` tells which names belong to the tool; it ends with the
-- baselines, or with the name that is refused.
pub data Found : Type 0 where
  baselines : List Baseline → Found
  refused : Str → Found

abbrev pub with_baseline : Baseline → Found → Found
with_baseline b (baselines bs) = baselines (b ∷ bs)
with_baseline b (refused name) = refused name

unfoldable pub collect : (Str → Bool) → List Entry → Found
collect is_ours [] = baselines []
collect is_ours (e ∷ entries) =
    let rest = collect is_ours entries in
    if e.is_directory && is_ours e.name
    then elim (parse_baseline e.name) [ none ↦ refused e.name | some b ↦ with_baseline b rest ]
    else rest

-- A horizontal line of a box, for a text of `width` columns within.
unfoldable pub frame_line : Str → Str → ℕ → List Piece
frame_line left right width =
    cyan ∷ shown left ∷ shown (repeat horizontal (width + 2)) ∷ shown right ∷ reset ∷ []

abbrev pub frame_top : ℕ → List Piece
frame_top width = frame_line (box 0x8C) (box 0x90) width

abbrev pub frame_bottom : ℕ → List Piece
frame_bottom width = frame_line (box 0x94) (box 0x98) width

-- The sides "│ " and " │" of a box.
abbrev pub left_side : Str
left_side = box 0x82 ++ b' ' ∷ []

abbrev pub right_side : Str
right_side = b' ' ∷ box 0x82

-- The lines of the version tags.
unfoldable pub tag_lines : List Baseline → List (List Piece)
tag_lines [] = []
tag_lines (b ∷ []) = (cyan ∷ shown (branch true) ∷ reset ∷ green ∷ shown b.name ∷ reset ∷ []) ∷ []
tag_lines (b ∷ c ∷ rest) =
    (cyan ∷ shown (branch false) ∷ reset ∷ green ∷ shown b.name ∷ reset ∷ []) ∷ tag_lines (c ∷ rest)

abbrev pub version_text : Str
version_text = codes "Version: "

unfoldable pub count_box : ℕ → List (List Piece)
count_box n =
    let width = display_width (version_text ++ to_string n) in
    frame_top width
    ∷ (cyan
        ∷ shown left_side
        ∷ reset
        ∷ shown version_text
        ∷ green
        ∷ shown (to_string n)
        ∷ reset
        ∷ cyan
        ∷ shown right_side
        ∷ reset
        ∷ [])
    ∷ frame_bottom width
    ∷ []

-- The lines of `printList`, where `custom` is the name of the project.
unfoldable pub list_lines : Str → List Baseline → List (List Piece)
list_lines custom bs =
    (white ∷ shown (codes "Available version") ∷ reset ∷ [])
      ∷ []
      ∷ (cyan ∷ shown custom ∷ reset ∷ [])
      ∷ tag_lines bs
    ++ [] ∷ count_box (length bs)

abbrev pub list_found : (List Baseline → List Baseline) → Str → Found → Listed
list_found sort custom (refused name) = invalid_version name
list_found sort custom (baselines bs) = lines (list_lines custom (sort bs))

-- `printList`
unfoldable pub print_list : (List Baseline → List Baseline) → Str → List Entry → Listed
print_list sort custom entries = list_found sort custom (collect is_custom_baseline_name entries)
