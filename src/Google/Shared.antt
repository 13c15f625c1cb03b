-- ===== src/Google/Shared.antt =====
-- regression/google/support: the functions that stand there in the same words as in the tool for the
-- custom benchmarks.
use thread_pool_pro.Base.{ℕ, Bool, Option, List}
use thread_pool_pro.Regression.{Str}
use thread_pool_pro.Regression.Text
use thread_pool_pro.Regression.Version
use thread_pool_pro.Regression.Version.{Baseline}
use thread_pool_pro.Regression.Methods
use thread_pool_pro.Regression.Methods.{Group, Resolved}
use thread_pool_pro.Regression.Table
use thread_pool_pro.Regression.Table.{Piece}
use thread_pool_pro.Regression.Summary
use thread_pool_pro.Regression.Summary.{Doubles}
use thread_pool_pro.Regression.Export

abbrev pub display_width : Str → ℕ
display_width = Text.display_width

abbrev pub repeat : Str → ℕ → Str
repeat = Text.repeat

abbrev pub pad_cell : Str → ℕ → Str
pad_cell = Text.pad_cell

abbrev pub truncate_cell : Str → ℕ → Str
truncate_cell = Text.truncate_cell

abbrev pub draw_border : Str → Str → Str → List ℕ → List Piece
draw_border = Table.draw_border

abbrev pub bar : ℕ → Str
bar = Table.bar

abbrev pub format_duration : (ℕ → ℕ → Str) → ℕ → Str
format_duration = Table.format_duration

abbrev pub parse_baseline : Str → Option Baseline
parse_baseline = Version.parse_baseline

abbrev pub try_parse_version_arg : Str → Option Baseline
try_parse_version_arg = Version.try_parse_version_arg

-- `groupMethodsByLetter` calls the list `names`.
abbrev pub group_methods_by_letter : (List Str → List Str) → List Str → List Group
group_methods_by_letter = Methods.group_methods_by_letter

abbrev pub looks_like_method_id : Str → Bool
looks_like_method_id = Methods.looks_like_method_id

-- `resolveMethodId`, where `groups` are those of `uniqueNames`.
abbrev pub resolve_method_id : List Group → Str → Resolved
resolve_method_id = Methods.resolve_method_id

abbrev pub print_summary : {D : Type 0} → Doubles D → Str → Str → List D → List (List Piece) × Str
print_summary = Summary.print_summary

abbrev pub export_markdown : Bool → Str → Str → Option Str
export_markdown = Export.export_markdown
