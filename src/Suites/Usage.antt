-- ===== src/Suites/Usage.antt =====
-- `printUsage` in examples/support/framework.h.
use thread_pool_pro.Base.{List, [], ◌∷◌, ◌++◌, codes}
use thread_pool_pro.Regression.Table.{Piece, shown, reset, bold, cyan, gray, yellow}
use thread_pool_pro.Regression.Usage.{Segment, Row, segment, row, usage_table}
use thread_pool_pro.Suites.Boxes.{dim}

abbrev examples : Segment
examples = segment cyan (codes "examples")

-- The rows of the table.
unfoldable pub usage_rows : List Row
usage_rows =
    row (examples ∷ []) (codes "run every example in order")
    ∷ row (examples ∷ segment yellow (codes " list") ∷ [])
        (codes "list all examples, grouped by category")
    ∷ row (examples ∷ segment gray (codes " <category>") ∷ [])
        (codes "run every example in a category, e.g. quickstart")
    ∷ row (examples ∷ segment gray (codes " <id>") ∷ [])
        (codes "run a single example by id, e.g. Q1")
    ∷ row (examples ∷ segment gray (codes " <name>") ∷ [])
        (codes "run a single example by file name, e.g. basic_behavior")
    ∷ row (examples ∷ segment yellow (codes " -h | --help") ∷ []) (codes "show this help message")
    ∷ []

unfoldable pub print_usage : List (List Piece)
print_usage =
    [] ∷ (bold ∷ shown (codes "Usage:") ∷ reset ∷ []) ∷ usage_table dim usage_rows
    ++ [] ∷ (dim ∷ shown (codes "Matching is case-insensitive.") ∷ reset ∷ []) ∷ [] ∷ []
