-- ===== src/Regression/Export.antt =====
-- regression/custom/support/export.h: the files that the tool writes. `fixed` prints a `double` with two
-- decimals.
pub mod Numbers
pub mod Json
pub mod Tokens
use thread_pool_pro.Base.{
  ℕ, Bool, true, false, Option, none, some, List, [], ◌∷◌, ◌++◌, if◌then◌else◌, codes,
}
use thread_pool_pro.Regression.{Str}
use thread_pool_pro.Regression.Version.{to_string}
use thread_pool_pro.Regression.Summary.{RegressionRow}

module _ {D : Type 0} (fixed : D → Str) where
  -- An entry, up to the comma behind it, and then `rest`.
  unfoldable pub json_entry : RegressionRow D → Str → Str
  json_entry r rest =
      codes "  {\n"
      ++ (codes "    \"suite\": \""
          ++ (r.suite
              ++ (codes "\",\n"
                  ++ (codes "    \"operation\": \""
                      ++ (r.operation
                          ++ (codes "\",\n"
                              ++ (codes "    \"iteration\": "
                                  ++ (to_string r.iteration
                                      ++ (codes ", \n"
                                          ++ (codes "    \"baseline_ns\": "
                                              ++ (fixed r.baseline_ns
                                                  ++ (codes ",\n"
                                                      ++ (codes "    \"current_ns\": "
                                                          ++ (fixed r.current_ns
                                                            ++ (codes ",\n"
                                                            ++ (codes "    \"pct_change\": "
                                                            ++ (fixed r.pct_change
                                                            ++ (codes "\n"
                                                            ++ (codes "  }"
                                                            ++ rest)))))))))))))))))))

  -- The loop over the rows.
  unfoldable pub json_entries : List (RegressionRow D) → Str
  json_entries [] = codes "]\n"
  json_entries (r ∷ []) = json_entry r (codes "\n" ++ codes "]\n")
  json_entries (r ∷ q ∷ rest) = json_entry r (codes ",\n" ++ json_entries (q ∷ rest))

  -- `exportJson`: what the file holds; nothing is written when it cannot be opened.
  unfoldable pub export_json : Bool → List (RegressionRow D) → Option Str
  export_json opened rows = if opened then some (codes "[\n" ++ json_entries rows) else none

-- `exportMarkdown`, with the name of the project and the transcript.
unfoldable pub export_markdown : Bool → Str → Str → Option Str
export_markdown opened custom transcript =
    if opened then some (codes "#" ++ custom ++ codes "Regression Report\n" ++ transcript) else none
