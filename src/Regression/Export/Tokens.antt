-- ===== src/Regression/Export/Tokens.antt =====
-- The tokens of what `exportJson` writes.
use thread_pool_pro.Base.{
  ◌≡◌, ◌∙◌, refl, ap, true, Option, none, some, List, [], ◌∷◌, ◌++◌, arith, codes,
}
use thread_pool_pro.Regression.{Str}
use thread_pool_pro.Regression.Version.{to_string}
use thread_pool_pro.Regression.Summary.{RegressionRow}
use thread_pool_pro.Regression.Export.{json_entry, json_entries, export_json}
use thread_pool_pro.Regression.Export.Numbers.{begin, number_from, is_number, to_string-number}
use thread_pool_pro.Regression.Export.Json.{
  number-AllWord, Token, punct, text, word, Mode, between, in_text, emit, lex, reads, AllPlain,
  lex-text, lex-reads, lex-value, comma-ends, newline-ends, lex-nil,
}

-- A text that is a number of JSON.
abbrev pub IsNumber : Str → Type 0
IsNumber s = is_number s ≡ true

-- A row whose strings need no escapes, and whose values are finite: they are printed as numbers.
abbrev pub IsPlain : {D : Type 0} → (D → Str) → RegressionRow D → Type 0
IsPlain fixed r =
    AllPlain r.suite
    × AllPlain r.operation
    × IsNumber (fixed r.baseline_ns)
    × IsNumber (fixed r.current_ns)
    × IsNumber (fixed r.pct_change)

abbrev pub AllRowsPlain : {D : Type 0} → (D → Str) → List (RegressionRow D) → Type 0
AllRowsPlain fixed [] = Unit {0}
AllRowsPlain fixed (r ∷ rest) = IsPlain fixed r × AllRowsPlain fixed rest

-- A member of an object, and what follows.
abbrev pub member : Str → Token → List Token → List Token
member key value ts = text key ∷ punct b':' ∷ value ∷ ts

abbrev pub comma : List Token → List Token
comma ts = punct b',' ∷ ts

-- The object of a row.
abbrev pub object : {D : Type 0} → (D → Str) → RegressionRow D → List Token
object fixed r =
    punct b'{'
    ∷ member (codes "suite") (text r.suite) (
        comma (
          member (codes "operation") (text r.operation) (
            comma (
              member (codes "iteration") (word (to_string r.iteration)) (
                comma (
                  member (codes "baseline_ns") (word (fixed r.baseline_ns)) (
                    comma (
                      member (codes "current_ns") (word (fixed r.current_ns)) (
                        comma (
                          member (codes "pct_change") (word (fixed r.pct_change))
                            (punct b'}' ∷ [])))))))))))

-- The objects, with commas between them, up to the end of the list.
abbrev pub objects : {D : Type 0} → (D → Str) → List (RegressionRow D) → List Token
objects fixed [] = punct b']' ∷ []
objects fixed (r ∷ []) = object fixed r ++ punct b']' ∷ []
objects fixed (r ∷ q ∷ rest) = object fixed r ++ comma (objects fixed (q ∷ rest))

lex-word_comma :
    (v t : Str)
    → IsNumber v
    → lex between (v ++ b',' ∷ t) ≡ emit (word v ∷ punct b',' ∷ []) (lex between t)
lex-word_comma [] t h = absurd (unfold number_from in ground (arith, h))
lex-word_comma (d ∷ s) t h =
    lex-value d s t b',' (punct b',' ∷ []) (number-AllWord begin (d ∷ s) h) (comma-ends (d ∷ s) h)

lex-word_newline :
    (v t : Str) → IsNumber v → lex between (v ++ 10 ∷ t) ≡ emit (word v ∷ []) (lex between t)
lex-word_newline [] t h = absurd (unfold number_from in ground (arith, h))
lex-word_newline (d ∷ s) t h =
    lex-value d s t 10 [] (number-AllWord begin (d ∷ s) h) (newline-ends (d ∷ s) h)

ends : lex between (codes "]\n") ≡ some (punct b']' ∷ [])
ends =
    lex-reads between between (codes "]\n") [] (punct b']' ∷ []) (unfold reads in refl)
    ∙ ap (emit (punct b']' ∷ [])) lex-nil
    ∙ unfold emit in refl

last : lex between (codes "\n]\n") ≡ some (punct b']' ∷ [])
last =
    lex-reads between between (codes "\n]\n") [] (punct b']' ∷ []) (unfold reads in refl)
    ∙ ap (emit (punct b']' ∷ [])) lex-nil
    ∙ unfold emit in refl

module _ {D : Type 0} (fixed : D → Str) where
  -- The collected tokens of an entry.
  collect :
      (r : RegressionRow D) (o : Option (List Token))
      → emit (punct b'{' ∷ text (codes "suite") ∷ punct b':' ∷ []) (
          emit (text r.suite ∷ []) (
            emit (punct b',' ∷ text (codes "operation") ∷ punct b':' ∷ []) (
              emit (text r.operation ∷ []) (
                emit (punct b',' ∷ text (codes "iteration") ∷ punct b':' ∷ []) (
                  emit (word (to_string r.iteration) ∷ punct b',' ∷ []) (
                    emit (text (codes "baseline_ns") ∷ punct b':' ∷ []) (
                      emit (word (fixed r.baseline_ns) ∷ punct b',' ∷ []) (
                        emit (text (codes "current_ns") ∷ punct b':' ∷ []) (
                          emit (word (fixed r.current_ns) ∷ punct b',' ∷ []) (
                            emit (text (codes "pct_change") ∷ punct b':' ∷ []) (
                              emit
                                (word (fixed r.pct_change) ∷ [])
                                (emit (punct b'}' ∷ []) o))))))))))))
        ≡ emit (object fixed r) o
  unfolding emit
  collect r none = refl
  collect r (some ts) = refl

  lex-entry :
      (r : RegressionRow D) (rest : Str)
      → IsPlain fixed r
      → lex between (json_entry fixed r rest) ≡ emit (object fixed r) (lex between rest)
  unfolding json_entry reads
  lex-entry r rest (s, o, b, c, p) =
      let known =
        λ (m n : Mode) (l : Str) (ts : List Token) (e : reads m l ≡ some (n, ts)) (t : Str).
          lex-reads m n l t ts e in
      known between (in_text []) (codes "  {\n    \"suite\": \"") _ refl _
      ∙ ap (emit _) (
          lex-text r.suite [] _ s
          ∙ ap (emit _) (
              known between (in_text []) (codes ",\n    \"operation\": \"") _ refl _
              ∙ ap (emit _) (
                  lex-text r.operation [] _ o
                  ∙ ap (emit _) (
                      known between between (codes ",\n    \"iteration\": ") _ refl _
                      ∙ ap (emit _) (
                          lex-word_comma (to_string r.iteration) _ (to_string-number r.iteration)
                          ∙ ap (emit _) (
                              known between between (codes " \n    \"baseline_ns\": ") _ refl _
                              ∙ ap (emit _) (
                                  lex-word_comma (fixed r.baseline_ns) _ b
                                  ∙ ap (emit _) (
                                      known between between (codes "\n    \"current_ns\": ") _ refl
                                        _
                                      ∙ ap (emit _) (
                                          lex-word_comma (fixed r.current_ns) _ c
                                          ∙ ap (emit _) (
                                              known between between (codes "\n    \"pct_change\": ")
                                                _ refl _
                                              ∙ ap (emit _) (
                                                  lex-word_newline (fixed r.pct_change) _ p
                                                  ∙ ap (emit _) (
                                                      known between between (codes "  }") _ refl
                                                        rest))))))))))))
      ∙ collect r (lex between rest)

  lex-entries :
      (rows : List (RegressionRow D))
      → AllRowsPlain fixed rows
      → lex between (json_entries fixed rows) ≡ some (objects fixed rows)
  unfolding json_entries
  lex-entries [] h = ends
  lex-entries (r ∷ []) (p, h) =
      lex-entry r (codes "\n]\n") p ∙ ap (emit (object fixed r)) last ∙ unfold emit in refl
  lex-entries (r ∷ q ∷ rest) (p, h) =
      lex-entry r (codes ",\n" ++ json_entries fixed (q ∷ rest)) p
      ∙ ap (emit (object fixed r)) (
          lex-reads between between (codes ",\n") (json_entries fixed (q ∷ rest)) (punct b',' ∷ [])
            (unfold reads in refl)
          ∙ ap (emit (punct b',' ∷ [])) (lex-entries (q ∷ rest) h))
      ∙ unfold emit in refl

  -- When no string of a row needs an escape, and each double is printed as a number of JSON: the
  -- tokens of the file that `exportJson` writes, in which every word is a value of JSON, are an opening
  -- bracket, the objects of all rows in order with commas between them, and a closing bracket.
  pub export_json-tokens :
      (rows : List (RegressionRow D))
      → AllRowsPlain fixed rows
      → (file : Str) × (export_json fixed true rows ≡ some file)
        × (lex between file ≡ some (punct b'[' ∷ objects fixed rows))
  unfolding export_json
  export_json-tokens rows h = (
    codes "[\n" ++ json_entries fixed rows,
    refl,
    lex-reads between between (codes "[\n") (json_entries fixed rows) (punct b'[' ∷ [])
          (unfold reads in refl)
        ∙ ap (emit (punct b'[' ∷ [])) (lex-entries rows h)
        ∙ unfold emit in refl,
  )
