-- ===== src/Regression/Cli/Words.antt =====
-- The words of a method, with and without quotes.
use thread_pool_pro.Base.{
  ◌≡◌, refl, inl, inr, false, Option, none, some, List, [], ◌∷◌, arith, Bool-cases,
}
use thread_pool_pro.Regression.{Str}
use thread_pool_pro.Regression.Methods.{str_eq}
use thread_pool_pro.Regression.Version.{Baseline, try_parse_version_arg, is_v}
use thread_pool_pro.Regression.Cli.{
  join_after, join, compare_version, compare_plan, methods_word, plan,
}

pub join-one : (word : Str) → join (word ∷ []) ≡ word
unfolding join join_after
join-one word = refl

-- A version is not the word "methods".
pub version_word :
    (arg : Str) (b : Baseline)
    → try_parse_version_arg arg ≡ some b
    → str_eq arg methods_word ≡ false
unfolding try_parse_version_arg
version_word [] b e = refl
version_word (c ∷ s) b e = elim (Bool-cases (is_v c)) [
  | inl v ↦ ground (arith, v)
  | inr v ↦ absurd (ground (arith, v, e))
]

-- A method needs no quotes: after one version, or after two, several words do what one argument does
-- that joins them, if after one version neither the first word nor the joined ones are a version.
pub plan-join :
    (latest : Option Str) (version word : Str) (words : List Str) (b : Baseline)
    → try_parse_version_arg version ≡ some b
    → try_parse_version_arg word ≡ none
    → try_parse_version_arg (join (word ∷ words)) ≡ none
    → plan latest (version ∷ word ∷ words) ≡ plan latest (version ∷ join (word ∷ words) ∷ [])
unfolding plan compare_plan compare_version
plan-join latest version word [] b v w j = ground (arith, join-one word)
plan-join latest version word (third ∷ words) b v w j =
    ground (arith, v, w, j, version_word version b v, join-one (join (word ∷ third ∷ words)))

pub plan-join_two :
    (latest : Option Str) (first second word : Str) (words : List Str) (b c : Baseline)
    → try_parse_version_arg first ≡ some b
    → try_parse_version_arg second ≡ some c
    → plan latest (first ∷ second ∷ word ∷ words)
      ≡ plan latest (first ∷ second ∷ join (word ∷ words) ∷ [])
unfolding plan compare_plan compare_version
plan-join_two latest first second word words b c v w =
    ground (arith, v, w, join-one (join (word ∷ words)))
