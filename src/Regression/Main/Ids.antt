-- ===== src/Regression/Main/Ids.antt =====
-- The id of a method, as an argument of `main`, does what its name does.
use thread_pool_pro.Base.{
  ℕ, ◌+◌, ◌^◌, ◌<◌, ◌≡◌, ◌∙◌, ap, sym, inl, inr, Bool, Bool-cases, true, false, ◌||◌, Option, none,
  some, List, [], ◌∷◌, ◌++◌, arith, get_elem?, ltb,
}
use thread_pool_pro.Regression.{Str}
use thread_pool_pro.Regression.Methods.{
  BenchmarkResult, unique_operations, Group, group_methods_by_letter, group_loop,
  looks_like_method_id, is_alpha, to_upper, str_eq, method_id,
}
use thread_pool_pro.Regression.Methods.Groups.{Named, loop-AllUpper, AllUpper-at}
use thread_pool_pro.Regression.Methods.Ids.{Sorts, to_string-digits}
use thread_pool_pro.Regression.Summary.{Doubles}
use thread_pool_pro.Regression.Version.{
  Baseline, skip_spaces, read_digits, read_unsigned, read_signed, read_int, read_char, read_version,
  to_string, try_parse_version_arg,
}
use thread_pool_pro.Regression.Version.Latest.{Entry}
use thread_pool_pro.Regression.Version.Decimal.{read_digits-to_string}
use thread_pool_pro.Regression.Cli.{
  list_word, methods_word, is_help, baseline_path, live_results_file, compare_files,
  compare_version, compare_plan, plan,
}
use thread_pool_pro.Regression.Cli.Words.{version_word, join-one}
use thread_pool_pro.Regression.Comparison.{Look, compare}
use thread_pool_pro.Regression.Comparison.Ids.{compare-method_id}
use thread_pool_pro.Regression.Main.{compared, perform, main}

-- The words that `main` takes for commands when they stand alone.
abbrev pub is_command : Str → Bool
is_command word = str_eq word list_word || str_eq word methods_word || is_help word

-- The arguments before a method: none, one version, or two; with the two files that they select.
pub data Chosen (latest : Option Str) : List Str → Str → Str → Type 0 where
  newest : (file : Str) → latest ≡ some file → Chosen latest [] live_results_file file
  against :
      (tag : Str) (v : Baseline)
      → try_parse_version_arg tag ≡ some v
      → Chosen latest (tag ∷ []) live_results_file (baseline_path v)
  between :
      (tag second : Str) (v w : Baseline)
      → try_parse_version_arg tag ≡ some v
      → try_parse_version_arg second ≡ some w
      → Chosen latest (tag ∷ second ∷ []) (baseline_path v) (baseline_path w)

plan-Chosen :
    {latest : Option Str} {args : List Str} {current_file baseline_file : Str} (word : Str)
    → Chosen latest args current_file baseline_file
    → is_command word ≡ false
    → try_parse_version_arg word ≡ none
    → plan latest (args ++ word ∷ []) ≡ compare_files current_file baseline_file word
unfolding plan compare_plan compare_version
plan-Chosen word (newest file e) c n = ground (arith, c, n, e, join-one word)
plan-Chosen word (against tag v e) c n = ground (arith, n, e, version_word tag v e, join-one word)
plan-Chosen word (between tag second v w e f) c n = ground (arith, e, f, join-one word)

-- No digits are a version, for want of the first dot.
read_version-to_string : (name : Str) (n : ℕ) → read_version name (to_string n) ≡ none
unfolding read_version read_int read_signed read_unsigned skip_spaces read_char
read_version-to_string name n =
    let (c, r, e, k) = to_string-digits n in
    let value : read_digits 0 (c ∷ r) ≡ (n, []) =
      ap (read_digits 0) (sym e) ∙ read_digits-to_string n in
    ap (read_version name) e ∙ elim (Bool-cases (ltb n (2 ^ 31))) [
      | inl small ↦ ground (arith, k, value, small)
      | inr big ↦ ground (arith, k, value, big)
    ]

id-command :
    (letter : ℕ) (s : Str)
    → is_alpha letter ≡ true
    → to_upper letter ≡ letter
    → is_command (letter ∷ s) ≡ false
id-command letter s a u = ground (arith, a, u)

id-version : (letter j : ℕ) → try_parse_version_arg (method_id letter j) ≡ none
unfolding try_parse_version_arg method_id
id-version letter j = ground (arith, read_version-to_string (method_id letter j) (j + 1))

group-upper :
    (sort : List Str → List Str) (ops : List Str) (i : ℕ) (g : Group)
    → get_elem? (group_methods_by_letter sort ops) i ≡ some g
    → to_upper g.letter ≡ g.letter
unfolding group_methods_by_letter
group-upper sort ops i g e =
    AllUpper-at (group_loop [] (sort ops)) i g (loop-AllUpper [] (sort ops) tt) e

module _ {D : Type 0} (d : Doubles D) (look : Look D)
    (load : Str → Option (List (BenchmarkResult D))) (can_open : Str → Bool) (custom : Str)
    (sort : List Str → List Str) (sort_baselines : List Baseline → List Baseline)
    (entries : List Entry) where
  main-Chosen :
      {latest : Option Str} {args : List Str} {current_file baseline_file : Str} (word : Str)
      → Chosen latest args current_file baseline_file
      → is_command word ≡ false
      → try_parse_version_arg word ≡ none
      → main d look load can_open custom sort sort_baselines entries latest (args ++ word ∷ [])
        ≡ compared (compare d look load can_open custom sort current_file baseline_file word)
  unfolding main perform
  main-Chosen word p c n =
      ap (perform d look load can_open custom sort sort_baselines entries) (plan-Chosen word p c n)

  -- For a sort as `std::sort`, and arguments that begin with no version, one or two, and so select a
  -- baseline that can be loaded and whose methods all have a name: as the last argument of `main`, the
  -- id that is listed for a method, with an alphabetic letter and a number below 2 ^ 64, does exactly
  -- what the name of the method does, unless that name is "list", "methods" or a word for help, reads
  -- as a version, or looks like an id itself. Both print and write the same, or end in the same
  -- exception.
  pub main-method_id :
      (latest : Option Str) (args : List Str) (current_file baseline_file : Str)
      (results : List (BenchmarkResult D))
      → Sorts sort
      → Chosen latest args current_file baseline_file
      → load baseline_file ≡ some results
      → Named (unique_operations results)
      → (i j : ℕ) (g : Group) (m : Str)
      → get_elem? (group_methods_by_letter sort (unique_operations results)) i ≡ some g
      → get_elem? g.members j ≡ some m
      → j + 1 < 2 ^ 64
      → is_alpha g.letter ≡ true
      → is_command m ≡ false
      → try_parse_version_arg m ≡ none
      → looks_like_method_id m ≡ false
      → main d look load can_open custom sort sort_baselines entries latest
          (args ++ method_id g.letter j ∷ [])
        ≡ main d look load can_open custom sort sort_baselines entries latest (args ++ m ∷ [])
  main-method_id latest args current_file baseline_file results s p l n i j g m at_i at_j small
        alpha c v e =
      let upper = group-upper sort (unique_operations results) i g at_i in
      main-Chosen (method_id g.letter j) p
        (unfold method_id in id-command g.letter (to_string (j + 1)) alpha upper)
        (id-version g.letter j)
      ∙ ap compared (
          compare-method_id d look load can_open custom sort current_file baseline_file results s l
            n i j g m at_i at_j small alpha e)
      ∙ sym (main-Chosen m p c v)
