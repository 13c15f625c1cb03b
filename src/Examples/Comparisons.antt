-- ===== src/Examples/Comparisons.antt =====
-- Tags, names and entries of the comparison tool.
use thread_pool_pro.Base.{
  ℕ, ◌-◌, ◌≡◌, refl, inl, inr, true, false, some, List, [], ◌∷◌, arith, if◌then◌else◌, Bool-cases,
  codes, ltb, larger, ◌==◌,
}
use thread_pool_pro.Regression.{Str}
use thread_pool_pro.Regression.Version.{to_string, parse_baseline, try_parse_version_arg}
use thread_pool_pro.Regression.Version.Tags.{tag, version, tag-try_parse_version_arg}
use thread_pool_pro.Regression.Methods.{
  BenchmarkResult, comes_before, Group, group_methods_by_letter, group_loop, add_to_groups,
  letter_of, method_id, looks_like_method_id, unique_operations, unique_from,
}
use thread_pool_pro.Regression.Methods.Groups.{Named, IsSorted}
use thread_pool_pro.Regression.Methods.Ids.{Sorts}
use thread_pool_pro.Regression.Summary.{Doubles}
use thread_pool_pro.Regression.Comparison.{Look}
use thread_pool_pro.Regression.Cli.{live_results_file}
use thread_pool_pro.Regression.Main.{Ran, main}
use thread_pool_pro.Regression.Main.Ids.{newest, main-method_id}

-- A sort by insertion.
abbrev insert : Str → List Str → List Str
insert s [] = s ∷ []
insert s (t ∷ rest) = if comes_before s t then s ∷ t ∷ rest else t ∷ insert s rest

abbrev sort : List Str → List Str
sort [] = []
sort (s ∷ rest) = insert s (sort rest)

comes_before-asym : (s t : Str) → comes_before s t ≡ true → comes_before t s ≡ false
unfolding comes_before
comes_before-asym [] [] e = refl
comes_before-asym [] (d ∷ t) e = refl
comes_before-asym (c ∷ s) [] e = absurd (ground arith)
comes_before-asym (c ∷ s) (d ∷ t) e = ground (arith, comes_before-asym s t)

insert-IsSorted : (s : Str) (ops : List Str) → IsSorted ops → IsSorted (insert s ops)
insert-IsSorted s [] k = tt
insert-IsSorted s (t ∷ []) k = elim (Bool-cases (comes_before s t)) [
  | inl e ↦ ground (arith, e, comes_before-asym s t e)
  | inr e ↦ ground (arith, e)
]
insert-IsSorted s (t ∷ u ∷ ops) k = elim (Bool-cases (comes_before s t)) [
  | inl e ↦ ground (arith, e, comes_before-asym s t e)
  | inr e ↦ elim (Bool-cases (comes_before s u)) [
    | inl f ↦ ground (arith, e, f, comes_before-asym s u f)
    | inr f ↦ ground (arith, e, f, insert-IsSorted s (u ∷ ops) k.1)
  ]
]

sort-IsSorted : (ops : List Str) → IsSorted (sort ops)
sort-IsSorted [] = tt
sort-IsSorted (s ∷ ops) = insert-IsSorted s (sort ops) (sort-IsSorted ops)

insert-Named : (s : Str) (ops : List Str) → Named (s ∷ ops) → Named (insert s ops)
insert-Named [] ops k = absurd k
insert-Named (c ∷ s) [] k = tt
insert-Named (c ∷ s) ([] ∷ ops) k = absurd k
insert-Named (c ∷ s) ((d ∷ t) ∷ ops) k = elim (Bool-cases (comes_before (c ∷ s) (d ∷ t))) [
  | inl e ↦ ground (arith, e)
  | inr e ↦ ground (arith, e, insert-Named (c ∷ s) ops k)
]

sort-Named : (ops : List Str) → Named ops → Named (sort ops)
sort-Named [] k = tt
sort-Named ([] ∷ ops) k = absurd k
sort-Named ((c ∷ s) ∷ ops) k = insert-Named (c ∷ s) (sort ops) (sort-Named ops k)

sort-Sorts : Sorts sort
sort-Sorts = record { sorted = sort-IsSorted; kept = sort-Named }

-- A snapshot of "steal", "push" and "pop".
abbrev entry : Str → BenchmarkResult ℕ
entry operation = record {
  suite = codes "queue";
  operation = operation;
  total_ns = 70000;
  iterations = 10000;
  ns_per_op = 7;
}

abbrev snapshot : List (BenchmarkResult ℕ)
snapshot = entry (codes "steal") ∷ entry (codes "push") ∷ entry (codes "pop") ∷ []

-- A `double` that is a natural number.
abbrev numbers : Doubles ℕ
numbers = record {
  zero_double = 0;
  change = λ b c. b - c;
  is_noise = λ pct. pct == 0;
  is_positive = λ pct. ltb 0 pct;
  filled = λ count all. count;
  share_text = λ count all. to_string count;
  share_int = λ count all. count;
}

abbrev look : Look ℕ
look = record {
  rounded = λ ns. ns;
  magnitude = λ n unit. to_string n;
  greater = λ b c. larger b c;
  blocks = λ ns most. ns;
  is_significant = λ pct. ltb 10 pct;
  change_text = λ pct. to_string pct;
  fixed = λ ns. to_string ns;
}

abbrev letter_p : Group
letter_p = record {
  letter = b'P';
  members = (b'p' ∷ b'o' ∷ b'p' ∷ []) ∷ (b'p' ∷ b'u' ∷ b's' ∷ b'h' ∷ []) ∷ [];
}

-- The tool on a directory whose snapshots are all the same.
abbrev run_main : List Str → Ran
run_main =
    main numbers look (λ file. some snapshot) (λ file. true) (codes "ThreadPoolPro") sort (λ bs. bs)
      [] (some (codes "b.json"))

-- "P2" is "push".
main-method_id_example : run_main (method_id b'P' 1 ∷ []) ≡ run_main (codes "push" ∷ [])
unfolding unique_operations unique_from group_methods_by_letter group_loop add_to_groups letter_of
    comes_before looks_like_method_id try_parse_version_arg
main-method_id_example =
    main-method_id numbers look (λ file. some snapshot) (λ file. true) (codes "ThreadPoolPro") sort
      (λ bs. bs) [] (some (codes "b.json")) [] live_results_file (codes "b.json") snapshot
      sort-Sorts (newest (codes "b.json") refl) refl tt 0 1 letter_p (codes "push") refl refl
      (omega arith) refl refl refl refl

tag-try_parse_version_arg_example :
    (try_parse_version_arg (tag 1 20 3) ≡ some (version 1 20 3 (tag 1 20 3)))
    × (parse_baseline (tag 1 20 3) ≡ some (version 1 20 3 (tag 1 20 3)))
tag-try_parse_version_arg_example =
    tag-try_parse_version_arg 1 20 3 (omega arith) (omega arith) (omega arith)
