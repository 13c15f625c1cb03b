-- ===== src/Regression/Comparison/Ids.antt =====
-- A comparison for the id of a method is the comparison for its name.
use thread_pool_pro.Base.{
  ℕ, ◌+◌, ◌^◌, ◌<◌, ◌≡◌, ◌∙◌, refl, sym, Bool, true, false, Option, some, List, arith, get_elem?,
}
use thread_pool_pro.Regression.{Str}
use thread_pool_pro.Regression.Methods.{
  BenchmarkResult, unique_operations, Group, group_methods_by_letter, looks_like_method_id,
  is_alpha, method, method_id, resolve_method_id,
}
use thread_pool_pro.Regression.Methods.Groups.{Named}
use thread_pool_pro.Regression.Methods.Ids.{Sorts, resolve_method_id-method_id}
use thread_pool_pro.Regression.Summary.{Doubles}
use thread_pool_pro.Regression.Report.{is_blank}
use thread_pool_pro.Regression.Comparison.{Look, compare, compare_method}

module _ {D : Type 0} (d : Doubles D) (look : Look D)
    (load : Str → Option (List (BenchmarkResult D))) (can_open : Str → Bool) (custom : Str) where
  compare-name :
      (sort : List Str → List Str) (current_file baseline_file m : Str)
      → looks_like_method_id m ≡ false
      → compare d look load can_open custom sort current_file baseline_file m
        ≡ compare_method d look load can_open custom current_file baseline_file m
  unfolding compare
  compare-name sort current_file baseline_file m e = ground (arith, e)

  compare-resolved :
      (sort : List Str → List Str) (current_file baseline_file id m : Str)
      (results : List (BenchmarkResult D))
      → load baseline_file ≡ some results
      → is_blank id ≡ false
      → looks_like_method_id id ≡ true
      → resolve_method_id (group_methods_by_letter sort (unique_operations results)) id ≡ method m
      → compare d look load can_open custom sort current_file baseline_file id
        ≡ compare_method d look load can_open custom current_file baseline_file m
  unfolding compare
  compare-resolved sort current_file baseline_file id m results l b e r = rw (b, e, l, r) refl

  -- For a sort as `std::sort`, and a baseline that can be loaded and whose methods all have a name: the
  -- id that is listed for a method, with an alphabetic letter and a number below 2 ^ 64, makes `main` do
  -- exactly what the name of the method makes it do, unless that name looks like an id itself. Both
  -- print and write the same, or end in the same exception.
  pub compare-method_id :
      (sort : List Str → List Str) (current_file baseline_file : Str)
      (results : List (BenchmarkResult D))
      → Sorts sort
      → load baseline_file ≡ some results
      → Named (unique_operations results)
      → (i j : ℕ) (g : Group) (m : Str)
      → get_elem? (group_methods_by_letter sort (unique_operations results)) i ≡ some g
      → get_elem? g.members j ≡ some m
      → j + 1 < 2 ^ 64
      → is_alpha g.letter ≡ true
      → looks_like_method_id m ≡ false
      → compare d look load can_open custom sort current_file baseline_file (method_id g.letter j)
        ≡ compare d look load can_open custom sort current_file baseline_file m
  compare-method_id sort current_file baseline_file results s l n i j g m at_i at_j small alpha e =
      let (found, looks) =
        resolve_method_id-method_id sort (unique_operations results) s n i j g m at_i at_j small
          alpha in
      compare-resolved sort current_file baseline_file (method_id g.letter j) m results l
        (unfold method_id in refl) looks found
      ∙ sym (compare-name sort current_file baseline_file m e)
