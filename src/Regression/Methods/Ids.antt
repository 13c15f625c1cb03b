-- ===== src/Regression/Methods/Ids.antt =====
-- The ids of the methods, printed by `printMethods` and resolved by `resolveMethodId`.
use native.Mathlib.Nat.{mod-lt, div-add-mod}
use thread_pool_pro.Base.{
  ℕ, zero, suc, ◌+◌, ◌^◌, ◌≤◌, ◌<◌, ◌≡◌, ◌∙◌, refl, ap, sym, true, some, List, [], ◌∷◌, arith,
  get_elem?, ◌%◌, ◌/◌, dec_lt,
}
use thread_pool_pro.Regression.{Str}
use thread_pool_pro.Regression.Version.{to_string, digits_before}
use thread_pool_pro.Regression.Version.Decimal.{
  digits_before-small, digits_before-large, digits_before-first, read_digits-to_string,
}
use thread_pool_pro.Regression.Methods.{
  is_alpha, Group, group_loop, group_methods_by_letter, all_digits, looks_like_method_id, method_id,
  method, pick, resolve_method_id,
}
use thread_pool_pro.Regression.Methods.Groups.{
  Named, IsSorted, sorted-Growing, loop-AllUpper, AllUpper-at, find_member-group,
}

-- What is used of `std::sort`: the result is sorted, and has the elements of the argument.
pub record Sorts (sort : List Str → List Str) : Type 0 where
  pub sorted : (ops : List Str) → IsSorted (sort ops)
  pub kept : (ops : List Str) → Named ops → Named (sort ops)

digits_before-all :
    (fuel n : ℕ) (s : Str)
    → n ≤ fuel
    → all_digits s ≡ true
    → all_digits (digits_before fuel n s) ≡ true
digits_before-all zero n s h k =
    ap all_digits (digits_before-small 0 n s (omega arith)) ∙ ground (arith, k)
digits_before-all (suc fuel) n s h k = elim (dec_lt n 10) [
  | yes p ↦ ap all_digits (digits_before-small (suc fuel) n s p) ∙ ground (arith, k)
  | no p ↦
      let last : all_digits ((b'0' + n % 10) ∷ s) ≡ true =
        ground (arith, k, mod-lt n {m = 10} (omega arith)) in
      ap all_digits (digits_before-large fuel n s (omega arith))
      ∙ digits_before-all fuel (n / 10) ((b'0' + n % 10) ∷ s) (omega (arith, div-add-mod n 10)) last
]

pub to_string-digits :
    (n : ℕ) → (d : ℕ) × (r : Str) × (to_string n ≡ d ∷ r) × (all_digits (d ∷ r) ≡ true)
unfolding to_string
to_string-digits n =
    let (d, r, e, k) = digits_before-first n n [] (omega arith) in
    (d, r, e, ap all_digits (sym e) ∙ digits_before-all n n [] (omega arith) refl)

pick-member :
    (members : List Str) (j : ℕ) (m : Str)
    → get_elem? members j ≡ some m
    → pick (j + 1) members ≡ method m
unfolding pick
pick-member members j m e = ground (arith, e)

-- Every printed id leads back to its method: for a sort as `std::sort` and operations that all
-- have a name, the id of a member of a group, with fewer than 2 ^ 64 members up to it and an
-- alphabetic letter, looks like an id and resolves to this member.
pub resolve_method_id-method_id :
    (sort : List Str → List Str) (ops : List Str)
    → Sorts sort
    → Named ops
    → (i j : ℕ) (g : Group) (m : Str) → get_elem? (group_methods_by_letter sort ops) i ≡ some g
    → get_elem? g.members j ≡ some m
    → j + 1 < 2 ^ 64
    → is_alpha g.letter ≡ true
    → (resolve_method_id (group_methods_by_letter sort ops) (method_id g.letter j) ≡ method m)
      × (looks_like_method_id (method_id g.letter j) ≡ true)
unfolding resolve_method_id method_id group_methods_by_letter looks_like_method_id
resolve_method_id-method_id sort ops s n i j g m at_i at_j small alpha =
    let growing = sorted-Growing (sort ops) (s.kept ops n) (s.sorted ops) in
    let upper = AllUpper-at (group_loop [] (sort ops)) i g (loop-AllUpper [] (sort ops) tt) at_i in
    let groups = group_loop [] (sort ops) in
    let found =
      find_member-group groups i (j + 1) g growing at_i ∙ pick-member g.members j m at_j in
    let (d, r, e, digits) = to_string-digits (j + 1) in
    (
      rw (read_digits-to_string (j + 1), upper) (ground (arith, found)),
      rw e (ground (arith, alpha, digits)),
    )
