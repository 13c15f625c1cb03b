-- ===== src/Suites/Numbering.antt =====
-- The ids that the registrars give.
use thread_pool_pro.Base.{
  ℕ, suc, ◌+◌, ◌≡◌, refl, ap, sym, subst, inl, inr, Bool-cases, Option-cases, some, List, [], ◌∷◌,
  ◌++◌, append_assoc, append-nil, arith, if◌then◌else◌,
}
use thread_pool_pro.Regression.{Str}
use thread_pool_pro.Regression.Methods.{str_eq, to_upper}
use thread_pool_pro.Regression.Methods.Entries.{str_eq_refl, str_eq_sound}
use thread_pool_pro.Regression.Version.{to_string}
use thread_pool_pro.Regression.Cli.{filename, parent_path}
use thread_pool_pro.Suites.{
  Suite, Registry, counter_of, count_up, add_suite, register_in, register, register_all, stem,
}

-- How many suites there are in a category.
abbrev pub count_in : Str → List Suite → ℕ
count_in category [] = 0
count_in category (s ∷ rest) =
    (if str_eq s.category category then 1 else 0) + count_in category rest

pub count_in-append :
    (c : Str) (xs ys : List Suite) → count_in c (xs ++ ys) ≡ count_in c xs + count_in c ys
count_in-append c [] ys = omega arith
count_in-append c (x ∷ xs) ys = omega (arith, count_in-append c xs ys)

-- The id of a suite, after the suites `before`: the first letter of its category, and its number there.
abbrev pub HasId : List Suite → Suite → Type 0
HasId before s =
    (c : ℕ) × (t : Str) × (s.category ≡ c ∷ t)
    × (s.id ≡ to_upper c ∷ to_string (suc (count_in s.category before)))

abbrev pub Numbered : List Suite → List Suite → Type 0
Numbered before [] = Unit {0}
Numbered before (s ∷ rest) = HasId before s × Numbered (before ++ s ∷ []) rest

pub record IsRegistry (r : Registry) : Type 0 where
  pub numbered : Numbered [] r.suites
  pub counted : (c : Str) → counter_of c r.counters ≡ count_in c r.suites

counter_of-count_up :
    (c d : Str) (counters : List (Str × ℕ))
    → counter_of d (count_up c counters) ≡ (if str_eq c d then 1 else 0) + counter_of d counters
unfolding counter_of count_up
counter_of-count_up c d [] = ground arith
counter_of-count_up c d ((key, n) ∷ rest) = elim (Bool-cases (str_eq key c)) [
  | inl e ↦ ground (arith, e, ap (λ k. str_eq k d) (str_eq_sound key c e))
  | inr e ↦ elim (Bool-cases (str_eq c d)) [
    | inl f ↦
        let other : str_eq key d ≡ str_eq key c = ap (str_eq key) (sym (str_eq_sound c d f)) in
        ground (arith, e, f, other, counter_of-count_up c d rest)
    | inr f ↦ ground (arith, e, f, counter_of-count_up c d rest)
  ]
]

Numbered-snoc :
    (before xs : List Suite) (s : Suite)
    → Numbered before xs
    → HasId (before ++ xs) s
    → Numbered before (xs ++ s ∷ [])
Numbered-snoc before [] s n h = (subst (λ b. HasId b s) (append-nil before) h, tt)
Numbered-snoc before (x ∷ xs) s (k, n) h = (
  k,
  Numbered-snoc (before ++ x ∷ []) xs s n
      (subst (λ b. HasId b s) (sym (append_assoc before (x ∷ []) xs)) h),
)

add_suite-IsRegistry :
    (c : ℕ) (t name : Str) (run : ℕ) (r : Registry)
    → IsRegistry r
    → IsRegistry (add_suite (c ∷ t) c name run r)
unfolding add_suite
add_suite-IsRegistry c t name run r v =
    let here = counter_of-count_up (c ∷ t) (c ∷ t) r.counters in
    let number : counter_of (c ∷ t) (count_up (c ∷ t) r.counters)
        ≡ suc (count_in (c ∷ t) r.suites) =
      ground (arith, here, v.counted (c ∷ t), str_eq_refl (c ∷ t)) in
    record {
      numbered =
          Numbered-snoc [] r.suites _ v.numbered
            (c, t, refl, ap (λ n. to_upper c ∷ to_string n) number);
      counted = λ d. omega (
        arith,
        counter_of-count_up (c ∷ t) d r.counters,
        v.counted d,
        count_in-append d r.suites (_ ∷ []),
      );
    }

register-IsRegistry :
    (file category : Str) (run : ℕ) (r : Registry) {r' : Registry}
    → IsRegistry r
    → register_in category file run r ≡ some r'
    → IsRegistry r'
unfolding register_in
register-IsRegistry file [] run r v e = absurd (ground (arith, e))
register-IsRegistry file (c ∷ t) run r v e =
    subst IsRegistry (ground (arith, e)) (add_suite-IsRegistry c t (stem (filename file)) run r v)

pub register_all-IsRegistry :
    (files : List (Str × ℕ)) (r : Registry) {r' : Registry}
    → IsRegistry r
    → register_all files r ≡ some r'
    → IsRegistry r'
unfolding register_all register
register_all-IsRegistry [] r v e = subst IsRegistry (ground (arith, e)) v
register_all-IsRegistry ((file, run) ∷ files) r v e =
    elim (Option-cases (register_in (filename (parent_path file)) file run r)) [
      | inl f ↦ absurd (ground (arith, e, f))
      | inr (r1, f) ↦
          register_all-IsRegistry files r1
            (register-IsRegistry file (filename (parent_path file)) run r v f)
            (ground (arith, e, f))
    ]
