-- ===== src/Suites/Choice.antt =====
-- What `main` runs.
use thread_pool_pro.Base.{
  ℕ, suc, ◌≡◌, ◌∙◌, refl, ap, sym, subst, inl, inr, Bool-cases, true, false, Option, none, some,
  List, [], ◌∷◌, ◌++◌, append_assoc, append-nil, arith, if◌then◌else◌, ◌≢◌,
}
use thread_pool_pro.Regression.{Str}
use thread_pool_pro.Regression.Methods.{str_eq, to_upper, all_digits}
use thread_pool_pro.Regression.Methods.Entries.{str_eq_refl}
use thread_pool_pro.Regression.Methods.Ids.{to_string-digits}
use thread_pool_pro.Regression.Cli.{list_word}
use thread_pool_pro.Suites.{
  Suite, Registry, no_suites, register_all, prettify, lower, to_lower, counter_of, Action, matched,
  run_one, is_exact, choose, is_help, main,
}
use thread_pool_pro.Suites.Names.{str_eq_ne, to_lower-prettify_id, id-eq, to_lower-digits}
use thread_pool_pro.Suites.Numbering.{
  count_in, count_in-append, HasId, Numbered, register_all-IsRegistry,
}

-- None of the suites is an exact match.
abbrev pub NoExact : Str → List Suite → Type 0
NoExact low [] = Unit {0}
NoExact low (s ∷ rest) = (is_exact low s ≡ false) × NoExact low rest

-- The suites of a category that is asked for.
pub in_category : Str → List Suite → List Suite
in_category low [] = []
in_category low (s ∷ rest) =
    if str_eq (to_lower s.category) low then s ∷ in_category low rest else in_category low rest

choose-exact :
    (req low : Str) (found xs : List Suite) (s : Suite) (ys : List Suite)
    → NoExact low xs
    → is_exact low s ≡ true
    → choose req low found (xs ++ s ∷ ys) ≡ run_one s
unfolding choose
choose-exact req low found [] s ys n e = ground (arith, e)
choose-exact req low found (x ∷ xs) s ys (m, n) e = ground (
  arith,
  m,
  choose-exact req low (if str_eq (to_lower x.category) low then found ++ x ∷ [] else found) xs s ys
      n e,
)

-- The letter with which the ids of a category begin.
abbrev pub initial : Str → ℕ
initial [] = 0
initial (c ∷ s) = to_upper c

-- No other category has the initial of the category of `s`, and no suite has the id of `s` as its name.
abbrev pub Apart : Suite → List Suite → Type 0
Apart s [] = Unit {0}
Apart s (x ∷ xs) =
    (initial x.category ≡ initial s.category → x.category ≡ s.category)
    × (to_lower x.name ≢ to_lower s.id)
    × Apart s xs

-- A suite has another id than one after it.
other_id :
    (before xs : List Suite) (x s : Suite)
    → HasId before x
    → HasId (before ++ x ∷ xs) s
    → (initial x.category ≡ initial s.category → x.category ≡ s.category)
    → to_lower x.id ≢ to_lower s.id
other_id before xs x s (c, t, p, q) (d, u, p', q') one e =
    let (letter, number) =
      id-eq c d (suc (count_in x.category before)) (suc (count_in s.category (before ++ x ∷ xs)))
        (sym (ap to_lower q) ∙ e ∙ ap to_lower q') in
    let same = one (ap initial p ∙ letter ∙ sym (ap initial p')) in
    let hit = ap (λ k. str_eq k s.category) same ∙ str_eq_refl s.category in
    ground (
      arith,
      number,
      hit,
      ap (λ k. count_in k before) same,
      count_in-append s.category before (x ∷ xs),
    )

before-NoExact :
    (before xs : List Suite) (s : Suite)
    → Numbered before xs
    → HasId (before ++ xs) s
    → Apart s xs
    → NoExact (to_lower s.id) xs
unfolding is_exact
before-NoExact before [] s n h a = tt
before-NoExact before (x ∷ xs) s (k, n) h (one, name, a) = (
  ground (
    arith,
    str_eq_ne (to_lower x.name) (to_lower s.id) name,
    str_eq_ne (to_lower x.id) (to_lower s.id) (other_id before xs x s k h one),
  ),
  before-NoExact (before ++ x ∷ []) xs s n
      (subst (λ b. HasId b s) (sym (append_assoc before (x ∷ []) xs)) h) a,
)

Numbered-at :
    (before xs : List Suite) (s : Suite) (ys : List Suite)
    → Numbered before (xs ++ s ∷ ys)
    → Numbered before xs × HasId (before ++ xs) s
Numbered-at before [] s ys (h, n) = (tt, subst (λ b. HasId b s) (sym (append-nil before)) h)
Numbered-at before (x ∷ xs) s ys (h, n) =
    let (k, g) = Numbered-at (before ++ x ∷ []) xs s ys n in
    ((h, k), subst (λ b. HasId b s) (append_assoc before (x ∷ []) xs) g)

-- An id is none of the words that `main` tests for.
main-id :
    (suites : List Suite) (c d : ℕ) (s : Str)
    → all_digits (d ∷ s) ≡ true
    → main suites ((c ∷ d ∷ s) ∷ [])
      ≡ choose (c ∷ d ∷ s) (to_lower (prettify (c ∷ d ∷ s))) [] suites
unfolding main
main-id suites c d s h = ground (arith, h)

-- An id with its letter `c`, or in small letters, runs the suite that has it.
runs_it :
    (suites xs : List Suite) (s : Suite) (ys : List Suite) (c d : ℕ) (w : Str)
    → suites ≡ xs ++ s ∷ ys
    → NoExact (to_lower s.id) xs
    → all_digits (d ∷ w) ≡ true
    → to_lower (prettify (c ∷ d ∷ w)) ≡ to_lower s.id
    → main suites ((c ∷ d ∷ w) ∷ []) ≡ run_one s
unfolding is_exact
runs_it suites xs s ys c d w split n digits same =
    let exact : is_exact (to_lower s.id) s ≡ true = ground (arith, str_eq_refl (to_lower s.id)) in
    main-id suites c d w digits
    ∙ ap (λ low. choose (c ∷ d ∷ w) low [] suites) same
    ∙ ap (choose (c ∷ d ∷ w) (to_lower s.id) []) split
    ∙ choose-exact (c ∷ d ∷ w) (to_lower s.id) [] xs s ys n exact

-- When the suites before a registered one have other initials or its category, and none of them has
-- its id as a name: its id, as it is listed or in small letters, runs this suite and nothing else.
pub main-id_runs :
    (files : List (Str × ℕ)) (r : Registry) (xs : List Suite) (s : Suite) (ys : List Suite)
    → register_all files no_suites ≡ some r
    → r.suites ≡ xs ++ s ∷ ys
    → Apart s xs
    → (main r.suites (s.id ∷ []) ≡ run_one s) × (main r.suites (to_lower s.id ∷ []) ≡ run_one s)
unfolding counter_of
main-id_runs files r xs s ys e split apart =
    let v =
      register_all-IsRegistry files no_suites (record { numbered = tt; counted = λ c. refl }) e in
    let (n, k) = Numbered-at [] xs s ys (subst (Numbered []) split v.numbered) in
    let (c, t, p, q) = k in
    let (d, w, f, digits) = to_string-digits (suc (count_in s.category xs)) in
    let shape : s.id ≡ to_upper c ∷ d ∷ w = q ∙ ap (λ u. to_upper c ∷ u) f in
    let small : to_lower s.id ≡ lower (to_upper c) ∷ d ∷ w =
      ap to_lower shape
      ∙ unfold to_lower in ap (λ u. lower (to_upper c) ∷ u) (to_lower-digits (d ∷ w) digits) in
    let (same, same_small) = to_lower-prettify_id (to_upper c) (d ∷ w) digits in
    let run = λ (l : ℕ) (g : to_lower (prettify (l ∷ d ∷ w)) ≡ to_lower s.id).
      runs_it r.suites xs s ys l d w split (before-NoExact [] xs s n k apart) digits g in
    (
      ap (λ i. main r.suites (i ∷ [])) shape ∙ run (to_upper c) (same ∙ ap to_lower (sym shape)),
      ap (λ i. main r.suites (i ∷ [])) small
          ∙ run (lower (to_upper c)) (
              ap (λ u. to_lower (prettify u)) (sym small ∙ ap to_lower shape)
              ∙ same_small
              ∙ ap to_lower (sym shape)),
    )

-- The first suite that is an exact match.
abbrev pub first_exact : Str → List Suite → Option Suite
first_exact low [] = none
first_exact low (s ∷ rest) = if is_exact low s then some s else first_exact low rest

abbrev pub expected : Str → List Suite → Option Suite → Action
expected word members (some s) = run_one s
expected word members none = matched word members

choose_lem :
    (req low : Str) (found xs : List Suite)
    → choose req low found xs ≡ expected req (found ++ in_category low xs) (first_exact low xs)
unfolding choose in_category
choose_lem req low found [] = ap (matched req) (sym (append-nil found))
choose_lem req low found (x ∷ xs) = elim (Bool-cases (str_eq (to_lower x.category) low)) [
  | inl e ↦ ground (
    arith,
    e,
    choose_lem req low (found ++ x ∷ []) xs,
    append_assoc found (x ∷ []) (in_category low xs),
  )
  | inr e ↦ ground (arith, e, choose_lem req low found xs)
]

-- `main` on a word that is no option: it runs the first suite whose name or id is the word, without
-- regard to case; without one, all suites of the category of that name, in order; and reports an
-- unknown suite when there are none.
pub main_lem :
    (suites : List Suite) (word : Str) (rest : List Str)
    → is_help word ≡ false
    → str_eq word list_word ≡ false
    → main suites (word ∷ rest)
      ≡ expected word
          (in_category (to_lower (prettify word)) suites)
          (first_exact (to_lower (prettify word)) suites)
unfolding main
main_lem suites word rest h l =
    let chosen = choose_lem word (to_lower (prettify word)) [] suites in
    ground (arith, h, l, chosen)
