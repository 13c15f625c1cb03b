-- ===== src/Suites/Listing/Categories.antt =====
-- The groups of a listing, and the functions that a run calls.
use thread_pool_pro.Base.{
  ℕ, ◌≡◌, ◌∙◌, refl, ap, sym, subst, Bool, false, List, [], ◌∷◌, ◌++◌, map, append_assoc,
  append-nil, arith, if◌then◌else◌,
}
use thread_pool_pro.Regression.{Str}
use thread_pool_pro.Regression.Methods.{str_eq, has_name}
use thread_pool_pro.Suites.{Suite}
use thread_pool_pro.Suites.Listing.{
  Grouped, add_grouped, group_from, categories_from, Event, prints, calls, run_loop, run_suites,
}

abbrev pub categories_of : List Grouped → List Str
categories_of gs = map (λ g. g.category) gs

abbrev pub suites_of : List Grouped → List Suite
suites_of [] = []
suites_of (g ∷ gs) = g.suites ++ suites_of gs

-- Whether a list of categories ends with `c`.
abbrev pub ends_with : Str → List Str → Bool
ends_with c [] = false
ends_with c (x ∷ []) = str_eq x c
ends_with c (x ∷ y ∷ rest) = ends_with c (y ∷ rest)

-- A category that was seen, in the list `seen`, does not come back after another one.
abbrev pub Together : List Str → List Suite → Type 0
Together seen [] = Unit {0}
Together seen (s ∷ rest) =
    (has_name s.category seen ≡ ends_with s.category seen)
    × Together (if has_name s.category seen then seen else seen ++ s.category ∷ []) rest

categories_of-add :
    (gs : List Grouped) (s : Suite)
    → categories_of (add_grouped gs s) ≡ (
        if ends_with s.category (categories_of gs)
        then categories_of gs
        else categories_of gs ++ s.category ∷ [])
unfolding add_grouped
categories_of-add [] s = refl
categories_of-add (g ∷ []) s = ground arith
categories_of-add (g ∷ h ∷ gs) s = ground (arith, categories_of-add (h ∷ gs) s)

suites_of-add :
    (gs : List Grouped) (s : Suite) → suites_of (add_grouped gs s) ≡ suites_of gs ++ s ∷ []
unfolding add_grouped
suites_of-add [] s = refl
suites_of-add (g ∷ []) s = ground (arith, append-nil g.suites, append-nil (g.suites ++ s ∷ []))
suites_of-add (g ∷ h ∷ gs) s =
    ap (λ r. g.suites ++ r) (suites_of-add (h ∷ gs) s)
    ∙ sym (append_assoc g.suites (suites_of (h ∷ gs)) (s ∷ []))

suites_of-group :
    (gs : List Grouped) (xs : List Suite) → suites_of (group_from gs xs) ≡ suites_of gs ++ xs
unfolding group_from
suites_of-group gs [] = sym (append-nil (suites_of gs))
suites_of-group gs (s ∷ rest) =
    suites_of-group (add_grouped gs s) rest
    ∙ ap (λ r. r ++ rest) (suites_of-add gs s)
    ∙ append_assoc (suites_of gs) (s ∷ []) rest

categories_of-group :
    (gs : List Grouped) (xs : List Suite)
    → Together (categories_of gs) xs
    → categories_of (group_from gs xs) ≡ categories_from (categories_of gs) xs
unfolding group_from categories_from
categories_of-group gs [] t = refl
categories_of-group gs (s ∷ rest) (same, t) =
    let step : categories_of (add_grouped gs s) ≡ (
        if has_name s.category (categories_of gs)
        then categories_of gs
        else categories_of gs ++ s.category ∷ []) =
      categories_of-add gs s
      ∙ ap (λ b. if b then categories_of gs else categories_of gs ++ s.category ∷ []) (sym same) in
    categories_of-group (add_grouped gs s) rest (subst (λ c. Together c rest) (sym step) t)
    ∙ ap (λ c. categories_from c rest) step

-- The listing groups the suites in their order. When each category is registered in one go, it has one
-- group for each of the categories that a run of all suites counts.
pub group_from_lem :
    (suites : List Suite)
    → Together [] suites
    → (suites_of (group_from [] suites) ≡ suites)
      × (categories_of (group_from [] suites) ≡ categories_from [] suites)
group_from_lem suites t = (suites_of-group [] suites, categories_of-group [] suites t)

abbrev pub called : List Event → List ℕ
called [] = []
called (prints ls ∷ es) = called es
called (calls f ∷ es) = f ∷ called es

called-loop :
    (suites : List Suite) (after : List Event)
    → called (run_loop suites after) ≡ map (λ s. s.run) suites ++ called after
unfolding run_loop
called-loop [] after = refl
called-loop (s ∷ rest) after = ap (λ fs. s.run ∷ fs) (called-loop rest after)

-- `runSuites` calls the function of each suite once, in order.
pub called-run_suites :
    (suites : List Suite) (categories : ℕ) (time : Str)
    → called (run_suites suites categories time) ≡ map (λ s. s.run) suites
unfolding run_suites
called-run_suites suites categories time = called-loop suites _ ∙ append-nil _
