-- ===== src/Google/Names.antt =====
-- The groups of names, and the values that are compared.
use thread_pool_pro.Base.{ℕ, ◌≡◌, ◌∙◌, refl, ap, false, List, [], ◌∷◌, ◌++◌, arith, ◌||◌}
use thread_pool_pro.Regression.{Str}
use thread_pool_pro.Google.{
  Benchmark, before_first, has_char, before_last, base_name, get_cns, filter_by_name,
}

has_char-append : (c : ℕ) (s t : Str) → has_char c (s ++ t) ≡ (has_char c s || has_char c t)
has_char-append c [] t = refl
has_char-append c (d ∷ s) t = ground (arith, has_char-append c s t)

before_first-append : (c : ℕ) (s t : Str) → has_char c s ≡ false → before_first c (s ++ c ∷ t) ≡ s
unfolding before_first
before_first-append c [] t h = ground arith
before_first-append c (d ∷ s) t h = ground (arith, h, before_first-append c s t)

before_first-none : (c : ℕ) (s : Str) → has_char c s ≡ false → before_first c s ≡ s
unfolding before_first
before_first-none c [] h = refl
before_first-none c (d ∷ s) h = ground (arith, h, before_first-none c s)

before_last-append : (c : ℕ) (s t : Str) → has_char c t ≡ false → before_last c (s ++ c ∷ t) ≡ s
unfolding before_last
before_last-append c [] t h = ground (arith, h)
before_last-append c (d ∷ s) t h =
    ground (arith, has_char-append c s (c ∷ t), before_last-append c s t h)

-- A name of a method, a library and arguments groups as its method, and so does one without arguments:
-- when neither the method nor the library has a slash in its name, and the library has no underscore.
pub base_name-method :
    (method library args : Str)
    → has_char b'/' method ≡ false
    → has_char b'/' library ≡ false
    → has_char b'_' library ≡ false
    → (base_name (method ++ b'_' ∷ library) ≡ method)
      × (base_name ((method ++ b'_' ∷ library) ++ b'/' ∷ args) ≡ method)
unfolding base_name
base_name-method method library args m l u =
    let clear : has_char b'/' (method ++ b'_' ∷ library) ≡ false =
      ground (arith, has_char-append b'/' method (b'_' ∷ library), m, l) in
    let group = before_last-append b'_' method library u in
    (
      ap (before_last b'_') (before_first-none b'/' (method ++ b'_' ∷ library) clear) ∙ group,
      ap (before_last b'_') (before_first-append b'/' (method ++ b'_' ∷ library) args clear)
          ∙ group,
    )

-- A filter by name does not change what is found for that name.
pub get_cns-filter_by_name :
    {D : Type 0} (zero_double : D) (rs : List (Benchmark D)) (name : Str)
    → get_cns zero_double (filter_by_name rs name) name ≡ get_cns zero_double rs name
unfolding get_cns filter_by_name
get_cns-filter_by_name zero_double [] name = refl
get_cns-filter_by_name zero_double (r ∷ rest) name =
    ground (arith, get_cns-filter_by_name zero_double rest name)
