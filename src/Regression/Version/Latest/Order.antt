-- ===== src/Regression/Version/Latest/Order.antt =====
-- The order of versions is a strict order, in which two versions that are not ordered are as new
-- as each other.
use thread_pool_pro.Base.{◌≡◌, refl, Bool, true, false, [], ◌∷◌, arith}
use thread_pool_pro.Regression.{Str}
use thread_pool_pro.Regression.Text.{ℤ, pos, negsuc}
use thread_pool_pro.Regression.Version.{Baseline}
use thread_pool_pro.Regression.Version.Latest.{less_int, less_str, lexicographic, older}

less_str_trans : (r s t : Str) → less_str r s ≡ true → less_str s t ≡ true → less_str r t ≡ true
less_str_trans r s [] e f = absurd (ground arith)
less_str_trans r [] (d ∷ t) e f = absurd (ground arith)
less_str_trans [] (c ∷ s) (d ∷ t) e f = refl
less_str_trans (b ∷ r) (c ∷ s) (d ∷ t) e f = ground (arith, less_str_trans r s t)

-- What a key of the comparison has to satisfy, for three versions.
abbrev Chained : (ab ba bc cb ac ca : Bool) → Type 0
Chained ab ba bc cb ac ca =
    (ab ≡ true → bc ≡ true → ac ≡ true)
    × (ab ≡ true → cb ≡ false → ac ≡ true)
    × (ba ≡ false → bc ≡ true → ac ≡ true)
    × (ba ≡ false → cb ≡ false → ca ≡ false)

int-Chained :
    (a b c : ℤ)
    → Chained
        (less_int a b)
        (less_int b a)
        (less_int b c)
        (less_int c b)
        (less_int a c)
        (less_int c a)
int-Chained (pos a) (pos b) (pos c) =
    (λ e f. ground arith, λ e f. ground arith, λ e f. ground arith, λ e f. ground arith)
int-Chained (pos a) (pos b) (negsuc c) =
    (λ e f. ground arith, λ e f. ground arith, λ e f. ground arith, λ e f. ground arith)
int-Chained (pos a) (negsuc b) (pos c) =
    (λ e f. ground arith, λ e f. ground arith, λ e f. ground arith, λ e f. ground arith)
int-Chained (pos a) (negsuc b) (negsuc c) =
    (λ e f. ground arith, λ e f. ground arith, λ e f. ground arith, λ e f. ground arith)
int-Chained (negsuc a) (pos b) (pos c) =
    (λ e f. ground arith, λ e f. ground arith, λ e f. ground arith, λ e f. ground arith)
int-Chained (negsuc a) (pos b) (negsuc c) =
    (λ e f. ground arith, λ e f. ground arith, λ e f. ground arith, λ e f. ground arith)
int-Chained (negsuc a) (negsuc b) (pos c) =
    (λ e f. ground arith, λ e f. ground arith, λ e f. ground arith, λ e f. ground arith)
int-Chained (negsuc a) (negsuc b) (negsuc c) =
    (λ e f. ground arith, λ e f. ground arith, λ e f. ground arith, λ e f. ground arith)

lexicographic_trans :
    (ab ba bc cb ac ca r s t : Bool)
    → Chained ab ba bc cb ac ca
    → (r ≡ true → s ≡ true → t ≡ true)
    → lexicographic ab ba r ≡ true
    → lexicographic bc cb s ≡ true
    → lexicographic ac ca t ≡ true
lexicographic_trans true ba true cb ac ca r s t (f, g, h, k) rest e d = ground (arith, f refl refl)
lexicographic_trans true ba false true ac ca r s t (f, g, h, k) rest e d = absurd (ground arith)
lexicographic_trans true ba false false ac ca r s t (f, g, h, k) rest e d =
    ground (arith, g refl refl)
lexicographic_trans false true bc cb ac ca r s t (f, g, h, k) rest e d = absurd (ground arith)
lexicographic_trans false false true cb ac ca r s t (f, g, h, k) rest e d =
    ground (arith, h refl refl)
lexicographic_trans false false false true ac ca r s t (f, g, h, k) rest e d = absurd (ground arith)
lexicographic_trans false false false false ac ca r s t (f, g, h, k) rest e d =
    ground (arith, k refl refl, rest e d)

-- The same for "not newer than".
lexicographic_le :
    (ab ba bc cb ac ca r s t : Bool)
    → Chained ab ba bc cb ac ca
    → (r ≡ false → s ≡ false → t ≡ false)
    → lexicographic ba ab r ≡ false
    → lexicographic cb bc s ≡ false
    → lexicographic ca ac t ≡ false
lexicographic_le ab true bc cb ac ca r s t (f, g, h, k) rest e d = absurd (ground arith)
lexicographic_le ab false bc true ac ca r s t (f, g, h, k) rest e d = absurd (ground arith)
lexicographic_le true false bc false ac ca r s t (f, g, h, k) rest e d =
    ground (arith, g refl refl, k refl refl)
lexicographic_le false false true false ac ca r s t (f, g, h, k) rest e d =
    ground (arith, h refl refl, k refl refl)
lexicographic_le false false false false true ca r s t (f, g, h, k) rest e d =
    ground (arith, k refl refl)
lexicographic_le false false false false false ca r s t (f, g, h, k) rest e d =
    ground (arith, k refl refl, rest e d)

less_str_le : (r s t : Str) → less_str s r ≡ false → less_str t s ≡ false → less_str t r ≡ false
less_str_le [] s t e d = refl
less_str_le (b ∷ r) [] t e d = absurd (ground arith)
less_str_le (b ∷ r) (c ∷ s) [] e d = absurd (ground arith)
less_str_le (b ∷ r) (c ∷ s) (a ∷ t) e d = ground (arith, less_str_le r s t)

pub older_le : (a b c : Baseline) → older b a ≡ false → older c b ≡ false → older c a ≡ false
unfolding older
older_le a b c = lexicographic_le _ _ _ _ _ _ _ _ _ (int-Chained a.major b.major c.major) (
    lexicographic_le _ _ _ _ _ _ _ _ _ (int-Chained a.minor b.minor c.minor) (
      lexicographic_le _ _ _ _ _ _ _ _ _ (int-Chained a.patch b.patch c.patch)
        (less_str_le a.name b.name c.name)))

pub older_trans : (a b c : Baseline) → older a b ≡ true → older b c ≡ true → older a c ≡ true
unfolding older
older_trans a b c = lexicographic_trans _ _ _ _ _ _ _ _ _ (int-Chained a.major b.major c.major) (
    lexicographic_trans _ _ _ _ _ _ _ _ _ (int-Chained a.minor b.minor c.minor) (
      lexicographic_trans _ _ _ _ _ _ _ _ _ (int-Chained a.patch b.patch c.patch)
        (less_str_trans a.name b.name c.name)))

less_str_irreflexive : (s : Str) → less_str s s ≡ false
less_str_irreflexive [] = refl
less_str_irreflexive (c ∷ s) = ground (arith, less_str_irreflexive s)

less_int_irreflexive : (a : ℤ) → less_int a a ≡ false
less_int_irreflexive (pos n) = ground arith
less_int_irreflexive (negsuc n) = ground arith

pub older_irreflexive : (a : Baseline) → older a a ≡ false
unfolding older
older_irreflexive a = ground (
  arith,
  less_int_irreflexive a.major,
  less_int_irreflexive a.minor,
  less_int_irreflexive a.patch,
  less_str_irreflexive a.name,
)
