-- ===== src/Base/Lists.antt =====
-- Lists measured, indexed and counted by native numbers, under the library's names.
use Prim.Native.Nat.{ℕ, zero, suc, ◌+◌, ◌≤◌}
use mathlib.Core.Path.{◌≡◌, refl, ap}
use mathlib.Core.List.{List, [], ◌∷◌, ◌++◌}
use mathlib.Core.Option.{Option, none, some}
use native.Mathlib.Omega.{arith}
use thread_pool_pro.Base.Tests.{◌==◌, if◌then◌else◌}

module _ {ℓ} {A : Type ℓ} where
  abbrev pub length : List A → ℕ
  length [] = 0
  length (x ∷ xs) = suc (length xs)

  abbrev pub get_elem? : List A → ℕ → Option A
  get_elem? [] i = none
  get_elem? (x ∷ xs) zero = some x
  get_elem? (x ∷ xs) (suc i) = get_elem? xs i

  abbrev pub take : ℕ → List A → List A
  take zero s = []
  take (suc n) [] = []
  take (suc n) (x ∷ s) = x ∷ take n s

  abbrev pub drop : ℕ → List A → List A
  drop zero s = s
  drop (suc n) [] = []
  drop (suc n) (x ∷ s) = drop n s

  pub take-append : (s t : List A) → take (length s) (s ++ t) ≡ s
  take-append [] t = refl
  take-append (x ∷ s) t = ap (λ r. x ∷ r) (take-append s t)

  pub drop-append : (s t : List A) → drop (length s) (s ++ t) ≡ t
  drop-append [] t = refl
  drop-append (x ∷ s) t = drop-append s t

  pub append-nil : (s : List A) → s ++ [] ≡ s
  append-nil [] = refl
  append-nil (x ∷ s) = ap (λ r. x ∷ r) (append-nil s)

  pub append_assoc : (r s t : List A) → (r ++ s) ++ t ≡ r ++ (s ++ t)
  append_assoc [] s t = refl
  append_assoc (x ∷ r) s t = ap (λ u. x ∷ u) (append_assoc r s t)

  pub length-take_le : (n : ℕ) (s : List A) → length (take n s) ≤ n
  length-take_le zero s = omega arith
  length-take_le (suc n) [] = omega arith
  length-take_le (suc n) (x ∷ s) = omega (arith, length-take_le n s)

  pub length-append : (xs ys : List A) → length (xs ++ ys) ≡ length xs + length ys
  length-append [] ys = omega arith
  length-append (x ∷ xs) ys = omega (arith, length-append xs ys)

-- How often a number stands in a list.
abbrev pub count : ℕ → List ℕ → ℕ
count a [] = 0
count a (x ∷ xs) = (if x == a then 1 else 0) + count a xs

-- The sum of the weights of the numbers in a list.
abbrev pub total : (ℕ → ℕ) → List ℕ → ℕ
total v [] = 0
total v (x ∷ xs) = v x + total v xs

pub total-append : (v : ℕ → ℕ) (xs ys : List ℕ) → total v (xs ++ ys) ≡ total v xs + total v ys
total-append v [] ys = omega arith
total-append v (x ∷ xs) ys = omega (arith, total-append v xs ys)

-- The weight that makes `total` count `a`.
abbrev pub is_that : ℕ → ℕ → ℕ
is_that a x = if x == a then 1 else 0

pub count-total : (a : ℕ) (xs : List ℕ) → count a xs ≡ total (is_that a) xs
count-total a [] = refl
count-total a (x ∷ xs) = omega (arith, count-total a xs)

pub count-append : (a : ℕ) (xs ys : List ℕ) → count a (xs ++ ys) ≡ count a xs + count a ys
count-append a xs ys = omega (
  arith,
  count-total a xs,
  count-total a ys,
  count-total a (xs ++ ys),
  total-append (is_that a) xs ys,
)

pub length-total : (xs : List ℕ) → length xs ≡ total (λ x. 1) xs
length-total [] = refl
length-total (x ∷ xs) = omega (arith, length-total xs)
