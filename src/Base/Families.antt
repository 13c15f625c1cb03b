-- ===== src/Base/Families.antt =====
-- Families indexed by native numbers: a write at one index, and a weighted sum over the first `n`.
use Prim.Native.Nat.{ℕ, zero, suc, ◌+◌, ◌<◌, ◌≤◌}
use mathlib.Core.Path.{◌≡◌, refl, ap}
use native.Mathlib.Omega.{arith}
use native.Mathlib.Decide.{dec_lt, ℕ_discrete}
use thread_pool_pro.Base.Tests.{◌==◌, if◌then◌else◌}

-- The family `f` after the write `f[i] = a`.
abbrev pub update {ℓ} : {A : Type ℓ} → (ℕ → A) → ℕ → A → ℕ → A
update f i a j = if i == j then a else f j

module _ {ℓ} {A : Type ℓ} (w : A → ℕ) where
  pub sum_below : ℕ → (ℕ → A) → ℕ
  sum_below zero f = 0
  sum_below (suc n) f = w (f n) + sum_below n f

  pub sum_below-update_ge :
      (n : ℕ) (f : ℕ → A) (i : ℕ) (a : A) → n ≤ i → sum_below n (update f i a) ≡ sum_below n f
  unfolding sum_below
  sum_below-update_ge zero f i a h = refl
  sum_below-update_ge (suc n) f i a h = ground (arith, sum_below-update_ge n f i a)

  -- A write trades the old weight for the new one.
  pub sum_below-update :
      (n : ℕ) (f : ℕ → A) (i : ℕ) (a : A)
      → i < n
      → sum_below n (update f i a) + w (f i) ≡ sum_below n f + w a
  unfolding sum_below
  sum_below-update zero f i a h = absurd (omega arith)
  sum_below-update (suc n) f i a h = elim (dec_lt i n) [
    | yes p ↦ ground (arith, sum_below-update n f i a p)
    | no p ↦ ground (arith, sum_below-update_ge n f i a)
  ]

  pub le-sum_below : (n : ℕ) (f : ℕ → A) (i : ℕ) → i < n → w (f i) ≤ sum_below n f
  unfolding sum_below
  le-sum_below zero f i h = absurd (omega arith)
  le-sum_below (suc n) f i h = elim (ℕ_discrete i n) [
    | yes e ↦ omega (arith, ap (λ k. w (f k)) e)
    | no d ↦ omega (arith, le-sum_below n f i (omega arith))
  ]

  pub sum_below-le : ((a : A) → w a ≤ 1) → (n : ℕ) (f : ℕ → A) → sum_below n f ≤ n
  unfolding sum_below
  sum_below-le h zero f = omega arith
  sum_below-le h (suc n) f = omega (arith, h (f n), sum_below-le h n f)

  pub sum_below-zero_below :
      (n : ℕ) (f : ℕ → A) → ((i : ℕ) → i < n → w (f i) ≡ 0) → sum_below n f ≡ 0
  unfolding sum_below
  sum_below-zero_below zero f h = refl
  sum_below-zero_below (suc n) f h =
      omega (arith, h n (omega arith), sum_below-zero_below n f (λ i b. h i (omega arith)))

  pub sum_below-zero : (n : ℕ) (f : ℕ → A) → ((i : ℕ) → w (f i) ≡ 0) → sum_below n f ≡ 0
  unfolding sum_below
  sum_below-zero zero f h = refl
  sum_below-zero (suc n) f h = omega (arith, h n, sum_below-zero n f h)

-- A bound on the weights is one on their sums.
pub sum_below-le_add {ℓ} :
    {A : Type ℓ} (u v w : A → ℕ)
    → ((a : A) → u a ≤ v a + w a)
    → (n : ℕ) (f : ℕ → A) → sum_below u n f ≤ sum_below v n f + sum_below w n f
unfolding sum_below
sum_below-le_add u v w h zero f = omega arith
sum_below-le_add u v w h (suc n) f = omega (arith, h (f n), sum_below-le_add u v w h n f)
