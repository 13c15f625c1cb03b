-- ===== src/Deque/Span.antt =====
-- How often a task stands in a window of logical indices.
use thread_pool_pro.Base.{
  ℕ, zero, suc, ◌+◌, ◌-◌, ◌≤◌, ◌<◌, ◌≡◌, refl, ap, ◌∙◌, Option, none, some, arith, ◌==◌,
  if◌then◌else◌,
}

abbrev pub weight : ℕ → Option ℕ → ℕ
weight x none = 0
weight x (some y) = if y == x then 1 else 0

module _ (x : ℕ) where
  -- The occurrences of `x` at the indices from `lo`, `n` of them.
  pub span : (ℕ → Option ℕ) → ℕ → ℕ → ℕ
  span f lo zero = 0
  span f lo (suc n) = weight x (f lo) + span f (lo + 1) n

  pub span-none : (f : ℕ → Option ℕ) (lo : ℕ) → span f lo 0 ≡ 0
  unfolding span
  span-none f lo = refl

  pub span-cong :
      (f g : ℕ → Option ℕ) (lo n : ℕ)
      → ((i : ℕ) → lo ≤ i → i < lo + n → f i ≡ g i)
      → span f lo n ≡ span g lo n
  unfolding span
  span-cong f g lo zero h = refl
  span-cong f g lo (suc n) h = omega (
    arith,
    ap (weight x) (h lo (omega arith) (omega arith)),
    span-cong f g (lo + 1) n (λ i p q. h i (omega arith) (omega arith)),
  )

  -- A window grows by one at its upper end.
  pub span-last :
      (f : ℕ → Option ℕ) (lo n hi : ℕ)
      → lo + n ≡ hi
      → span f lo (suc n) ≡ span f lo n + weight x (f hi)
  unfolding span
  span-last f lo zero hi e =
      let e' : lo ≡ hi = omega arith in omega (arith, ap (λ i. weight x (f i)) e')
  span-last f lo (suc n) hi e = omega (arith, span-last f (lo + 1) n hi (omega arith))

  pub span-extend :
      (f : ℕ → Option ℕ) (lo hi : ℕ)
      → lo ≤ hi
      → span f lo (hi + 1 - lo) ≡ span f lo (hi - lo) + weight x (f hi)
  span-extend f lo hi h =
      let e : hi + 1 - lo ≡ suc (hi - lo) = omega arith in
      ap (span f lo) e ∙ span-last f lo (hi - lo) hi (omega arith)

  -- The first index leaves a window that is not empty.
  pub span-drop :
      (f : ℕ → Option ℕ) (lo hi : ℕ)
      → lo < hi
      → span f lo (hi - lo) ≡ weight x (f lo) + span f (lo + 1) (hi - (lo + 1))
  unfolding span
  span-drop f lo hi h = let e : hi - lo ≡ suc (hi - (lo + 1)) = omega arith in ap (span f lo) e
