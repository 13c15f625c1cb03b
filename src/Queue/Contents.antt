-- ===== src/Queue/Contents.antt =====
-- The tasks that a queue holds, as a list.
use thread_pool_pro.Base.{
  ℕ, zero, suc, ◌+◌, ◌-◌, ◌≤◌, ◌<◌, ◌≡◌, ◌∙◌, refl, ap, Option, none, some, List, [], ◌∷◌, ◌++◌,
  arith, length,
}
use thread_pool_pro.Buffer.{at}
use thread_pool_pro.Queue.{Node, holds, Queue}

abbrev pub task_of : Node → Option ℕ
task_of (holds t) = some t
task_of _ = none

abbrev pub task_in : (ℕ → Node) → Option ℕ → Option ℕ
task_in nodes none = none
task_in nodes (some x) = task_of (nodes x)

-- The task at the index `i`.
abbrev pub cell : Queue → ℕ → Option ℕ
cell q i = task_in q.nodes (at q.buffer i)

abbrev pub prepend : Option ℕ → List ℕ → List ℕ
prepend none ts = ts
prepend (some t) ts = t ∷ ts

-- The tasks at the indices from `i`, `n` of them.
unfoldable pub listed : (ℕ → Option ℕ) → ℕ → ℕ → List ℕ
listed f zero i = []
listed f (suc n) i = prepend (f i) (listed f n (i + 1))

unfoldable pub contents : Queue → List ℕ
contents q = listed (cell q) (q.bottom - q.top) q.top

pub listed-cong :
    (f g : ℕ → Option ℕ) (n i : ℕ)
    → ((j : ℕ) → i ≤ j → j < i + n → f j ≡ g j)
    → listed f n i ≡ listed g n i
unfolding listed
listed-cong f g zero i h = refl
listed-cong f g (suc n) i h =
    ap (λ p. prepend p (listed f n (i + 1))) (h i (omega arith) (omega arith))
    ∙ ap (prepend (g i)) (listed-cong f g n (i + 1) (λ j a b. h j (omega arith) (omega arith)))

prepend-append : (p : Option ℕ) (xs ys : List ℕ) → prepend p (xs ++ ys) ≡ prepend p xs ++ ys
prepend-append none xs ys = refl
prepend-append (some t) xs ys = refl

pub listed-last :
    (f : ℕ → Option ℕ) (n i t : ℕ)
    → f (i + n) ≡ some t
    → listed f (suc n) i ≡ listed f n i ++ t ∷ []
unfolding listed
listed-last f zero i t e = ap (λ p. prepend p []) (ap f (omega arith) ∙ e)
listed-last f (suc n) i t e =
    ap (prepend (f i)) (listed-last f n (i + 1) t (ap f (omega arith) ∙ e))
    ∙ prepend-append (f i) (listed f n (i + 1)) (t ∷ [])

pub listed-first :
    (f : ℕ → Option ℕ) (n i t : ℕ) → f i ≡ some t → listed f (suc n) i ≡ t ∷ listed f n (i + 1)
unfolding listed
listed-first f n i t e = ap (λ p. prepend p (listed f n (i + 1))) e

pub listed-length :
    (f : ℕ → Option ℕ) (n i : ℕ)
    → ((j : ℕ) → i ≤ j → j < i + n → (t : ℕ) × (f j ≡ some t))
    → length (listed f n i) ≡ n
unfolding listed
listed-length f zero i h = refl
listed-length f (suc n) i h =
    let (t, e) = h i (omega arith) (omega arith) in
    ap (λ p. length (prepend p (listed f n (i + 1)))) e
    ∙ ap suc (listed-length f n (i + 1) (λ j a b. h j (omega arith) (omega arith)))
