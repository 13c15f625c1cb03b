-- ===== src/Fetch/Victims.antt =====
-- Which workers and shards the loops of fetchTask and fetchTaskExternal reach.
use native.Mathlib.Nat.{mod-lt, mod-eq_of_lt, div-add-mod}
use thread_pool_pro.Base.{
  ℕ, suc, ◌+◌, ◌-◌, ◌/◌, ◌%◌, ◌^◌, ◌<◌, ◌≡◌, ◌≢◌, ◌∙◌, refl, ap, sym, arith, dec_lt, mod-ne,
  mod_unique,
}
use thread_pool_pro.Buffer.{size_of}
use thread_pool_pro.Fetch.{start_offset, victim, victim_external, shard_at}

-- A full turn from `a` reaches every index below `n`.
turn_reaches : (n a w : ℕ) → w < n → (i : ℕ) × (i < n) × ((a + i) % n ≡ w)
turn_reaches n a w h = elim (dec_lt w (a % n)) [
  | yes p ↦ (
    w + n - a % n,
    omega arith,
    mod_unique _ (suc (a / n)) w n (omega (arith, div-add-mod a n, mod-lt a {m = n} (omega arith)))
        h,
  )
  | no p ↦ (w - a % n, omega arith, mod_unique _ (a / n) w n (omega (arith, div-add-mod a n)) h)
]

-- Two rounds of one turn do not meet.
turn_once : (n a i j : ℕ) → i < n → j < n → (a + i) % n ≡ (a + j) % n → i ≡ j
turn_once n a i j h k e = elim (dec_lt i j) [
  | yes p ↦ absurd (mod-ne (a + i) (a + j) n (omega arith) (omega arith) e)
  | no p ↦ elim (dec_lt j i) [
    | yes q ↦ absurd (mod-ne (a + j) (a + i) n (omega arith) (omega arith) (sym e))
    | no q ↦ omega arith
  ]
]

-- The sums of the source stay below 2 ^ 64.
in_size : (n x y : ℕ) → x ≡ y → y < 2 ^ 64 → size_of x % n ≡ y % n
in_size n x y e h = let same : size_of x ≡ y = omega arith in ap (λ t. t % n) same

-- One round of a turn of the source: index `w` is probed in exactly one round.
abbrev pub ProbedOnce : ℕ → (ℕ → ℕ) → ℕ → Type 0
ProbedOnce n probe w = (i : ℕ) × (i < n) × (probe i ≡ w) × ((j : ℕ) → j < n → probe j ≡ w → j ≡ i)

probed_once : (n a w : ℕ) → a < n → n < 2 ^ 63 → w < n → ProbedOnce n (λ i. size_of (a + i) % n) w
probed_once n a w h b l =
    let (i, below, hit) = turn_reaches n a w l in
    (
      i,
      below,
      in_size n (a + i) (a + i) refl (omega arith) ∙ hit,
      λ j lj e.
          turn_once n a j i lj below
            (sym (in_size n (a + j) (a + j) refl (omega arith)) ∙ e ∙ sym hit),
    )

-- With fewer than 2 ^ 63 shards or workers, and a start below their number: each shard is probed in
-- exactly one round of fetchTask, and each worker in exactly one round of fetchTaskExternal.
pub probes-ProbedOnce :
    (n start w : ℕ)
    → start < n
    → n < 2 ^ 63
    → w < n
    → ProbedOnce n (shard_at n start) w × ProbedOnce n (victim_external n start) w
unfolding shard_at victim_external
probes-ProbedOnce n start w h b l = (probed_once n start w h b l, probed_once n start w h b l)

pub victim-below : (n index offset i : ℕ) → 0 < n → victim n index offset i < n
unfolding victim
victim-below n index offset i h = mod-lt (size_of (index + offset + i)) h

pub victim_external-below : (n offset i : ℕ) → 0 < n → victim_external n offset i < n
unfolding victim_external
victim_external-below n offset i h = mod-lt (size_of (offset + i)) h

pub shard_at-below : (n index i : ℕ) → 0 < n → shard_at n index i < n
unfolding shard_at
shard_at-below n index i h = mod-lt (size_of (index + i)) h

-- With fewer than 2 ^ 62 workers and the offset 1, the rounds of fetchTask reach every other worker,
-- and never the caller.
pub victim-others :
    (n index w : ℕ)
    → index < n
    → n < 2 ^ 62
    → w < n
    → w ≢ index
    → ((i : ℕ) × (i < n - 1) × (victim n index 1 i ≡ w))
      × ((i : ℕ) → i < n - 1 → victim n index 1 i ≢ index)
unfolding victim
victim-others n index w h b l d =
    let (i, below, hit) = turn_reaches n (index + 1) w l in
    (
      (
        i,
        omega (arith, λ (e : i ≡ n - 1). d (sym hit ∙ wraps i e)),
        in_size n (index + 1 + i) (index + 1 + i) refl (omega arith) ∙ hit,
      ),
      λ j lj e.
          mod-ne index (index + 1 + j) n (omega arith) (omega arith)
            (mod-eq_of_lt h ∙ sym e ∙ in_size n (index + 1 + j) (index + 1 + j) refl (omega arith)),
    )
  where
    wraps : (i : ℕ) → i ≡ n - 1 → (index + 1 + i) % n ≡ index
    wraps i e = mod_unique (index + 1 + i) 1 index n (omega arith) h

-- With fewer than 2 ^ 62 workers, the rounds of fetchTask reach each worker but one.
pub victim_reaches :
    (n index r w : ℕ)
    → index < n
    → n < 2 ^ 62
    → r < n - 1
    → w < n
    → w ≢ (index + r) % n
    → (i : ℕ) × (i < n - 1) × (victim n index (start_offset r) i ≡ w)
unfolding victim start_offset
victim_reaches n index r w h b l lw d =
    let (i, below, hit) = turn_reaches n (index + 1 + r) w lw in
    (
      i,
      omega (arith, λ (e : i ≡ n - 1). d (sym hit ∙ ap (λ k. k % n) (omega arith) ∙ one_turn i e)),
      in_size n (index + size_of (1 + r) + i) (index + 1 + r + i) (omega arith) (omega arith) ∙ hit,
    )
  where
    one_turn : (i : ℕ) → i ≡ n - 1 → (index + r + n) % n ≡ (index + r) % n
    one_turn i e =
        mod_unique (index + r + n) (suc ((index + r) / n)) ((index + r) % n) n
          (omega (arith, div-add-mod (index + r) n)) (mod-lt (index + r) (omega arith))

-- With fewer than 2 ^ 62 workers, no round of fetchTask reaches that one.
pub victim-passes_over :
    (n index r : ℕ)
    → index < n
    → n < 2 ^ 62
    → r < n - 1
    → (i : ℕ) → i < n - 1
    → victim n index (start_offset r) i ≢ (index + r) % n
unfolding victim start_offset
victim-passes_over n index r h b l i li e =
    mod-ne (index + r) (index + 1 + r + i) n (omega arith) (omega arith) (
      sym e
      ∙ in_size n (index + size_of (1 + r) + i) (index + 1 + r + i) (omega arith) (omega arith))

-- With fewer than 2 ^ 62 workers and a larger offset that fetchTask can draw, a round probes the
-- caller itself, and one other worker is never probed.
pub victim_misses :
    (n index r : ℕ)
    → index < n
    → n < 2 ^ 62
    → 0 < r
    → r < n - 1
    → ((i : ℕ) × (i < n - 1) × (victim n index (start_offset r) i ≡ index))
      × ((w : ℕ) × (w < n)
          × (w ≢ index)
          × ((i : ℕ) → i < n - 1 → victim n index (start_offset r) i ≢ w))
unfolding victim start_offset
victim_misses n index r h b p l = (
  (
    n - 1 - r,
    omega arith,
    in_size n (index + size_of (1 + r) + (n - 1 - r)) (index + n) (omega arith) (omega arith)
        ∙ mod_unique (index + n) 1 index n (omega arith) h,
  ),
  (
    (index + r) % n,
    mod-lt (index + r) (omega arith),
    λ e. mod-ne index (index + r) n (omega arith) (omega arith) (mod-eq_of_lt h ∙ sym e),
    victim-passes_over n index r h b l,
  ),
)
