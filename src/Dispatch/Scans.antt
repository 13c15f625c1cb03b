-- ===== src/Dispatch/Scans.antt =====
-- What the rounds of the two loops find.
use thread_pool_pro.Base.{
  ℕ, zero, suc, ◌+◌, ◌≤◌, ◌<◌, ◌≡◌, ◌⊎◌, inl, inr, refl, ap, sym, subst, List, [], ◌∷◌, arith,
  length, count, is_that, update, sum_below-update, count-append, ℕ_discrete, ◌==◌, Bool-cases,
}
use thread_pool_pro.Pool.{decrement}
use thread_pool_pro.Queue.{Queue, Taken, size}
use thread_pool_pro.Queue.Contents.{contents}
use thread_pool_pro.Queue.Refinement.{Steals, Pops, steal_lem, size_lem}
use thread_pool_pro.Dispatch.{
  Store, Fetched, missed, took, or_else, settle, try_steal, try_shard, scan,
}
use thread_pool_pro.Dispatch.Stores.{
  IsShard, IsStore, held, in_queue, in_shard, update-same, queue-IsStore, shard-IsStore,
}

-- A search either changes nothing, and then `None` holds, or takes one task out of the store.
pub data Searched (s : Store) (None : Type 0) : Fetched → Type 0 where
  found_none : None → Searched s None (missed s)
  found :
      (t : ℕ) (s' : Store)
      → IsStore s'
      → ((x : ℕ) → held x s ≡ is_that x t + held x s')
      → Searched s None (took t s')

pub Searched-map :
    {s : Store} {A B : Type 0} {f : Fetched} → (A → B) → Searched s A f → Searched s B f
Searched-map g (found_none a) = found_none (g a)
Searched-map g (found t s' w h) = found t s' w h

-- Two searches, the second of them after a miss.
pub or_else-Searched :
    {s : Store} {A B : Type 0} (f : Fetched) (next : Store → Fetched)
    → Searched s A f
    → Searched s B (next s)
    → Searched s (A × B) (or_else f next)
or_else-Searched f next (found t s' w h) b = found t s' w h
or_else-Searched f next (found_none a) b = Searched-map (λ b. (a, b)) b

List-cases : (ts : List ℕ) → (ts ≡ []) ⊎ ((t : ℕ) × (rest : List ℕ) × (ts ≡ t ∷ rest))
List-cases [] = inl refl
List-cases (t ∷ rest) = inr (t, rest, refl)

no_length : (ts : List ℕ) → length ts ≡ 0 → ts ≡ []
no_length [] e = refl
no_length (t ∷ ts) e = absurd (omega arith)

module _ (s : Store) (w : IsStore s) (v : ℕ) where
  -- A queue that is written back as it was.
  pub unchanged : record s { queues = update s.queues v (s.queues v) } ≡ s
  unchanged = ap (λ f. record s { queues = f }) (update-same s.queues v)

  -- One task less in the queue of worker `v`.
  taken_from :
      (q : Queue) (t : ℕ)
      → v < s.workers
      → ((x : ℕ) → in_queue x (s.queues v) ≡ is_that x t + in_queue x q)
      → (x : ℕ) → held x s ≡ is_that x t + held x (record s { queues = update s.queues v q })
  taken_from q t b h x = omega (arith, h x, sum_below-update (in_queue x) s.workers s.queues v q b)

  settle-Steals :
      {r : Taken}
      → v < s.workers
      → Steals (s.queues v) r
      → Searched s (contents (s.queues v) ≡ []) (settle s v r)
  settle-Steals b (Steals.none_left e) =
      subst (λ z. Searched s (contents (s.queues v) ≡ []) (missed z)) (sym unchanged) (found_none e)
  settle-Steals b (Steals.first_taken t q k e) =
      found t _ (queue-IsStore s w v q k) (taken_from q t b (λ x. ap (count x) e))

  pub settle-Pops :
      {r : Taken}
      → v < s.workers
      → Pops (s.queues v) r
      → Searched s (contents (s.queues v) ≡ []) (settle s v r)
  settle-Pops b (Pops.none_left e) =
      subst (λ z. Searched s (contents (s.queues v) ≡ []) (missed z)) (sym unchanged) (found_none e)
  settle-Pops b (Pops.last_taken t q k e) =
      found t _ (queue-IsStore s w v q k) (
        taken_from q t b (λ x. omega (arith, ap (count x) e, count-append x (contents q) (t ∷ []))))

  pub try_steal-Searched : v < s.workers → Searched s (contents (s.queues v) ≡ []) (try_steal s v)
  unfolding try_steal
  try_steal-Searched b = elim (Bool-cases (size (s.queues v) == 0)) [
    | inl e ↦
        subst (Searched s _) (ground (arith, e))
          (found_none (no_length _ (ground (arith, e, size_lem (s.queues v) (w.queue v b)))))
    | inr e ↦
        subst (Searched s _) (ground (arith, e))
          (settle-Steals b (steal_lem (s.queues v) (w.queue v b)))
  ]

  -- One task less in shard `v`.
  shortened : ℕ → List ℕ → Store
  shortened t rest = record s {
    shard = update s.shard v (record { size = decrement (s.shard v).size; tasks = rest });
  }

  first_of_shard :
      (t : ℕ) (rest : List ℕ)
      → v < s.shards
      → (s.shard v).tasks ≡ t ∷ rest
      → Searched s ((s.shard v).tasks ≡ []) (took t (shortened t rest))
  unfolding shortened
  first_of_shard t rest b e =
      let n = w.shard v b in
      let fewer : IsShard (record { size = decrement (s.shard v).size; tasks = rest }) =
        ground (arith, e, n.0, n.1) in
      found t _ (shard-IsStore s w v _ fewer) λ x. omega (
        arith,
        ap (count x) e,
        sum_below-update (in_shard x) s.shards s.shard v
            (record { size = decrement (s.shard v).size; tasks = rest }) b,
      )

  pub try_shard-Searched : v < s.shards → Searched s ((s.shard v).tasks ≡ []) (try_shard s v)
  unfolding try_shard shortened
  try_shard-Searched b = elim (List-cases (s.shard v).tasks) [
    | inl e ↦
        subst (Searched s ((s.shard v).tasks ≡ [])) (ground (arith, e, (w.shard v b).0))
          (found_none e)
    | inr (t, rest, e) ↦
        subst (Searched s ((s.shard v).tasks ≡ [])) (ground (arith, e, (w.shard v b).0))
          (first_of_shard t rest b e)
  ]

-- The rounds of a loop.
module _ (try : Store → ℕ → Fetched) (Empty : Store → ℕ → Type 0) (s : Store) (probe : ℕ → ℕ) where
  pub scan-Searched :
      (rounds i : ℕ)
      → ((j : ℕ) → i ≤ j → j < i + rounds → Searched s (Empty s (probe j)) (try s (probe j)))
      → Searched s
          ((j : ℕ) → i ≤ j → j < i + rounds → Empty s (probe j))
          (scan try probe rounds i s)
  unfolding scan
  scan-Searched zero i h = found_none (λ j a b. absurd (omega arith))
  scan-Searched (suc rounds) i h =
      Searched-map
        (λ (a, b) j c d. elim (ℕ_discrete i j) [
          | yes e ↦ subst (λ k. Empty s (probe k)) e a
          | no e ↦ b j (omega arith) (omega arith)
        ])
        (or_else-Searched (try s (probe i)) (scan try probe rounds (i + 1))
          (h i (omega arith) (omega arith))
          (scan-Searched rounds (i + 1) (λ j a b. h j (omega arith) (omega arith))))
