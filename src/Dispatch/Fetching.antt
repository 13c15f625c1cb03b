-- ===== src/Dispatch/Fetching.antt =====
-- What `fetchTask` and `fetchTaskExternal` find.
use thread_pool_pro.Base.{
  ℕ, ◌+◌, ◌-◌, ◌%◌, ◌≤◌, ◌<◌, ◌≡◌, ◌≢◌, ◌↔◌, ◌⊎◌, inl, inr, refl, sym, subst, [], arith, ℕ_discrete,
  dec_lt,
}
use thread_pool_pro.Fetch.{start_offset, victim, victim_external, shard_at}
use thread_pool_pro.Fetch.Victims.{
  ProbedOnce, probes-ProbedOnce, victim-below, victim_external-below, shard_at-below,
  victim_reaches,
}
use thread_pool_pro.Queue.{pop_bottom}
use thread_pool_pro.Queue.Contents.{contents}
use thread_pool_pro.Queue.Refinement.{pop_bottom_lem}
use thread_pool_pro.Dispatch.{
  Store, Fetched, steal_others, missed, or_else, settle, try_steal, try_shard, scan, fetch_task,
  fetch_task_external,
}
use thread_pool_pro.Dispatch.Stores.{IsStore, held, AllEmpty, AllEmpty-held}
use thread_pool_pro.Dispatch.Scans.{
  Searched, found_none, found, Searched-map, or_else-Searched, settle-Pops, try_steal-Searched,
  try_shard-Searched, scan-Searched,
}

abbrev pub NoTasks : Store → ℕ → Type 0
NoTasks s v = contents (s.queues v) ≡ []

abbrev pub NoShard : Store → ℕ → Type 0
NoShard s v = (s.shard v).tasks ≡ []

-- What the probes of one turn have seen.
turn_empty :
    (Empty : ℕ → Type 0) (n : ℕ) (probe : ℕ → ℕ)
    → ((j : ℕ) → 0 ≤ j → j < 0 + n → Empty (probe j))
    → (v : ℕ) → ProbedOnce n probe v
    → Empty v
turn_empty Empty n probe all v (i, below, hit, only) =
    subst Empty hit (all i (omega arith) (omega arith))

-- The loop over the shards from the shard `start` on.
shards-Searched :
    (s : Store) (start : ℕ)
    → IsStore s
    → start < s.shards
    → Searched s
        ((v : ℕ) → v < s.shards → NoShard s v)
        (scan try_shard (shard_at s.shards start) s.shards 0 s)
shards-Searched s start w h =
    Searched-map
      (λ all v l.
        turn_empty (NoShard s) s.shards (shard_at s.shards start) all v
          (probes-ProbedOnce s.shards start v h (omega (arith, w.sized)) l).0)
      (scan-Searched try_shard NoShard s (shard_at s.shards start) s.shards 0 λ j a b.
        try_shard-Searched s w (shard_at s.shards start j)
          (shard_at-below s.shards start j (omega arith)))

-- `fetchTaskExternal` on a well-formed store, with an offset below the number of workers: it
-- reports nothing only when every queue and every shard is empty, and otherwise takes one task out
-- of the store, which stays well-formed and keeps all others.
pub fetch_task_external_lem :
    (s : Store) (r : ℕ)
    → IsStore s
    → r < s.workers
    → Searched s (AllEmpty s) (fetch_task_external r s)
unfolding fetch_task_external
fetch_task_external_lem s r w h =
    let probe = victim_external s.workers r in
    let workers = scan-Searched try_steal NoTasks s probe s.workers 0 (λ j a b.
      try_steal-Searched s w (probe j) (victim_external-below s.workers r j (omega arith))) in
    let shards =
      scan-Searched try_shard NoShard s (λ i. i) s.shards 0
        (λ j a b. try_shard-Searched s w j (omega arith)) in
    let both =
      or_else-Searched (scan try_steal probe s.workers 0 s)
        (λ s. scan try_shard (λ i. i) s.shards 0 s) workers shards in
    let seen : Searched s (AllEmpty s)
        (or_else (scan try_steal probe s.workers 0 s) (λ s. scan try_shard (λ i. i) s.shards 0 s)) =
      Searched-map
        (λ (a, b). (
          λ v l.
              turn_empty (NoTasks s) s.workers probe a v
                (probes-ProbedOnce s.workers r v h (omega (arith, w.sized)) l).1,
          λ v l. b v (omega arith) (omega arith),
        ))
        both in
    subst (Searched s (AllEmpty s)) (ground (arith, w.sized)) seen

pub Searched-missed :
    {s z : Store} {None : Type 0} {f : Fetched} → Searched s None f → f ≡ missed z → None
Searched-missed (found_none a) e = a
Searched-missed (found t s' w h) e = absurd (ground arith)

Searched-empty :
    {s : Store} {None : Type 0} {f : Fetched}
    → ((x : ℕ) → held x s ≡ 0)
    → Searched s None f
    → f ≡ missed s
Searched-empty e (found_none a) = refl
Searched-empty e (found t s' w h) = absurd (ground (arith, e t, h t))

-- `fetchTaskExternal` on a well-formed store, with an offset below the number of workers, reports
-- nothing exactly when every queue and every shard is empty; the store is then as before.
pub fetch_task_external-none :
    (s : Store) (r : ℕ)
    → IsStore s
    → r < s.workers
    → (fetch_task_external r s ≡ missed s) ↔ AllEmpty s
fetch_task_external-none s r w h =
    let searched = fetch_task_external_lem s r w h in
    (Searched-missed searched, λ e. Searched-empty (AllEmpty-held s e) searched)

-- The worker that the loop of `fetchTask` passes over.
abbrev pub passed_over : Store → ℕ → ℕ → ℕ
passed_over s index r = (index + r) % s.workers

-- What a worker has seen to be empty: its own queue, those of the others but one, and the shards.
abbrev pub SeenEmpty : ℕ → ℕ → Store → Type 0
SeenEmpty index r s =
    ((v : ℕ) → v < s.workers → (v ≡ index) ⊎ (v ≢ passed_over s index r) → NoTasks s v)
    × ((v : ℕ) → v < s.shards → NoShard s v)

OthersEmpty : ℕ → ℕ → Store → Type 0
OthersEmpty index r s =
    (v : ℕ) → v < s.workers → v ≢ index → v ≢ passed_over s index r → NoTasks s v

others-Searched :
    (s : Store) (index r : ℕ)
    → IsStore s
    → index < s.workers
    → (1 < s.workers → r < s.workers - 1)
    → Searched s (OthersEmpty index r s) (steal_others index r s)
unfolding steal_others OthersEmpty
others-Searched s index r w h hr = elim (dec_lt 1 s.workers) [
  | yes p ↦
      let probe = victim s.workers index (start_offset r) in
      let seen : Searched s (OthersEmpty index r s) (scan try_steal probe (s.workers - 1) 0 s) =
        Searched-map
          (λ all v l a b.
            let (i, below, hit) =
              victim_reaches s.workers index r v h (omega (arith, w.sized)) (hr p) l b in
            subst (NoTasks s) hit (all i (omega arith) (omega arith)))
          (scan-Searched try_steal NoTasks s probe (s.workers - 1) 0 (λ j a b.
            try_steal-Searched s w (probe j)
              (victim-below s.workers index (start_offset r) j (omega arith)))) in
      subst (Searched s (OthersEmpty index r s)) (ground arith) seen
  | no p ↦
      subst (Searched s (OthersEmpty index r s)) (ground arith)
        (found_none (λ v l a b. absurd (omega arith)))
]

-- `fetchTask` on a well-formed store, by a worker that exists and with an offset that it can draw:
-- it reports nothing only when its own queue, all shards, and the queues of the other workers but
-- at most one are empty; otherwise it takes one task out of the store, which stays well-formed and
-- keeps all others.
pub fetch_task_lem :
    (s : Store) (index r : ℕ)
    → IsStore s
    → index < s.workers
    → (1 < s.workers → r < s.workers - 1)
    → Searched s (SeenEmpty index r s) (fetch_task index r s)
unfolding fetch_task OthersEmpty
fetch_task_lem s index r w h hr =
    let own = settle-Pops s w index h (pop_bottom_lem (s.queues index) (w.queue index h)) in
    let steals = others-Searched s index r w h hr in
    let shards = shards-Searched s index w (omega (arith, w.sized)) in
    let rest =
      or_else-Searched (steal_others index r s)
        (λ s. scan try_shard (shard_at s.shards index) s.shards 0 s) steals shards in
    let whole =
      or_else-Searched (settle s index (pop_bottom (s.queues index)))
        (λ s.
          or_else (steal_others index r s)
            (λ s. scan try_shard (shard_at s.shards index) s.shards 0 s))
        own rest in
    Searched-map
      (λ (a, (b, c)). (
        λ v l d. elim (ℕ_discrete v index) [
          | yes e ↦ subst (NoTasks s) (sym e) a
          | no e ↦ elim d [ inl k ↦ absurd (e k) | inr k ↦ b v l e k ]
        ],
        c,
      ))
      whole
