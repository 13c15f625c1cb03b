-- ===== src/Dispatch/Blind.antt =====
-- The worker that `fetchTask` passes over, seen from a store whose only tasks are in its queue.
use thread_pool_pro.Base.{
  ℕ, zero, suc, ◌+◌, ◌-◌, ◌≤◌, ◌<◌, ◌≡◌, ◌∙◌, inl, inr, refl, ap, [], ◌∷◌, arith, length,
  length-append,
}
use thread_pool_pro.Fetch.{start_offset, victim, shard_at}
use thread_pool_pro.Fetch.Victims.{victim-below, shard_at-below, victim-passes_over}
use thread_pool_pro.Queue.{Taken, size}
use thread_pool_pro.Queue.Contents.{contents}
use thread_pool_pro.Queue.Refinement.{Pops, pop_bottom_lem, size_lem}
use thread_pool_pro.Dispatch.{
  Store, Fetched, steal_others, missed, or_else, settle, try_steal, try_shard, scan, fetch_task,
}
use thread_pool_pro.Dispatch.Stores.{IsStore}
use thread_pool_pro.Dispatch.Scans.{unchanged}
use thread_pool_pro.Dispatch.Fetching.{NoTasks, NoShard, SeenEmpty}

try_steal-empty :
    (s : Store) (v : ℕ) → IsStore s → v < s.workers → NoTasks s v → try_steal s v ≡ missed s
unfolding try_steal
try_steal-empty s v w b e =
    let none_there : size (s.queues v) ≡ 0 = size_lem (s.queues v) (w.queue v b) ∙ ap length e in
    ground (arith, none_there)

try_shard-empty :
    (s : Store) (v : ℕ) → IsStore s → v < s.shards → NoShard s v → try_shard s v ≡ missed s
unfolding try_shard
try_shard-empty s v w b e =
    let none_there : (s.shard v).size ≡ 0 = (w.shard v b).0 ∙ ap length e in
    ground (arith, none_there)

scan-missed :
    (try : Store → ℕ → Fetched) (probe : ℕ → ℕ) (s : Store) (rounds i : ℕ)
    → ((j : ℕ) → i ≤ j → j < i + rounds → try s (probe j) ≡ missed s)
    → scan try probe rounds i s ≡ missed s
unfolding scan
scan-missed try probe s zero i h = refl
scan-missed try probe s (suc rounds) i h =
    ap (λ f. or_else f (scan try probe rounds (i + 1))) (h i (omega arith) (omega arith))
    ∙ scan-missed try probe s rounds (i + 1) (λ j a b. h j (omega arith) (omega arith))

or_else-missed :
    {s : Store} (f : Fetched) (next : Store → Fetched)
    → f ≡ missed s
    → next s ≡ missed s
    → or_else f next ≡ missed s
or_else-missed f next e d = ap (λ g. or_else g next) e ∙ d

settle-empty :
    (s : Store) (v : ℕ) {r : Taken}
    → IsStore s
    → NoTasks s v
    → Pops (s.queues v) r
    → settle s v r ≡ missed s
settle-empty s v w e (Pops.none_left a) = ap missed (unchanged s w v)
settle-empty s v w e (Pops.last_taken t q k c) =
    absurd (omega (arith, ap length c, ap length e, length-append (contents q) (t ∷ [])))

-- On a well-formed store, for a worker that exists and an offset above 1: `fetchTask` reports nothing,
-- and changes nothing, when its own queue, the shards and the queues of the others but one are empty,
-- whatever the queue of that one holds.
pub fetch_task_blind :
    (s : Store) (index r : ℕ)
    → IsStore s
    → index < s.workers
    → 0 < r
    → r < s.workers - 1
    → SeenEmpty index r s
    → fetch_task index r s ≡ missed s
unfolding fetch_task steal_others
fetch_task_blind s index r w h pos b (queues, shards) =
    let probe = victim s.workers index (start_offset r) in
    let own =
      settle-empty s index w (queues index h (inl refl))
        (pop_bottom_lem (s.queues index) (w.queue index h)) in
    let others = scan-missed try_steal probe s (s.workers - 1) 0 λ j a l.
      let in_range = victim-below s.workers index (start_offset r) j (omega arith) in
      try_steal-empty s (probe j) w in_range (
        queues (probe j) in_range (
          inr
            (victim-passes_over s.workers index r h (omega (arith, w.sized)) b j (omega arith)))) in
    let rest = scan-missed try_shard (shard_at s.shards index) s s.shards 0 λ j a l.
      let in_range = shard_at-below s.shards index j (omega arith) in
      try_shard-empty s (shard_at s.shards index j) w in_range (shards _ in_range) in
    or_else-missed _ _ own (or_else-missed (steal_others index r s) _ (ground (arith, others)) rest)
