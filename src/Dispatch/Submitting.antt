-- ===== src/Dispatch/Submitting.antt =====
-- What `submit` does to the store.
use native.Mathlib.Nat.{mod-lt}
use thread_pool_pro.Base.{
  ℕ, ◌+◌, ◌*◌, ◌%◌, ◌^◌, ◌<◌, ◌≡◌, ◌≢◌, inl, inr, refl, ap, subst, Option, none, some, [], ◌∷◌,
  ◌++◌, arith, is_that, length-append, count, count-append, sum_below-update, if◌then◌else◌, ◌==◌,
}
use thread_pool_pro.Buffer.{size_of}
use thread_pool_pro.Fetch.{u32}
use thread_pool_pro.Pool.{running, is_running_iff, increment}
use thread_pool_pro.Queue.{push_bottom}
use thread_pool_pro.Queue.Contents.{contents}
use thread_pool_pro.Queue.Growing.{push_bottom_lem}
use thread_pool_pro.Dispatch.{Shard, Store, submit, enqueue_task, announce_task}
use thread_pool_pro.Dispatch.Stores.{
  IsStore, IsShard, held, in_queue, in_shard, queue-IsStore, shard-IsStore,
}

-- The caller exists and its queue can grow, or the next shard can.
abbrev pub HasRoom : Option ℕ → Store → Type 0
HasRoom (some worker) s =
    (worker < s.workers)
    × ((s.queues worker).buffer.capacity * 2 < 2 ^ 64)
    × ((s.queues worker).bottom + 1 < 2 ^ 64)
HasRoom none s = (s.shard (s.round_robin % s.shards)).size + 1 < 2 ^ 64

-- What an accepted task does to a store.
pub record Accepted (t : ℕ) (s s' : Store) : Type 0 where
  pub valid : IsStore s'
  pub holds : (x : ℕ) → held x s' ≡ is_that x t + held x s
  pub workers : s'.workers ≡ s.workers
  pub pending : s'.pending ≡ size_of (s.pending + 1)
  pub token : s'.token ≡ (if s.idle == 0 then s.token else u32 (s.token + 1))

Queued : ℕ → Store → Store → Type 0
Queued t s s' = IsStore s' × ((x : ℕ) → held x s' ≡ is_that x t + held x s)

enqueue_task-worker :
    (s : Store) (v t : ℕ) → IsStore s → HasRoom (some v) s → Queued t s (enqueue_task (some v) t s)
unfolding enqueue_task Queued
enqueue_task-worker s v t w (b, big, small) =
    let q = push_bottom_lem (s.queues v) t (w.queue v b) big small in
    (
      queue-IsStore s w v (push_bottom (s.queues v) t) q.0,
      λ x. omega (
        arith,
        ap (count x) q.1,
        count-append x (contents (s.queues v)) (t ∷ []),
        sum_below-update (in_queue x) s.workers s.queues v (push_bottom (s.queues v) t) b,
      ),
    )

enqueue_task-shard :
    (s : Store) (t : ℕ) → IsStore s → HasRoom none s → Queued t s (enqueue_task none t s)
unfolding enqueue_task Queued
enqueue_task-shard s t w small =
    let i = s.round_robin % s.shards in
    let b : i < s.shards = mod-lt s.round_robin (omega (arith, w.sized)) in
    let longer : Shard = record {
      size = increment (s.shard i).size;
      tasks = (s.shard i).tasks ++ t ∷ [];
    } in
    let ok : IsShard longer = (
      omega (arith, small, (w.shard i b).0, length-append (s.shard i).tasks (t ∷ [])),
      omega arith,
    ) in
    let valid = shard-IsStore s w i longer ok in
    (
      record { sized = valid.sized; queue = valid.queue; shard = valid.shard },
      λ x. omega (
        arith,
        count-append x (s.shard i).tasks (t ∷ []),
        sum_below-update (in_shard x) s.shards s.shard i longer b,
      ),
    )

enqueue_task-Queued :
    (caller : Option ℕ) (t : ℕ) (s : Store)
    → IsStore s
    → HasRoom caller s
    → Queued t s (enqueue_task caller t s)
enqueue_task-Queued (some v) t s w h = enqueue_task-worker s v t w h
enqueue_task-Queued none t s w h = enqueue_task-shard s t w h

pub enqueue_task-held :
    (caller : Option ℕ) (t : ℕ) (s : Store)
    → IsStore s
    → HasRoom caller s
    → (x : ℕ) → held x (enqueue_task caller t s) ≡ is_that x t + held x s
unfolding Queued
enqueue_task-held caller t s w h = (enqueue_task-Queued caller t s w h).1

announce_task-Queued : (t : ℕ) (s s' : Store) → Queued t s s' → Queued t s (announce_task s')
unfolding announce_task Queued
announce_task-Queued t s s' (w, h) =
    (record { sized = w.sized; queue = w.queue; shard = w.shard }, h)

counters-kept :
    (caller : Option ℕ) (t : ℕ) (s : Store)
    → ((enqueue_task caller t s).workers ≡ s.workers)
      × ((enqueue_task caller t s).pending ≡ s.pending)
      × ((enqueue_task caller t s).idle ≡ s.idle)
      × ((enqueue_task caller t s).token ≡ s.token)
unfolding enqueue_task
counters-kept (some v) t s = (refl, refl, refl, refl)
counters-kept none t s = (refl, refl, refl, refl)

pub accepted_lem :
    (caller : Option ℕ) (t : ℕ) (s : Store)
    → IsStore s
    → HasRoom caller s
    → Accepted t s (announce_task (enqueue_task caller t s))
unfolding announce_task Queued
accepted_lem caller t s w h =
    let q =
      announce_task-Queued t s (enqueue_task caller t s) (enqueue_task-Queued caller t s w h) in
    let k = counters-kept caller t s in
    record {
      valid = q.0;
      holds = q.1;
      workers = ground (arith, k);
      pending = ground (arith, k);
      token = ground (arith, k);
    }

-- How `submit` ends.
pub data Submits (t : ℕ) (s : Store) : Option Store → Type 0 where
  refused : s.run_state ≢ running → Submits t s none
  accepted : s.run_state ≡ running → (s' : Store) → Accepted t s s' → Submits t s (some s')

-- On a well-formed store with room, `submit` by a worker or by another thread throws exactly when the
-- pool is not running; otherwise it adds the task to the store, which stays well-formed and keeps the
-- others, counts it as pending, and moves the token exactly when a worker is idle.
pub submit_lem :
    (caller : Option ℕ) (t : ℕ) (s : Store)
    → IsStore s
    → HasRoom caller s
    → Submits t s (submit caller t s)
unfolding submit
submit_lem caller t s w h = elim (is_running_iff s.run_state) [
  | inl (e, r) ↦
      subst (Submits t s) (ground (arith, e)) (accepted r _ (accepted_lem caller t s w h))
  | inr (e, r) ↦ subst (Submits t s) (ground (arith, e)) (refused r)
]
