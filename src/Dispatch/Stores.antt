-- ===== src/Dispatch/Stores.antt =====
-- Well-formed stores, and the tasks that one holds.
use thread_pool_pro.Base.{
  ℕ, ◌+◌, ◌^◌, ◌≤◌, ◌<◌, ◌≡◌, refl, ap, subst, List, [], ◌∷◌, arith, length, count, update,
  sum_below, sum_below-zero_below, ℕ_discrete,
}
use mathlib.Core.Path.{fun_ext}
use thread_pool_pro.Fetch.{shard_count}
use thread_pool_pro.Pool.{worker_count}
use thread_pool_pro.Queue.{Queue}
use thread_pool_pro.Queue.Contents.{contents}
use thread_pool_pro.Queue.Nodes.{IsQueue, create-IsQueue}
use thread_pool_pro.Dispatch.{Shard, Store, make_store, thread_count}

-- The counter of a shard is the length of its list.
abbrev pub IsShard : Shard → Type 0
IsShard h = (h.size ≡ length h.tasks) × (h.size < 2 ^ 64)

pub record IsStore (s : Store) : Type 0 where
  pub sized : (0 < s.workers) × (s.workers ≤ s.shards) × (s.shards < 2 ^ 62)
  pub queue : (v : ℕ) → v < s.workers → IsQueue (s.queues v)
  pub shard : (v : ℕ) → v < s.shards → IsShard (s.shard v)

abbrev pub in_queue : ℕ → Queue → ℕ
in_queue x q = count x (contents q)

abbrev pub in_shard : ℕ → Shard → ℕ
in_shard x h = count x h.tasks

-- How often the task `x` is in the store.
abbrev pub held : ℕ → Store → ℕ
held x s = sum_below (in_queue x) s.workers s.queues + sum_below (in_shard x) s.shards s.shard

pub update-same {ℓ} : {A : Type ℓ} (f : ℕ → A) (i : ℕ) → update f i (f i) ≡ f
update-same f i =
    fun_ext λ j. elim (ℕ_discrete i j) [ yes e ↦ ground (arith, ap f e) | no d ↦ ground arith ]

pub make_store-IsStore : (threads : ℕ) → threads < 2 ^ 61 → IsStore (make_store threads)
unfolding make_store worker_count shard_count
make_store-IsStore threads few = record {
  sized = ground arith;
  queue = λ v h. create-IsQueue 10 (omega arith);
  shard = λ v h. (refl, omega arith);
}

module _ (s : Store) (w : IsStore s) (v : ℕ) where
  -- A write of a well-formed queue, or of a well-formed shard.
  pub queue-IsStore : (q : Queue) → IsQueue q → IsStore (record s { queues = update s.queues v q })
  queue-IsStore q k = record {
    sized = w.sized;
    queue = λ j h. elim (ℕ_discrete v j) [
      | yes e ↦ subst IsQueue (ground (arith, e)) k
      | no d ↦ subst IsQueue (ground (arith, d)) (w.queue j h)
    ];
    shard = w.shard;
  }

  pub shard-IsStore : (h : Shard) → IsShard h → IsStore (record s { shard = update s.shard v h })
  shard-IsStore q k = record {
    sized = w.sized;
    queue = w.queue;
    shard = λ j h. elim (ℕ_discrete v j) [
      | yes e ↦ subst IsShard (ground (arith, e)) k
      | no d ↦ subst IsShard (ground (arith, d)) (w.shard j h)
    ];
  }

-- A store without a task has empty queues and shards, and the other way round.
pub count-nonempty : (t : ℕ) (ts : List ℕ) → 0 < count t (t ∷ ts)
count-nonempty t ts = ground arith

abbrev pub AllEmpty : Store → Type 0
AllEmpty s =
    ((v : ℕ) → v < s.workers → contents (s.queues v) ≡ [])
    × ((v : ℕ) → v < s.shards → (s.shard v).tasks ≡ [])

pub AllEmpty-held : (s : Store) → AllEmpty s → (x : ℕ) → held x s ≡ 0
AllEmpty-held s (a, b) x = omega (
  arith,
  sum_below-zero_below (in_queue x) s.workers s.queues (λ v h. ap (count x) (a v h)),
  sum_below-zero_below (in_shard x) s.shards s.shard (λ v h. ap (count x) (b v h)),
)

-- A new pool has a thread at least, also when none is asked for.
pub thread_count-make_store :
    (threads : ℕ)
    → (0 < thread_count (make_store threads)) × (threads ≤ thread_count (make_store threads))
unfolding thread_count make_store worker_count
thread_count-make_store threads = ground arith
