-- ===== src/Dispatch.antt =====
-- src/ThreadPoolPro/ThreadPool.cpp, one call at a time: `submit`, `fetchTask` and
-- `fetchTaskExternal` over the queues of the workers and the shards, as no other thread moves.
pub mod Stores
pub mod Scans
pub mod Fetching
pub mod Blind
pub mod Submitting
pub mod RoundTrips
pub mod Enqueue
pub mod Across
use thread_pool_pro.Base.{
  ℕ, zero, suc, ◌+◌, ◌-◌, ◌*◌, ◌%◌, ◌^◌, Bool, true, false, Option, none, some, List, [], ◌∷◌, ◌++◌,
  if◌then◌else◌, ◌==◌, ltb, update,
}
use thread_pool_pro.Buffer.{size_of}
use thread_pool_pro.Fetch.{u32, start_offset, victim, victim_external, shard_at, shard_count}
use thread_pool_pro.Pool.{RunState, is_running, increment, decrement, worker_count}
use thread_pool_pro.Queue.{
  Queue, create, push_bottom, Taken, nothing, got, invalid, pop_bottom, steal, size,
}

-- `ThreadPool::InjectionShard`
pub record Shard : Type 0 where
  pub size : ℕ
  pub tasks : List ℕ

-- The members of the pool that these functions use.
pub record Store : Type 0 where
  pub workers : ℕ
  pub queues : ℕ → Queue
  pub shards : ℕ
  pub shard : ℕ → Shard
  pub round_robin : ℕ
  pub run_state : RunState
  pub pending : ℕ
  pub idle : ℕ
  pub token : ℕ

-- The members as `ThreadPool::ThreadPool` sets them.
unfoldable pub make_store : ℕ → Store
make_store threads = record {
  workers = worker_count threads;
  queues = λ _. create 1024;
  shards = shard_count (worker_count threads);
  shard = λ _. record { size = 0; tasks = [] };
  round_robin = 0;
  run_state = RunState.running;
  pending = 0;
  idle = 0;
  token = 0;
}

-- `ThreadPool::threadCount`
unfoldable pub thread_count : Store → ℕ
thread_count s = s.workers

-- How a search for a task ends; `broken` reads a task through a pointer to none.
pub data Fetched : Type 0 where
  missed : Store → Fetched
  took : ℕ → Store → Fetched
  broken : Fetched

abbrev pub or_else : Fetched → (Store → Fetched) → Fetched
or_else (missed s) next = next s
or_else (took t s) next = took t s
or_else broken next = broken

-- What became of the queue of worker `v`.
abbrev pub settle : Store → ℕ → Taken → Fetched
settle s v (nothing q) = missed (record s { queues = update s.queues v q })
settle s v (got t q) = took t (record s { queues = update s.queues v q })
settle s v invalid = broken

-- One round of the loop over the workers.
unfoldable pub try_steal : Store → ℕ → Fetched
try_steal s v = elim (size (s.queues v) == 0) [
  | true ↦ missed s
  | false ↦ settle s v (steal (s.queues v))
]

-- One round of the loop over the shards.
unfoldable pub try_shard : Store → ℕ → Fetched
try_shard s v = elim ((s.shard v).size == 0) [
  | true ↦ missed s
  | false ↦ elim (s.shard v).tasks [
    | [] ↦ missed s
    | t ∷ rest ↦ took t (record s {
      shard = update s.shard v (record { size = decrement (s.shard v).size; tasks = rest });
    })
  ]
]

-- A loop of `rounds` rounds from round `i` on, which `probe` gives their indices.
unfoldable pub scan : (Store → ℕ → Fetched) → (ℕ → ℕ) → (rounds i : ℕ) → Store → Fetched
scan try probe zero i s = missed s
scan try probe (suc rounds) i s = or_else (try s (probe i)) (scan try probe rounds (i + 1))

-- The middle part of `fetchTask`: the other workers.
unfoldable pub steal_others : ℕ → ℕ → Store → Fetched
steal_others index r s =
    if ltb 1 s.workers
    then scan try_steal (victim s.workers index (start_offset r)) (s.workers - 1) 0 s
    else missed s

-- `ThreadPool::fetchTask` for the worker `index`, where `nextStealOffset` returns `r`.
unfoldable pub fetch_task : ℕ → ℕ → Store → Fetched
fetch_task index r s = or_else (settle s index (pop_bottom (s.queues index))) (λ s.
    or_else (steal_others index r s) (λ s. scan try_shard (shard_at s.shards index) s.shards 0 s))

-- `ThreadPool::fetchTaskExternal`, where `nextStealOffset` returns `r`.
unfoldable pub fetch_task_external : ℕ → Store → Fetched
fetch_task_external r s =
    or_else
      (if ltb 0 s.workers
        then scan try_steal (victim_external s.workers r) s.workers 0 s
        else missed s)
      (λ s. scan try_shard (λ i. i) s.shards 0 s)

-- Where `submit` puts the task: the queue of the worker that calls it, or the next shard.
unfoldable pub enqueue_task : Option ℕ → ℕ → Store → Store
enqueue_task (some worker) t s = record s {
  queues = update s.queues worker (push_bottom (s.queues worker) t);
}
enqueue_task none t s =
    let i = s.round_robin % s.shards in
    record s {
      round_robin = increment s.round_robin;
      shard =
          update s.shard i
            (record { size = increment (s.shard i).size; tasks = (s.shard i).tasks ++ t ∷ [] });
    }

-- The end of `submit`, with `wakeOne` if a worker is idle.
unfoldable pub announce_task : Store → Store
announce_task s = record s {
  pending = increment s.pending;
  token = if s.idle == 0 then s.token else u32 (s.token + 1);
}

-- `ThreadPool::submit`, called by a worker of the pool or by another thread; `none` where it throws.
unfoldable pub submit : Option ℕ → ℕ → Store → Option Store
submit caller t s =
    if is_running s.run_state then some (announce_task (enqueue_task caller t s)) else none
