-- ===== src/Pool/Shares.antt =====
-- The share of each thread in the counters of the pool, by its position in its loop.
use thread_pool_pro.Base.{
  ℕ, ◌+◌, ◌%◌, ◌^◌, ◌≤◌, ◌<◌, ◌≡◌, ap, [], ◌∷◌, arith, length, length-append,
}
use thread_pool_pro.Pool.{Shared}
use thread_pool_pro.Pool.Worker.{WorkerPc, WorkerMove}
use thread_pool_pro.Pool.Submit.{SubmitPc, SubmitMove}
use thread_pool_pro.Pool.WaitIdle.{WaiterPc, WaiterMove}

-- 1 between the two changes of `activeTasks_`; a worker that detached never makes the second.
abbrev pub worker_active : WorkerPc → ℕ
worker_active (WorkerPc.counted t) = 1
worker_active (WorkerPc.executing t) = 1
worker_active (WorkerPc.executed b) = 1
worker_active WorkerPc.settling = 1
worker_active (WorkerPc.stopping t) = 1
worker_active WorkerPc.detached = 1
worker_active _ = 0

-- 1 while the worker has a task that `pendingTasks_` still counts.
abbrev pub worker_pending : WorkerPc → ℕ
worker_pending (WorkerPc.got t) = 1
worker_pending (WorkerPc.counted t) = 1
worker_pending _ = 0

abbrev pub worker_idle : WorkerPc → ℕ
worker_idle WorkerPc.parked_paused = 1
worker_idle WorkerPc.parked_idle = 1
worker_idle _ = 0

abbrev pub waiter_active : WaiterPc → ℕ
waiter_active (WaiterPc.counted t) = 1
waiter_active (WaiterPc.executing t) = 1
waiter_active (WaiterPc.executed b) = 1
waiter_active WaiterPc.settling = 1
waiter_active _ = 0

abbrev pub waiter_pending : WaiterPc → ℕ
waiter_pending (WaiterPc.got t) = 1
waiter_pending (WaiterPc.counted t) = 1
waiter_pending _ = 0

abbrev pub waiter_inside : WaiterPc → ℕ
waiter_inside WaiterPc.off = 0
waiter_inside (WaiterPc.returned b) = 0
waiter_inside _ = 1

-- 1 while a task is queued and `pendingTasks_` does not count it yet.
abbrev pub is_unannounced : SubmitPc → ℕ
is_unannounced (SubmitPc.pushed t) = 1
is_unannounced _ = 0

-- The four counters, where a thread has the share `c` of its kind and the others have the rest.
abbrev pub Counts : Shared → (active pending idle waiters unannounced : ℕ) → Type 0
Counts s active pending idle waiters unannounced =
    (s.active ≡ active)
    × (s.idle ≡ idle)
    × (s.waiters ≡ waiters)
    × ((s.pending + unannounced) % 2 ^ 64 ≡ (length s.queued + pending) % 2 ^ 64)

module _ (a p i w u : ℕ) where
  pub Counts-worker :
      {s s' : Shared} {q q' : WorkerPc}
      → a + 1 < 2 ^ 64
      → i + 1 < 2 ^ 64
      → WorkerMove s q s' q'
      → Counts s (worker_active q + a) (worker_pending q + p) (worker_idle q + i) w u
      → Counts s' (worker_active q' + a) (worker_pending q' + p) (worker_idle q' + i) w u
  Counts-worker sa si (WorkerMove.find before task others e) c =
      ground (arith, ap length e, length-append before (task ∷ others), length-append before others)
  Counts-worker {s} sa si (WorkerMove.put_back {task} x y) c =
      ground (arith, length-append s.queued (task ∷ []))
  Counts-worker sa si mv c = ground arith

  pub Counts-waiter :
      {s s' : Shared} {q q' : WaiterPc}
      → a + 1 < 2 ^ 64
      → w + 1 < 2 ^ 64
      → WaiterMove s q s' q'
      → Counts s (waiter_active q + a) (waiter_pending q + p) i (waiter_inside q + w) u
      → Counts s' (waiter_active q' + a) (waiter_pending q' + p) i (waiter_inside q' + w) u
  Counts-waiter sa sw (WaiterMove.find before task others e) c =
      ground (arith, ap length e, length-append before (task ∷ others), length-append before others)
  Counts-waiter sa sw mv c = ground arith

  pub Counts-submit :
      {s s' : Shared} {q q' : SubmitPc}
      → SubmitMove s q s' q'
      → Counts s a p i w (is_unannounced q + u)
      → Counts s' a p i w (is_unannounced q' + u)
  Counts-submit {s} (SubmitMove.push {task}) c = ground (arith, length-append s.queued (task ∷ []))
  Counts-submit mv c = ground arith

pub worker_active-le : (q : WorkerPc) → worker_active q ≤ 1
worker_active-le q = ground arith

pub waiter_active-le : (q : WaiterPc) → waiter_active q ≤ 1
waiter_active-le q = ground arith

pub worker_idle-le : (q : WorkerPc) → worker_idle q ≤ 1
worker_idle-le q = ground arith

pub worker_pending-le : (q : WorkerPc) → worker_pending q ≤ 1
worker_pending-le q = ground arith

pub waiter_pending-le : (q : WaiterPc) → waiter_pending q ≤ 1
waiter_pending-le q = ground arith

pub waiter_inside-le : (q : WaiterPc) → waiter_inside q ≤ 1
waiter_inside-le q = ground arith
