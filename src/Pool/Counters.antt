-- ===== src/Pool/Counters.antt =====
-- What the counters of a pool count, in every state that it reaches.
use thread_pool_pro.Base.{
  ℕ, ◌+◌, ◌-◌, ◌^◌, ◌<◌, ◌≡◌, refl, arith, length, update, sum_below, sum_below-update,
  le-sum_below, sum_below-le, sum_below-zero,
}
use thread_pool_pro.Pool.{Shared, ShutdownMode, request_shutdown, queued_tasks}
use thread_pool_pro.Pool.Worker.{WorkerPc, WorkerMove}
use thread_pool_pro.Pool.Submit.{SubmitPc, SubmitMove}
use thread_pool_pro.Pool.WaitIdle.{WaiterPc, WaiterMove}
use thread_pool_pro.Pool.System.{
  System, Step, worker_step, submit_step, waiter_step, pause_step, resume_step, shutdown_step, init,
  Reach, start, later,
}
use thread_pool_pro.Pool.Shares.{
  worker_active, worker_pending, worker_idle, waiter_active, waiter_pending, waiter_inside,
  is_unannounced, Counts, Counts-worker, Counts-waiter, Counts-submit, worker_active-le,
  waiter_active-le, worker_idle-le, worker_pending-le, waiter_pending-le, waiter_inside-le,
}

-- The counters count the threads that stand in the matching part of their loops. `pendingTasks_`
-- counts, modulo 2 ^ 64, the queued tasks and those just fetched, less those not yet announced.
abbrev pub Balanced : ℕ → System → Type 0
Balanced n y =
    Counts y.shared (sum_below worker_active n y.worker + sum_below waiter_active n y.waiter)
      (sum_below worker_pending n y.worker + sum_below waiter_pending n y.waiter)
      (sum_below worker_idle n y.worker) (sum_below waiter_inside n y.waiter)
      (sum_below is_unannounced n y.submitter)

module _ {n : ℕ} (few : n < 2 ^ 62) (y : System) where
  worker_step-Balanced :
      (i : ℕ) {s : Shared} {q : WorkerPc}
      → i < n
      → WorkerMove y.shared (y.worker i) s q
      → Balanced n y
      → Balanced n (record y { shared = s; worker = update y.worker i q })
  worker_step-Balanced i {s} {q} h mv b =
      let ga = le-sum_below worker_active n y.worker i h in
      let gp = le-sum_below worker_pending n y.worker i h in
      let gi = le-sum_below worker_idle n y.worker i h in
      let ba = sum_below-le worker_active worker_active-le n y.worker in
      let bw = sum_below-le waiter_active waiter_active-le n y.waiter in
      let bi = sum_below-le worker_idle worker_idle-le n y.worker in
      let c =
        Counts-worker
          (sum_below worker_active n y.worker
            - worker_active (y.worker i)
            + sum_below waiter_active n y.waiter)
          (sum_below worker_pending n y.worker
            - worker_pending (y.worker i)
            + sum_below waiter_pending n y.waiter)
          (sum_below worker_idle n y.worker - worker_idle (y.worker i))
          (sum_below waiter_inside n y.waiter) (sum_below is_unannounced n y.submitter)
          (omega arith) (omega arith) mv (omega arith) in
      omega (
        arith,
        c,
        sum_below-update worker_active n y.worker i q h,
        sum_below-update worker_pending n y.worker i q h,
        sum_below-update worker_idle n y.worker i q h,
      )

  waiter_step-Balanced :
      (i : ℕ) {s : Shared} {q : WaiterPc}
      → i < n
      → WaiterMove y.shared (y.waiter i) s q
      → Balanced n y
      → Balanced n (record y { shared = s; waiter = update y.waiter i q })
  waiter_step-Balanced i {s} {q} h mv b =
      let ga = le-sum_below waiter_active n y.waiter i h in
      let gp = le-sum_below waiter_pending n y.waiter i h in
      let gi = le-sum_below waiter_inside n y.waiter i h in
      let ba = sum_below-le worker_active worker_active-le n y.worker in
      let bw = sum_below-le waiter_active waiter_active-le n y.waiter in
      let bi = sum_below-le waiter_inside waiter_inside-le n y.waiter in
      let c =
        Counts-waiter
          (sum_below waiter_active n y.waiter
            - waiter_active (y.waiter i)
            + sum_below worker_active n y.worker)
          (sum_below waiter_pending n y.waiter
            - waiter_pending (y.waiter i)
            + sum_below worker_pending n y.worker)
          (sum_below worker_idle n y.worker)
          (sum_below waiter_inside n y.waiter - waiter_inside (y.waiter i))
          (sum_below is_unannounced n y.submitter) (omega arith) (omega arith) mv (omega arith) in
      omega (
        arith,
        c,
        sum_below-update waiter_active n y.waiter i q h,
        sum_below-update waiter_pending n y.waiter i q h,
        sum_below-update waiter_inside n y.waiter i q h,
      )

  submit_step-Balanced :
      (i : ℕ) {s : Shared} {q : SubmitPc}
      → i < n
      → SubmitMove y.shared (y.submitter i) s q
      → Balanced n y
      → Balanced n (record y { shared = s; submitter = update y.submitter i q })
  submit_step-Balanced i {s} {q} h mv b =
      let g = le-sum_below is_unannounced n y.submitter i h in
      let c =
        Counts-submit (sum_below worker_active n y.worker + sum_below waiter_active n y.waiter)
          (sum_below worker_pending n y.worker + sum_below waiter_pending n y.waiter)
          (sum_below worker_idle n y.worker) (sum_below waiter_inside n y.waiter)
          (sum_below is_unannounced n y.submitter - is_unannounced (y.submitter i)) mv
          (omega arith) in
      omega (arith, c, sum_below-update is_unannounced n y.submitter i q h)

  shutdown_step-Balanced :
      (mode : ShutdownMode)
      → Balanced n y
      → Balanced n (record y { shared = request_shutdown mode y.shared })
  shutdown_step-Balanced mode b = ground arith

Step-Balanced : {n : ℕ} {y z : System} → n < 2 ^ 62 → Step n y z → Balanced n y → Balanced n z
Step-Balanced {y} few (worker_step i h mv) b = worker_step-Balanced few y i h mv b
Step-Balanced {y} few (submit_step i h mv) b = submit_step-Balanced few y i h mv b
Step-Balanced {y} few (waiter_step i h mv) b = waiter_step-Balanced few y i h mv b
Step-Balanced few pause_step b = b
Step-Balanced few resume_step b = b
Step-Balanced {y} few (shutdown_step mode) b = shutdown_step-Balanced few y mode b

init-Balanced : (n : ℕ) → Balanced n init
init-Balanced n = omega (
  arith,
  sum_below-zero worker_active n init.worker (λ i. refl),
  sum_below-zero waiter_active n init.waiter (λ i. refl),
  sum_below-zero worker_pending n init.worker (λ i. refl),
  sum_below-zero waiter_pending n init.waiter (λ i. refl),
  sum_below-zero worker_idle n init.worker (λ i. refl),
  sum_below-zero waiter_inside n init.waiter (λ i. refl),
  sum_below-zero is_unannounced n init.submitter (λ i. refl),
)

-- In every state that a pool reaches, with fewer than 2 ^ 62 threads of each kind, the counters
-- count the threads and the tasks as `Balanced` says.
pub Reach-Balanced : {n : ℕ} {y : System} → n < 2 ^ 62 → Reach n y → Balanced n y
Reach-Balanced {n} few start = init-Balanced n
Reach-Balanced few (later r st) = Step-Balanced few st (Reach-Balanced few r)

-- With fewer than 2 ^ 62 threads of each kind, in a reachable state in which no submission is
-- between its push and its count, fewer than 2 ^ 63 tasks are queued and the counter is a word,
-- `queuedTasks()` is the number of queued tasks and of those just fetched.
pub queued_tasks_exact :
    {n : ℕ} {y : System}
    → n < 2 ^ 62
    → Reach n y
    → ((i : ℕ) → is_unannounced (y.submitter i) ≡ 0)
    → length y.shared.queued < 2 ^ 63
    → y.shared.pending < 2 ^ 64
    → queued_tasks y.shared
      ≡ length y.shared.queued
        + (sum_below worker_pending n y.worker + sum_below waiter_pending n y.waiter)
unfolding queued_tasks
queued_tasks_exact {n} {y} few r quiet small word = omega (
  arith,
  Reach-Balanced few r,
  sum_below-zero is_unannounced n y.submitter quiet,
  sum_below-le worker_pending worker_pending-le n y.worker,
  sum_below-le waiter_pending waiter_pending-le n y.waiter,
)
