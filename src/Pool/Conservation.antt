-- ===== src/Pool/Conservation.antt =====
-- No task of a pool is lost between its queues and its threads, and none is run twice.
use thread_pool_pro.Base.{
  ℕ, ◌+◌, ◌-◌, ◌≡◌, refl, ap, [], ◌∷◌, arith, count, total, total-append, is_that, count-total,
  sum_below, sum_below-update, le-sum_below, sum_below-zero,
}
use thread_pool_pro.Pool.{Shared}
use thread_pool_pro.Pool.Worker.{WorkerPc, WorkerMove}
use thread_pool_pro.Pool.Submit.{SubmitPc, SubmitMove}
use thread_pool_pro.Pool.WaitIdle.{WaiterPc, WaiterMove}
use thread_pool_pro.Pool.System.{
  System, Step, worker_step, submit_step, waiter_step, pause_step, resume_step, shutdown_step, init,
  Reach, start, later,
}

-- The weight of the task that a thread has fetched and not yet run.
abbrev pub worker_hand : (ℕ → ℕ) → WorkerPc → ℕ
worker_hand v (WorkerPc.got t) = v t
worker_hand v (WorkerPc.counted t) = v t
worker_hand v (WorkerPc.executing t) = v t
worker_hand v (WorkerPc.stopping t) = v t
worker_hand v _ = 0

abbrev pub waiter_hand : (ℕ → ℕ) → WaiterPc → ℕ
waiter_hand v (WaiterPc.got t) = v t
waiter_hand v (WaiterPc.counted t) = v t
waiter_hand v (WaiterPc.executing t) = v t
waiter_hand v _ = 0

module _ (v : ℕ → ℕ) (r : ℕ) where
  -- What is queued, in one thread's hands, in the others' and run is what was pushed.
  abbrev Kept : Shared → ℕ → Type 0
  Kept s hand = total v s.queued + (hand + r) + total v s.ran ≡ total v s.pushed

  Kept-worker :
      {s s' : Shared} {q q' : WorkerPc}
      → WorkerMove s q s' q'
      → Kept s (worker_hand v q)
      → Kept s' (worker_hand v q')
  Kept-worker (WorkerMove.find before task others e) c =
      omega
        (arith, ap (total v) e, total-append v before (task ∷ others), total-append v before others)
  Kept-worker {s} (WorkerMove.put_back {task} x y) c =
      omega (arith, total-append v s.queued (task ∷ []))
  Kept-worker mv c = ground arith

  Kept-waiter :
      {s s' : Shared} {q q' : WaiterPc}
      → WaiterMove s q s' q'
      → Kept s (waiter_hand v q)
      → Kept s' (waiter_hand v q')
  Kept-waiter (WaiterMove.find before task others e) c =
      omega
        (arith, ap (total v) e, total-append v before (task ∷ others), total-append v before others)
  Kept-waiter mv c = ground arith

  Kept-submit : {s s' : Shared} {q q' : SubmitPc} → SubmitMove s q s' q' → Kept s 0 → Kept s' 0
  Kept-submit {s} (SubmitMove.push {task}) c = omega (arith, total-append v s.queued (task ∷ []))
  Kept-submit mv c = ground arith

-- The weight of all tasks that a thread has fetched and not yet run.
abbrev pub in_hands : (ℕ → ℕ) → ℕ → System → ℕ
in_hands v n y = sum_below (worker_hand v) n y.worker + sum_below (waiter_hand v) n y.waiter

Step-Kept :
    {n : ℕ} {y z : System} (v : ℕ → ℕ)
    → Step n y z
    → Kept v (in_hands v n y) y.shared 0
    → Kept v (in_hands v n z) z.shared 0
Step-Kept {n} {y} v (worker_step i {p} h mv) k =
    let g = le-sum_below (worker_hand v) n y.worker i h in
    let c =
      Kept-worker v
        (sum_below (worker_hand v) n y.worker
          - worker_hand v (y.worker i)
          + sum_below (waiter_hand v) n y.waiter)
        mv (omega arith) in
    omega (arith, c, sum_below-update (worker_hand v) n y.worker i p h)
Step-Kept {n} {y} v (waiter_step i {p} h mv) k =
    let g = le-sum_below (waiter_hand v) n y.waiter i h in
    let c =
      Kept-waiter v
        (sum_below (waiter_hand v) n y.waiter
          - waiter_hand v (y.waiter i)
          + sum_below (worker_hand v) n y.worker)
        mv (omega arith) in
    omega (arith, c, sum_below-update (waiter_hand v) n y.waiter i p h)
Step-Kept {n} {y} v (submit_step i h mv) k = Kept-submit v (in_hands v n y) mv k
Step-Kept v pause_step k = k
Step-Kept v resume_step k = k
Step-Kept v (shutdown_step mode) k = ground arith

pub Reach-Kept :
    {n : ℕ} {y : System} (v : ℕ → ℕ)
    → Reach n y
    → total v y.shared.queued + in_hands v n y + total v y.shared.ran ≡ total v y.shared.pushed
Reach-Kept {n} v start = omega (
  arith,
  sum_below-zero (worker_hand v) n init.worker (λ i. refl),
  sum_below-zero (waiter_hand v) n init.waiter (λ i. refl),
)
Reach-Kept v (later r st) = omega (arith, Step-Kept v st (omega (arith, Reach-Kept v r)))

-- In every reachable state of a pool, every task `x` has been queued by submitters exactly as often
-- as it stands in the queues, is in the hands of a worker or a waiter that has not run it yet, or
-- has been run: none is lost, made up or run twice.
pub tasks_conserved :
    {n : ℕ} {y : System} (x : ℕ)
    → Reach n y
    → count x y.shared.queued + in_hands (is_that x) n y + count x y.shared.ran
      ≡ count x y.shared.pushed
tasks_conserved {y} x r = omega (
  arith,
  Reach-Kept (is_that x) r,
  count-total x y.shared.queued,
  count-total x y.shared.ran,
  count-total x y.shared.pushed,
)
