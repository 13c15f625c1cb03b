-- ===== src/Pool/Workload.antt =====
-- The work of a pool to which nobody submits: it never grows.
use thread_pool_pro.Base.{
  ℕ, ◌+◌, ◌^◌, ◌≤◌, ◌<◌, ◌≡◌, refl, ap, List, [], ◌∷◌, arith, length, length-append, length-total,
  count, total, is_that, count-total, sum_below, sum_below-update, sum_below-le, le-sum_below,
  sum_below-le_add, sum_below-zero,
}
use thread_pool_pro.Pool.{Shared}
use thread_pool_pro.Pool.Worker.{WorkerPc, WorkerMove}
use thread_pool_pro.Pool.Submit.{SubmitPc, SubmitMove}
use thread_pool_pro.Pool.WaitIdle.{WaiterPc, WaiterMove}
use thread_pool_pro.Pool.System.{
  System, Step, worker_step, submit_step, waiter_step, pause_step, resume_step, shutdown_step,
  Reach, Run, stay, onward, later,
}
use thread_pool_pro.Pool.Shares.{
  worker_active, worker_pending, waiter_active, waiter_pending, is_unannounced, worker_pending-le,
  waiter_pending-le,
}
use thread_pool_pro.Pool.Counters.{Reach-Balanced}
use thread_pool_pro.Pool.Conservation.{worker_hand, waiter_hand, Reach-Kept, tasks_conserved}

-- No submission is between its push and its count.
abbrev pub IsSettled : System → Type 0
IsSettled y = (i : ℕ) → is_unannounced (y.submitter i) ≡ 0

-- The tasks that are queued, or fetched and not yet taken off `pendingTasks_`.
abbrev pub load : ℕ → System → ℕ
load n y =
    length y.shared.queued
    + (sum_below worker_pending n y.worker + sum_below waiter_pending n y.waiter)

-- The threads that `activeTasks_` counts.
abbrev pub busy : ℕ → System → ℕ
busy n y = sum_below worker_active n y.worker + sum_below waiter_active n y.waiter

-- A worker's move takes no load on, and starts no task unless there is one.
load-worker :
    {s s' : Shared} {q q' : WorkerPc}
    → WorkerMove s q s' q'
    → (length s'.queued + worker_pending q' ≤ length s.queued + worker_pending q)
      × (worker_active q' ≤ worker_active q + worker_pending q)
load-worker (WorkerMove.find before task others e) =
    ground (arith, ap length e, length-append before (task ∷ others), length-append before others)
load-worker {s} (WorkerMove.put_back {task} x y) =
    ground (arith, length-append s.queued (task ∷ []))
load-worker mv = ground arith

load-waiter :
    {s s' : Shared} {q q' : WaiterPc}
    → WaiterMove s q s' q'
    → (length s'.queued + waiter_pending q' ≤ length s.queued + waiter_pending q)
      × (waiter_active q' ≤ waiter_active q + waiter_pending q)
load-waiter (WaiterMove.find before task others e) =
    ground (arith, ap length e, length-append before (task ∷ others), length-append before others)
load-waiter mv = ground arith

load-submit :
    {s s' : Shared} {q q' : SubmitPc}
    → SubmitMove s q s' q'
    → length s'.pushed ≡ length s.pushed
    → (length s'.queued ≡ length s.queued) × (is_unannounced q' ≤ is_unannounced q)
load-submit (SubmitMove.push {task}) e = absurd (omega arith)
load-submit mv e = ground arith

-- What a step without a push keeps.
abbrev pub Eases : ℕ → System → System → Type 0
Eases n y z = IsSettled z × (load n z ≤ load n y) × (load n y ≡ 0 → busy n z ≤ busy n y)

pub Step-Eases :
    {n : ℕ} {y z : System}
    → Step n y z
    → length z.shared.pushed ≡ length y.shared.pushed
    → IsSettled y
    → Eases n y z
Step-Eases {n} {y} (worker_step i {p} h mv) e q =
    let m = load-worker mv in
    let u = sum_below-update worker_pending n y.worker i p h in
    let v = sum_below-update worker_active n y.worker i p h in
    let g = le-sum_below worker_pending n y.worker i h in (q, omega arith, λ z. omega arith)
Step-Eases {n} {y} (waiter_step i {p} h mv) e q =
    let m = load-waiter mv in
    let u = sum_below-update waiter_pending n y.waiter i p h in
    let v = sum_below-update waiter_active n y.waiter i p h in
    let g = le-sum_below waiter_pending n y.waiter i h in (q, omega arith, λ z. omega arith)
Step-Eases {y} (submit_step i {p} h mv) e q =
    let m = load-submit mv e in (λ j. ground (arith, q i, q j), omega arith, λ z. omega arith)
Step-Eases pause_step e q = (q, omega arith, λ z. omega arith)
Step-Eases resume_step e q = (q, omega arith, λ z. omega arith)
Step-Eases (shutdown_step mode) e q = (q, ground arith, λ z. ground arith)

pushed-worker : {s s' : Shared} {q q' : WorkerPc} → WorkerMove s q s' q' → s'.pushed ≡ s.pushed
pushed-worker (WorkerMove.shut_down mode e) = ground arith
pushed-worker mv = refl

pushed-waiter : {s s' : Shared} {q q' : WaiterPc} → WaiterMove s q s' q' → s'.pushed ≡ s.pushed
pushed-waiter WaiterMove.enter = refl
pushed-waiter mv = refl

pushed-submit :
    {s s' : Shared} {q q' : SubmitPc} → SubmitMove s q s' q' → length s.pushed ≤ length s'.pushed
pushed-submit (SubmitMove.push {task}) = omega arith
pushed-submit mv = omega arith

-- Nothing is taken back from the history of pushes.
pub Step-pushed :
    {n : ℕ} {y z : System} → Step n y z → length y.shared.pushed ≤ length z.shared.pushed
Step-pushed (worker_step i h mv) = omega (arith, ap length (pushed-worker mv))
Step-pushed (submit_step i h mv) = pushed-submit mv
Step-pushed (waiter_step i h mv) = omega (arith, ap length (pushed-waiter mv))
Step-pushed pause_step = omega arith
Step-pushed resume_step = omega arith
Step-pushed (shutdown_step mode) = ground arith

pub Run-pushed :
    {n : ℕ} {y z : System} → Run n y z → length y.shared.pushed ≤ length z.shared.pushed
Run-pushed stay = omega arith
Run-pushed (onward r st) = omega (arith, Run-pushed r, Step-pushed st)

pub Run-Reach : {n : ℕ} {y z : System} → Reach n y → Run n y z → Reach n z
Run-Reach r stay = r
Run-Reach r (onward h st) = later (Run-Reach r h) st

-- With few threads and tasks, a settled pool whose `pendingTasks_` is 0 has no load.
pub none_pending-load :
    {n : ℕ} {y : System}
    → n < 2 ^ 62
    → Reach n y
    → IsSettled y
    → length y.shared.pushed < 2 ^ 62
    → y.shared.pending ≡ 0
    → load n y ≡ 0
none_pending-load {n} {y} few r q small e = omega (
  arith,
  Reach-Balanced few r,
  Reach-Kept (λ x. 1) r,
  length-total y.shared.queued,
  length-total y.shared.pushed,
  sum_below-zero is_unannounced n y.submitter q,
  sum_below-le worker_pending worker_pending-le n y.worker,
  sum_below-le waiter_pending waiter_pending-le n y.waiter,
)

length-none : (xs : List ℕ) (v : ℕ → ℕ) → length xs ≡ 0 → total v xs ≡ 0
length-none [] v e = refl
length-none (x ∷ xs) v e = absurd (omega arith)

-- A pool without load and without busy threads has run each task as often as it was pushed.
pub all_ran :
    {n : ℕ} {y : System} (x : ℕ)
    → Reach n y
    → load n y ≡ 0
    → busy n y ≡ 0
    → count x y.shared.ran ≡ count x y.shared.pushed
all_ran {n} {y} x r l b = omega (
  arith,
  tasks_conserved x r,
  count-total x y.shared.queued,
  length-none y.shared.queued (is_that x) (omega arith),
  sum_below-le_add (worker_hand (is_that x)) worker_pending worker_active (λ q. ground arith) n
      y.worker,
  sum_below-le_add (waiter_hand (is_that x)) waiter_pending waiter_active (λ q. ground arith) n
      y.waiter,
)
