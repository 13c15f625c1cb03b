-- ===== src/Pool/Abandonment.antt =====
-- A stopped pool without workers in their loops: what is queued in it stays there.
use thread_pool_pro.Base.{ℕ, ◌<◌, ◌≡◌, ◌≢◌, ◌∙◌, refl, sym, ap, arith, count, ℕ_discrete, update}
use thread_pool_pro.Pool.{running, Shared}
use thread_pool_pro.Pool.Worker.{WorkerPc, WorkerMove}
use thread_pool_pro.Pool.Submit.{SubmitPc, SubmitMove}
use thread_pool_pro.Pool.WaitIdle.{WaiterPc, WaiterMove}
use thread_pool_pro.Pool.System.{
  System, Step, worker_step, submit_step, waiter_step, pause_step, resume_step, shutdown_step, Run,
  stay, onward,
}
use thread_pool_pro.Pool.Shutdown.{first_shutdown_wins, request_shutdown_lem}

-- 0 in a worker that has left its loop.
abbrev pub may_work : WorkerPc → ℕ
may_work WorkerPc.exited = 0
may_work WorkerPc.detached = 0
may_work _ = 1

-- 1 in a call of `submit` that has passed its test and has not queued its task.
abbrev pub may_push : SubmitPc → ℕ
may_push (SubmitPc.checked t) = 1
may_push _ = 0

-- 1 in a call of `waitIdle` that may still take a task, or run the one that it has.
abbrev pub may_fetch : WaiterPc → ℕ
may_fetch WaiterPc.still_running = 1
may_fetch WaiterPc.none_pending = 1
may_fetch WaiterPc.fetching = 1
may_fetch (WaiterPc.got t) = 1
may_fetch (WaiterPc.counted t) = 1
may_fetch (WaiterPc.executing t) = 1
may_fetch _ = 0

-- What the threads of a pool do no more.
abbrev pub IsAbandoned : ℕ → System → Type 0
IsAbandoned n y =
    (y.shared.run_state ≢ running)
    × ((i : ℕ) → i < n → may_work (y.worker i) ≡ 0)
    × ((i : ℕ) → i < n → may_push (y.submitter i) ≡ 0)
    × ((i : ℕ) → i < n → may_fetch (y.waiter i) ≡ 0)

-- The queued tasks and those that were run are the same.
abbrev pub SameTasks : Shared → Shared → Type 0
SameTasks s s' = (s'.queued ≡ s.queued) × (s'.ran ≡ s.ran)

no_work : {s s' : Shared} {q q' : WorkerPc} → WorkerMove s q s' q' → may_work q ≢ 0
no_work (WorkerMove.go_on e) h = omega arith
no_work mv h = omega arith

still-submit :
    {s s' : Shared} {q q' : SubmitPc}
    → SubmitMove s q s' q'
    → s.run_state ≢ running
    → may_push q ≡ 0
    → (may_push q' ≡ 0) × SameTasks s s'
still-submit (SubmitMove.check t e) h l = absurd (h e)
still-submit mv h l = ground arith

still-waiter :
    {s s' : Shared} {q q' : WaiterPc}
    → WaiterMove s q s' q'
    → s.run_state ≢ running
    → may_fetch q ≡ 0
    → (may_fetch q' ≡ 0) × SameTasks s s'
still-waiter (WaiterMove.go_on e) h l = absurd (h e)
still-waiter mv h l = ground arith

-- A family of threads stays below a bound when one of them moves.
update-zero :
    {P : Type 0} (f : P → ℕ) (n i : ℕ) (p : P) (g : ℕ → P)
    → f p ≡ 0
    → ((j : ℕ) → j < n → f (g j) ≡ 0)
    → (j : ℕ) → j < n
    → f (update g i p j) ≡ 0
update-zero f n i p g e h j b = elim (ℕ_discrete i j) [
  | yes d ↦ ground (arith, e)
  | no d ↦ ground (arith, h j b)
]

Step-IsAbandoned :
    {n : ℕ} {y z : System}
    → Step n y z
    → IsAbandoned n y
    → ((i : ℕ) → i < n → may_work (z.worker i) ≡ 0)
      × ((i : ℕ) → i < n → may_push (z.submitter i) ≡ 0)
      × ((i : ℕ) → i < n → may_fetch (z.waiter i) ≡ 0)
      × SameTasks y.shared z.shared
Step-IsAbandoned (worker_step i b mv) (h, w, s, f) = absurd (no_work mv (w i b))
Step-IsAbandoned {n} {y} (submit_step i {p} b mv) (h, w, s, f) =
    let (k, same) = still-submit mv h (s i b) in
    (w, update-zero may_push n i p y.submitter k s, f, same)
Step-IsAbandoned {n} {y} (waiter_step i {p} b mv) (h, w, s, f) =
    let (k, same) = still-waiter mv h (f i b) in
    (w, s, update-zero may_fetch n i p y.waiter k f, same)
Step-IsAbandoned pause_step (h, w, s, f) = (w, s, f, (refl, refl))
Step-IsAbandoned resume_step (h, w, s, f) = (w, s, f, (refl, refl))
Step-IsAbandoned {y} (shutdown_step mode) (h, w, s, f) =
    let e = (request_shutdown_lem mode y.shared).1 h in
    (w, s, f, (ap (λ t. t.queued) e, ap (λ t. t.ran) e))

-- However an abandoned pool goes on, by calls of `submit`, `waitIdle`, `pause`, `resume` and
-- `shutdown`: it stays abandoned, and no task is queued, taken or run any more.
pub abandoned_lem :
    {n : ℕ} {y z : System}
    → Run n y z
    → IsAbandoned n y
    → IsAbandoned n z × SameTasks y.shared z.shared
abandoned_lem stay a = (a, (refl, refl))
abandoned_lem (onward {x} r st) a =
    let (b, (q, ran)) = abandoned_lem r a in
    let (w, s, f, (q', ran')) = Step-IsAbandoned st b in
    ((λ e. a.0 (sym (first_shutdown_wins (onward r st) a.0) ∙ e), w, s, f), (q' ∙ q, ran' ∙ ran))

-- In every state that the pool goes on to, the task `x` is queued once and has not been run.
abbrev pub NeverRun : ℕ → ℕ → System → Type 0
NeverRun n x y =
    (z : System) → Run n y z → (count x z.shared.queued ≡ 1) × (count x z.shared.ran ≡ 0)
