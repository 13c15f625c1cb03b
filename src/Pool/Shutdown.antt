-- ===== src/Pool/Shutdown.antt =====
-- What ThreadPool::shutdown does to the pool, its workers and its submitters.
use thread_pool_pro.Base.{
  ℕ, ◌≡◌, ◌≢◌, ◌⊎◌, inl, inr, refl, sym, subst, ap, ◌∙◌, false, arith, ℕ_discrete,
}
use thread_pool_pro.Pool.{
  running, shutting_down_finish, shutting_down_discard, ShutdownMode, Shared, desired,
  request_shutdown,
}
use thread_pool_pro.Pool.Worker.{WorkerPc, WorkerMove}
use thread_pool_pro.Pool.Submit.{SubmitPc, SubmitMove}
use thread_pool_pro.Pool.WaitIdle.{WaiterPc, WaiterMove}
use thread_pool_pro.Pool.System.{
  System, worker_step, submit_step, waiter_step, pause_step, resume_step, shutdown_step, Run, stay,
  onward,
}

-- In a stopped pool, a worker leaves the run state alone.
pub state-worker :
    {s s' : Shared} {q q' : WorkerPc}
    → WorkerMove s q s' q'
    → s.run_state ≢ running
    → s'.run_state ≡ s.run_state
state-worker (WorkerMove.shut_down mode e) h = absurd (h e)
state-worker mv h = refl

state-waiter : {s s' : Shared} {q q' : WaiterPc} → WaiterMove s q s' q' → s'.run_state ≡ s.run_state
state-waiter WaiterMove.enter = refl
state-waiter mv = refl

state-submit : {s s' : Shared} {q q' : SubmitPc} → SubmitMove s q s' q' → s'.run_state ≡ s.run_state
state-submit (SubmitMove.push {task}) = refl
state-submit mv = refl

-- `shutdown` chooses its mode in a running pool, and changes nothing in another.
pub request_shutdown_lem :
    (mode : ShutdownMode) (s : Shared)
    → (s.run_state ≡ running → (request_shutdown mode s).run_state ≡ desired mode)
      × (s.run_state ≢ running → request_shutdown mode s ≡ s)
request_shutdown_lem mode s = (ground arith, ground arith)

-- A pool that was shut down stays in the state that the first call chose, whatever its threads and
-- further calls of `shutdown` do.
pub first_shutdown_wins :
    {n : ℕ} {y z : System}
    → Run n y z
    → y.shared.run_state ≢ running
    → z.shared.run_state ≡ y.shared.run_state
first_shutdown_wins stay h = refl
first_shutdown_wins (onward r (worker_step i b mv)) h =
    let e = first_shutdown_wins r h in state-worker mv (λ d. h (sym e ∙ d)) ∙ e
first_shutdown_wins (onward r (submit_step i b mv)) h = state-submit mv ∙ first_shutdown_wins r h
first_shutdown_wins (onward r (waiter_step i b mv)) h = state-waiter mv ∙ first_shutdown_wins r h
first_shutdown_wins (onward r pause_step) h = first_shutdown_wins r h
first_shutdown_wins (onward r resume_step) h = first_shutdown_wins r h
first_shutdown_wins (onward {x} r (shutdown_step mode)) h =
    let e = first_shutdown_wins r h in
    ap (λ s. s.run_state) ((request_shutdown_lem mode x.shared).1 (λ d. h (sym e ∙ d))) ∙ e

-- 1 in a call of `submit` that has got past its test, or has returned.
abbrev pub let_in : SubmitPc → ℕ
let_in SubmitPc.free = 0
let_in (SubmitPc.returned t false) = 0
let_in _ = 1

refused-submit :
    {s s' : Shared} {q q' : SubmitPc}
    → SubmitMove s q s' q'
    → s.run_state ≢ running
    → let_in q ≡ 0
    → let_in q' ≡ 0
refused-submit (SubmitMove.check t e) h l = absurd (h e)
refused-submit mv h l = ground arith

-- After a shutdown, `submit` takes no task: a thread that is outside `submit` in a stopped pool, or
-- was refused, is never let in later.
pub late_submit_refused :
    {n : ℕ} {y z : System} (i : ℕ)
    → Run n y z
    → y.shared.run_state ≢ running
    → let_in (y.submitter i) ≡ 0
    → let_in (z.submitter i) ≡ 0
late_submit_refused i stay h l = l
late_submit_refused i (onward r (worker_step j b mv)) h l = late_submit_refused i r h l
late_submit_refused i (onward {x} r (submit_step j {p} b mv)) h l =
    let e = first_shutdown_wins r h in
    let k = late_submit_refused i r h l in
    elim (ℕ_discrete j i) [
      | yes d ↦
          let t =
            refused-submit mv (λ g. h (sym e ∙ g))
              (subst (λ a. let_in (x.submitter a) ≡ 0) (sym d) k) in
          ground (arith, t)
      | no d ↦ ground (arith, k)
    ]
late_submit_refused i (onward r (waiter_step j b mv)) h l = late_submit_refused i r h l
late_submit_refused i (onward r pause_step) h l = late_submit_refused i r h l
late_submit_refused i (onward r resume_step) h l = late_submit_refused i r h l
late_submit_refused i (onward r (shutdown_step mode)) h l = late_submit_refused i r h l

abbrev pub has_exited : WorkerPc → ℕ
has_exited WorkerPc.exited = 1
has_exited _ = 0

-- A worker leaves its loop, but by the task that called `shutdown`, only in a stopped pool, and in
-- `finish` mode only when it has seen `pendingTasks_` at 0.
pub exit-worker :
    {s s' : Shared} {q q' : WorkerPc}
    → WorkerMove s q s' q'
    → has_exited q' ≡ 1
    → (s.run_state ≡ shutting_down_discard)
      ⊎ ((s.run_state ≡ shutting_down_finish) × (s.pending ≡ 0))
exit-worker (WorkerMove.exit_discard e) x = inl e
exit-worker (WorkerMove.missed_discard e) x = inl e
exit-worker (WorkerMove.exit_finish e z) x = inr (e, z)
exit-worker (WorkerMove.missed_finish e z) x = inr (e, z)
exit-worker mv x = absurd (omega arith)
