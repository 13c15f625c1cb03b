-- ===== src/Pool/Races.antt =====
-- Interleavings of submit with workers, shutdown and waitIdle that the theorems on quiet pools
-- exclude, and a task that calls shutdown.
use thread_pool_pro.Base.{
  ℕ, suc, ◌<◌, ◌≡◌, ◌≢◌, ◌∙◌, ap, subst, refl, true, [], ◌∷◌, arith, count, update,
}
use thread_pool_pro.Pool.Abandonment.{may_work, may_push, may_fetch, NeverRun, abandoned_lem}
use thread_pool_pro.Pool.{Shared, ShutdownMode, running, shutting_down_finish}
use thread_pool_pro.Pool.Worker.{WorkerPc, WorkerMove}
use thread_pool_pro.Pool.Submit.{SubmitPc, SubmitMove}
use thread_pool_pro.Pool.WaitIdle.{WaiterPc, WaiterMove}
use thread_pool_pro.Pool.System.{
  System, worker_step, submit_step, waiter_step, shutdown_step, Reach, start, later, Run, stay,
  onward,
}

-- The history of a pool, extended by an access of the first worker, of one of two submitters, or of
-- the first waiter.
infixl 20 ◌▸◌ ◌▹◌ ◌⊳◌ ◌⊵◌ ◌▷◌
abbrev ◌▸◌ :
    {n : ℕ} {y : System} {s : Shared} {p : WorkerPc}
    → Reach (suc n) y
    → WorkerMove y.shared (y.worker 0) s p
    → Reach (suc n) (record y { shared = s; worker = update y.worker 0 p })
r ▸ mv = later r (worker_step 0 (omega arith) mv)

abbrev ◌▹◌ :
    {n : ℕ} {y : System} {s : Shared} {p : SubmitPc}
    → Reach (suc n) y
    → SubmitMove y.shared (y.submitter 0) s p
    → Reach (suc n) (record y { shared = s; submitter = update y.submitter 0 p })
r ▹ mv = later r (submit_step 0 (omega arith) mv)

abbrev ◌⊳◌ :
    {y : System} {s : Shared} {p : SubmitPc}
    → Reach 2 y
    → SubmitMove y.shared (y.submitter 1) s p
    → Reach 2 (record y { shared = s; submitter = update y.submitter 1 p })
r ⊳ mv = later r (submit_step 1 (omega arith) mv)

abbrev ◌⊵◌ :
    {n : ℕ} {y : System} {s : Shared} {p : WaiterPc}
    → Reach (suc n) y
    → WaiterMove y.shared (y.waiter 0) s p
    → Reach (suc n) (record y { shared = s; waiter = update y.waiter 0 p })
r ⊵ mv = later r (waiter_step 0 (omega arith) mv)

-- The same for what a pool goes on to.
abbrev ◌▷◌ :
    {n : ℕ} {x y : System} {s : Shared} {p : WorkerPc}
    → Run (suc n) x y
    → WorkerMove y.shared (y.worker 0) s p
    → Run (suc n) x (record y { shared = s; worker = update y.worker 0 p })
r ▷ mv = onward r (worker_step 0 (omega arith) mv)

alone : {P : Type 0} (f : P → ℕ) (g : ℕ → P) → f (g 0) ≡ 0 → (i : ℕ) → i < 1 → f (g i) ≡ 0
alone f g e i b = let d : 0 ≡ i = omega arith in subst (λ j. f (g j) ≡ 0) d e

-- In a stopped pool of one worker that has left its loop, with no thread on its way to a task, what is
-- queued is never run.
never_run :
    (x : ℕ) (y : System)
    → y.shared.run_state ≢ running
    → may_work (y.worker 0) ≡ 0
    → may_push (y.submitter 0) ≡ 0
    → may_fetch (y.waiter 0) ≡ 0
    → count x y.shared.queued ≡ 1
    → count x y.shared.ran ≡ 0
    → NeverRun 1 x y
never_run x y h w s f q r z run =
    let (b, (e, g)) =
      abandoned_lem run
        (h, alone may_work y.worker w, alone may_push y.submitter s, alone may_fetch y.waiter f) in
    (ap (count x) e ∙ q, ap (count x) g ∙ r)

-- `submit` tests the state of the pool before it queues its task. In a pool of one worker, one
-- submitter and one waiter, for any task `x`: there is a reachable state, after a shutdown in `finish`
-- mode, in which the worker has left its loop and the submitter has passed the test and not yet queued
-- `x`. From there, `submit` can queue `x` and return; and however the pool goes on after that, `x`
-- stays queued and is never run.
pub accepted_task_lost :
    (x : ℕ)
    → (y : System) × Reach 1 y
      × ((y.shared.run_state ≡ shutting_down_finish)
          × (y.worker 0 ≡ WorkerPc.exited)
          × (y.submitter 0 ≡ SubmitPc.checked x)
          × (count x y.shared.queued ≡ 0))
      × ((z : System) × Run 1 y z × (z.submitter 0 ≡ SubmitPc.returned x true) × NeverRun 1 x z)
accepted_task_lost x = (
  _,
  later (start ▹ SubmitMove.check x refl) (shutdown_step ShutdownMode.finish_tasks)
      ▸ WorkerMove.go_on refl
      ▸ WorkerMove.exit_finish refl refl,
  (refl, refl, refl, refl),
  (
    _,
    onward
        (onward (onward stay (submit_step 0 (omega arith) SubmitMove.push))
          (submit_step 0 (omega arith) SubmitMove.announce))
        (submit_step 0 (omega arith) (SubmitMove.skip_notify refl)),
    refl,
    never_run x _ (λ e. absurd (ground (arith, e))) refl refl refl (ground arith) (ground arith),
  ),
)

-- In a pool of one worker, one submitter and one waiter, for different tasks `x` and `y`: there is
-- a reachable state in which the pool is running, both tasks are queued and counted, and no call of
-- `submit` is under way, that of `y` having returned. From there the worker can come to a state in
-- which it is inside `x`, which has just called `shutdown` in `finish` mode. After `x` it can leave
-- its loop; and however the pool goes on after that, `y` stays queued and is never run.
pub finish_abandons :
    (x y : ℕ)
    → x ≢ y
    → (a : System) × Reach 1 a
      × ((a.shared.run_state ≡ running)
          × (a.submitter 0 ≡ SubmitPc.returned y true)
          × (count x a.shared.queued ≡ 1)
          × (count y a.shared.queued ≡ 1)
          × (a.shared.pending ≡ 2))
      × ((b : System) × Run 1 a b
          × ((b.shared.run_state ≡ shutting_down_finish)
              × (b.worker 0 ≡ WorkerPc.stopping x)
              × (count y b.shared.queued ≡ 1))
          × ((z : System) × Run 1 b z
              × ((z.worker 0 ≡ WorkerPc.detached) × (count x z.shared.ran ≡ 1))
              × NeverRun 1 y z))
finish_abandons x y h = (
  _,
  start
      ▹ SubmitMove.check x refl
      ▹ SubmitMove.push
      ▹ SubmitMove.announce
      ▹ SubmitMove.skip_notify refl
      ▹ SubmitMove.again
      ▹ SubmitMove.check y refl
      ▹ SubmitMove.push
      ▹ SubmitMove.announce
      ▹ SubmitMove.skip_notify refl,
  (refl, refl, ground arith, ground arith, refl),
  (
    _,
    stay
        ▷ WorkerMove.go_on refl
        ▷ WorkerMove.fetch_running refl
        ▷ WorkerMove.find [] x (y ∷ []) refl
        ▷ WorkerMove.commit refl
        ▷ WorkerMove.uncount
        ▷ WorkerMove.shut_down ShutdownMode.finish_tasks refl,
    (refl, refl, ground arith),
    (
      _,
      stay ▷ WorkerMove.detach,
      (refl, ground arith),
      never_run y _ (λ e. absurd (ground (arith, e))) refl refl refl (ground arith) (ground arith),
    ),
  ),
)
