-- ===== src/Examples/Pools.antt =====
-- A pool with one worker, one submitter and one waiter: one task is submitted and waited for, then
-- the pool is shut down.
use thread_pool_pro.Base.{
  ◌+◌, ◌≡◌, refl, true, false, [], arith, count, length, is_that, update, sum_below,
}
use thread_pool_pro.Pool.{Shared, ShutdownMode, queued_tasks}
use thread_pool_pro.Pool.Worker.{WorkerPc, WorkerMove}
use thread_pool_pro.Pool.Submit.{SubmitPc, SubmitMove}
use thread_pool_pro.Pool.WaitIdle.{WaiterPc, WaiterMove}
use thread_pool_pro.Pool.System.{
  System, worker_step, submit_step, waiter_step, shutdown_step, Reach, start, later, Run, stay,
  onward,
}
use thread_pool_pro.Pool.Shares.{worker_pending, waiter_pending}
use thread_pool_pro.Pool.Counters.{queued_tasks_exact}
use thread_pool_pro.Pool.Conservation.{in_hands, tasks_conserved}
use thread_pool_pro.Pool.Quiescence.{wait_idle_complete}
use thread_pool_pro.Pool.Shutdown.{first_shutdown_wins}
use thread_pool_pro.Pool.Drain.{finish_runs_all}

infixl 20 ◌▸◌ ◌▹◌ ◌⊵◌
abbrev ◌▸◌ :
    {y z : System} {s : Shared} {p : WorkerPc}
    → Run 1 y z
    → WorkerMove z.shared (z.worker 0) s p
    → Run 1 y (record z { shared = s; worker = update z.worker 0 p })
r ▸ mv = onward r (worker_step 0 (omega arith) mv)

abbrev ◌⊵◌ :
    {y z : System} {s : Shared} {p : WaiterPc}
    → Run 1 y z
    → WaiterMove z.shared (z.waiter 0) s p
    → Run 1 y (record z { shared = s; waiter = update z.waiter 0 p })
r ⊵ mv = onward r (waiter_step 0 (omega arith) mv)

abbrev ◌▹◌ :
    {y : System} {s : Shared} {p : SubmitPc}
    → Reach 1 y
    → SubmitMove y.shared (y.submitter 0) s p
    → Reach 1 (record y { shared = s; submitter = update y.submitter 0 p })
r ▹ mv = later r (submit_step 0 (omega arith) mv)

-- Task 5 is submitted.
abbrev submitted : (y : System) × Reach 1 y
submitted = (
  _,
  start
      ▹ SubmitMove.check 5 refl
      ▹ SubmitMove.push
      ▹ SubmitMove.announce
      ▹ SubmitMove.skip_notify refl,
)

-- `waitIdle` runs it and leaves.
abbrev waited : (z : System) × Run 1 submitted.0 z
waited = (
  _,
  stay
      ⊵ WaiterMove.enter
      ⊵ WaiterMove.go_on refl
      ⊵ WaiterMove.see_pending (λ e. omega arith)
      ⊵ WaiterMove.find [] 5 [] refl
      ⊵ WaiterMove.commit
      ⊵ WaiterMove.uncount
      ⊵ WaiterMove.execute false
      ⊵ WaiterMove.count_exception
      ⊵ WaiterMove.settle
      ⊵ WaiterMove.skip_notify (omega arith)
      ⊵ WaiterMove.go_on refl
      ⊵ WaiterMove.see_none refl
      ⊵ WaiterMove.see_idle refl,
)

-- Instead, the pool is shut down, and the worker runs it and leaves.
abbrev stopped : (z : System) × Run 1 submitted.0 z
stopped = (_, onward stay (shutdown_step ShutdownMode.finish_tasks))

abbrev finished : (z : System) × Run 1 submitted.0 z
finished = (
  _,
  stopped.1
      ▸ WorkerMove.go_on refl
      ▸ WorkerMove.fetch_finish refl (λ e. omega arith)
      ▸ WorkerMove.find [] 5 [] refl
      ▸ WorkerMove.commit refl
      ▸ WorkerMove.uncount
      ▸ WorkerMove.execute true
      ▸ WorkerMove.count_exception
      ▸ WorkerMove.settle
      ▸ WorkerMove.skip_notify refl
      ▸ WorkerMove.go_on refl
      ▸ WorkerMove.exit_finish refl refl,
)

-- From the shutdown on, a second shutdown, and a call of `submit`.
abbrev drained : (z : System) × Run 1 stopped.0 z
drained = (_, onward stay (shutdown_step ShutdownMode.discard_tasks))

abbrev after_return : (z : System) × Run 1 stopped.0 z
after_return = (_, onward stay (submit_step 0 (omega arith) SubmitMove.again))

wait_idle_complete_example : count 5 waited.0.shared.ran ≡ count 5 waited.0.shared.pushed
wait_idle_complete_example =
    wait_idle_complete 0 (omega arith) submitted.1 (λ i. ground arith) refl waited.1 refl
      (omega arith) refl 5

finish_runs_all_example : count 5 finished.0.shared.ran ≡ count 5 finished.0.shared.pushed
finish_runs_all_example =
    finish_runs_all (omega arith) (omega arith) submitted.1 (λ i. ground arith) refl finished.1 refl
      (omega arith) refl (λ i h. ground arith) (λ i h. refl) 5

tasks_conserved_example :
    count 5 submitted.0.shared.queued
      + in_hands (is_that 5) 1 submitted.0
      + count 5 submitted.0.shared.ran
    ≡ count 5 submitted.0.shared.pushed
tasks_conserved_example = tasks_conserved 5 submitted.1

queued_tasks_exact_example :
    queued_tasks submitted.0.shared
    ≡ length submitted.0.shared.queued
      + (sum_below worker_pending 1 submitted.0.worker
          + sum_below waiter_pending 1 submitted.0.waiter)
queued_tasks_exact_example =
    queued_tasks_exact (omega arith) submitted.1 (λ i. ground arith) (omega arith) (omega arith)

first_shutdown_wins_example : drained.0.shared.run_state ≡ stopped.0.shared.run_state
first_shutdown_wins_example = first_shutdown_wins drained.1 (λ e. ground arith)
