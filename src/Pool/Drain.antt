-- ===== src/Pool/Drain.antt =====
-- What has happened when all workers of a pool have left their loops.
use thread_pool_pro.Base.{
  ℕ, ◌^◌, ◌<◌, ◌≡◌, ◌≢◌, inl, inr, sym, ap, ◌∙◌, length, count, arith, ℕ_discrete,
  sum_below-zero_below,
}
use thread_pool_pro.Pool.{Shared, running, shutting_down_finish}
use thread_pool_pro.Pool.Worker.{WorkerPc, WorkerMove}
use thread_pool_pro.Pool.System.{
  System, Step, worker_step, submit_step, waiter_step, pause_step, resume_step, shutdown_step,
  Reach, start, later, Run, stay, onward,
}
use thread_pool_pro.Pool.Shares.{waiter_active, worker_active}
use thread_pool_pro.Pool.Workload.{
  IsSettled, load, Step-Eases, Step-pushed, Run-pushed, Run-Reach, none_pending-load, all_ran,
}
use thread_pool_pro.Pool.Shutdown.{first_shutdown_wins, state-worker, has_exited, exit-worker}

exits_stopped :
    {s s' : Shared} {q q' : WorkerPc}
    → WorkerMove s q s' q'
    → has_exited q' ≡ 1
    → s.run_state ≢ running
exits_stopped mv x = elim (exit-worker mv x) [
  | inl e ↦ λ g. ground arith
  | inr e ↦ λ g. ground arith
]

-- A worker that has left its loop has seen the pool stopped.
pub exited_stopped :
    {n : ℕ} {y : System} (i : ℕ)
    → Reach n y
    → has_exited (y.worker i) ≡ 1
    → y.shared.run_state ≢ running
exited_stopped i start x = absurd (omega arith)
exited_stopped i (later {y} r (worker_step j b mv)) x = elim (ℕ_discrete j i) [
  | yes d ↦ let h = exits_stopped mv (ground (arith, x)) in λ g. h (sym (state-worker mv h) ∙ g)
  | no d ↦ let h = exited_stopped i r (ground (arith, x)) in λ g. h (sym (state-worker mv h) ∙ g)
]
exited_stopped i (later r st) x =
    let h = exited_stopped i r x in λ g. h (sym (first_shutdown_wins (onward stay st) h) ∙ g)

-- If a worker has left its loop in `finish` mode, nothing is left to fetch.
abbrev Drained : ℕ → System → Type 0
Drained n y =
    IsSettled y
    × ((i : ℕ)
        → has_exited (y.worker i) ≡ 1
        → y.shared.run_state ≡ shutting_down_finish
        → load n y ≡ 0)

module _ {n : ℕ} (y : System) where
  -- A step that leaves the workers alone.
  elsewhere-Drained :
      (z : System)
      → Reach n y
      → Step n y z
      → length z.shared.pushed ≡ length y.shared.pushed
      → Drained n y
      → IsSettled z
        × ((i : ℕ)
            → has_exited (y.worker i) ≡ 1
            → z.shared.run_state ≡ shutting_down_finish
            → load n z ≡ 0)
  elsewhere-Drained z r st e d =
      let es = Step-Eases st e d.0 in
      (
        es.0,
        λ i x f.
            let g = first_shutdown_wins (onward stay st) (exited_stopped i r x) in
            omega (arith, es, d.1 i x (sym g ∙ f)),
      )

  Step-Drained :
      {z : System}
      → n < 2 ^ 62
      → Reach n y
      → length y.shared.pushed < 2 ^ 62
      → Step n y z
      → length z.shared.pushed ≡ length y.shared.pushed
      → Drained n y
      → Drained n z
  Step-Drained few r small (worker_step j {s} {p} b mv) e d =
      let es = Step-Eases {n = n} {y = y} (worker_step j b mv) e d.0 in
      (
        es.0,
        λ i x f. elim (ℕ_discrete j i) [
          | yes k ↦
              let out : has_exited p ≡ 1 = ground (arith, x) in
              let g = state-worker mv (exits_stopped mv out) in
              elim (exit-worker mv out) [
                | inl c ↦ absurd (ground (arith, g, c, f))
                | inr c ↦ omega (arith, es, none_pending-load few r d.0 small c.1)
              ]
          | no k ↦
              let was : has_exited (y.worker i) ≡ 1 = ground (arith, x) in
              let g = state-worker mv (exited_stopped i r was) in
              omega (arith, es, d.1 i was (sym g ∙ f))
        ],
      )
  Step-Drained {z} few r small (waiter_step j h mv) e d =
      elsewhere-Drained z r (waiter_step j h mv) e d
  Step-Drained {z} few r small (submit_step j h mv) e d =
      elsewhere-Drained z r (submit_step j h mv) e d
  Step-Drained {z} few r small pause_step e d = elsewhere-Drained z r pause_step e d
  Step-Drained {z} few r small resume_step e d = elsewhere-Drained z r resume_step e d
  Step-Drained {z} few r small (shutdown_step mode) e d =
      elsewhere-Drained z r (shutdown_step mode) e d

Run-Drained :
    {n : ℕ} {y z : System}
    → n < 2 ^ 62
    → Reach n y
    → Run n y z
    → length z.shared.pushed ≡ length y.shared.pushed
    → length y.shared.pushed < 2 ^ 62
    → Drained n y
    → Drained n z
Run-Drained few r stay e small d = d
Run-Drained few r (onward {x} h st) e small d =
    let a = Run-pushed h in
    let b = Step-pushed st in
    Step-Drained x few (Run-Reach r h) (omega arith) st (omega arith)
      (Run-Drained few r h (omega arith) small d)

-- A pool with fewer than 2 ^ 62 threads of each kind and tasks ever pushed. Suppose that it runs in
-- a reachable state in which no submission is between its push and its count, that no task is
-- pushed from then on, and that it is shut down in `finish` mode. When all its workers, of which
-- there is one at least, have left their loops other than by a task that called `shutdown`, and no
-- call of `waitIdle` is running a task, every task has been run as often as it was pushed.
pub finish_runs_all :
    {n : ℕ} {y z : System}
    → 0 < n
    → n < 2 ^ 62
    → Reach n y
    → IsSettled y
    → y.shared.run_state ≡ running
    → Run n y z
    → length z.shared.pushed ≡ length y.shared.pushed
    → length y.shared.pushed < 2 ^ 62
    → z.shared.run_state ≡ shutting_down_finish
    → ((i : ℕ) → i < n → z.worker i ≡ WorkerPc.exited)
    → ((i : ℕ) → i < n → waiter_active (z.waiter i) ≡ 0)
    → (x : ℕ) → count x z.shared.ran ≡ count x z.shared.pushed
finish_runs_all {n} {z} some_worker few r q up h e small f out still x =
    let d = Run-Drained few r h e small (q, λ i a b. absurd (exited_stopped i r a up)) in
    let l = d.1 0 (ap has_exited (out 0 some_worker)) f in
    all_ran x (Run-Reach r h) l (
      omega (
        arith,
        sum_below-zero_below worker_active n z.worker (λ i b. ap worker_active (out i b)),
        sum_below-zero_below waiter_active n z.waiter still,
      ))
