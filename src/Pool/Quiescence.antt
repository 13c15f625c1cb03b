-- ===== src/Pool/Quiescence.antt =====
-- What a return of ThreadPool::waitIdle says.
use thread_pool_pro.Base.{
  ℕ, ◌^◌, ◌<◌, ◌≡◌, refl, sym, subst, ap, true, false, length, count, arith, update, ℕ_discrete,
}
use thread_pool_pro.Pool.{Shared}
use thread_pool_pro.Pool.WaitIdle.{WaiterPc, WaiterMove}
use thread_pool_pro.Pool.Counters.{Reach-Balanced}
use thread_pool_pro.Pool.System.{
  System, Step, worker_step, submit_step, waiter_step, pause_step, resume_step, shutdown_step,
  Reach, Run, stay, onward,
}
use thread_pool_pro.Pool.Workload.{
  IsSettled, load, busy, Eases, Step-Eases, Step-pushed, Run-pushed, Run-Reach, none_pending-load,
  all_ran,
}

-- 1 after `pendingTasks_` was seen at 0, 2 after `activeTasks_` was, too.
abbrev pub stage : WaiterPc → ℕ
stage WaiterPc.none_pending = 1
stage (WaiterPc.leaving true) = 2
stage (WaiterPc.returned true) = 2
stage _ = 0

-- What the waiter has seen still holds.
abbrev Seen : ℕ → System → WaiterPc → Type 0
Seen n y q = (stage q ≡ 1 → load n y ≡ 0) × (stage q ≡ 2 → (load n y ≡ 0) × (busy n y ≡ 0))

module _ (n : ℕ) (y : System) where
  Seen-Eases : (z : System) (q : WaiterPc) → Eases n y z → Seen n y q → Seen n z q
  Seen-Eases z q e s =
      (λ h. omega (arith, e, s.0 h), λ h. (omega (arith, e, s.1 h), omega (arith, e, s.1 h)))

  -- A load of a counter that finds 0 makes it true.
  Seen-move :
      {s' : Shared} {q q' : WaiterPc}
      → WaiterMove y.shared q s' q'
      → (y.shared.pending ≡ 0 → load n y ≡ 0)
      → (y.shared.active ≡ 0 → busy n y ≡ 0)
      → Seen n y q
      → Seen n y q'
  Seen-move (WaiterMove.see_none e) hp ha s = (λ h. hp e, λ h. absurd (omega arith))
  Seen-move (WaiterMove.see_idle e) hp ha s = (λ h. absurd (omega arith), λ h. (s.0 refl, ha e))
  Seen-move (WaiterMove.leave {idle = true}) hp ha s = s
  Seen-move (WaiterMove.leave {idle = false}) hp ha s = s
  Seen-move (WaiterMove.stopped e) hp ha s = (λ h. absurd (omega arith), λ h. absurd (omega arith))
  Seen-move mv hp ha s = (λ h. absurd (omega arith), λ h. absurd (omega arith))

  Seen-update :
      (i j : ℕ) {s' : Shared} {q' : WaiterPc}
      → WaiterMove y.shared (y.waiter j) s' q'
      → (y.shared.pending ≡ 0 → load n y ≡ 0)
      → (y.shared.active ≡ 0 → busy n y ≡ 0)
      → Seen n y (y.waiter i)
      → Seen n y (update y.waiter j q' i)
  Seen-update i j mv hp ha s = elim (ℕ_discrete j i) [
    | yes d ↦
        let t = Seen-move mv hp ha (subst (λ k. Seen n y (y.waiter k)) (sym d) s) in
        ground (arith, t)
    | no d ↦ ground (arith, s)
  ]

-- What a run without pushes keeps, for the waiter `i`.
abbrev Watched : ℕ → ℕ → System → Type 0
Watched n i y = IsSettled y × Seen n y (y.waiter i)

module _ {n : ℕ} (y : System) (i : ℕ) where
  -- A step that leaves the waiters alone.
  elsewhere-Watched :
      (z : System)
      → Step n y z
      → length z.shared.pushed ≡ length y.shared.pushed
      → Watched n i y
      → IsSettled z × Seen n z (y.waiter i)
  elsewhere-Watched z st e w =
      let es = Step-Eases st e w.0 in (es.0, Seen-Eases n y z (y.waiter i) es w.1)

  Step-Watched :
      {z : System}
      → n < 2 ^ 62
      → Reach n y
      → length y.shared.pushed < 2 ^ 62
      → Step n y z
      → length z.shared.pushed ≡ length y.shared.pushed
      → Watched n i y
      → Watched n i z
  Step-Watched few r small (waiter_step j {s} {p} h mv) e w =
      let es = Step-Eases (waiter_step j h mv) e w.0 in
      (
        es.0,
        Seen-Eases n y (record y { shared = s; waiter = update y.waiter j p })
            (update y.waiter j p i) es
            (Seen-update n y i j mv (none_pending-load few r w.0 small)
              (λ a. omega (arith, a, Reach-Balanced few r)) w.1),
      )
  Step-Watched {z} few r small (worker_step j h mv) e w =
      elsewhere-Watched z (worker_step j h mv) e w
  Step-Watched {z} few r small (submit_step j h mv) e w =
      elsewhere-Watched z (submit_step j h mv) e w
  Step-Watched {z} few r small pause_step e w = elsewhere-Watched z pause_step e w
  Step-Watched {z} few r small resume_step e w = elsewhere-Watched z resume_step e w
  Step-Watched {z} few r small (shutdown_step mode) e w =
      elsewhere-Watched z (shutdown_step mode) e w

Run-Watched :
    {n : ℕ} {y z : System} (i : ℕ)
    → n < 2 ^ 62
    → Reach n y
    → Run n y z
    → length z.shared.pushed ≡ length y.shared.pushed
    → length y.shared.pushed < 2 ^ 62
    → Watched n i y
    → Watched n i z
Run-Watched i few r stay e small w = w
Run-Watched i few r (onward {x} h st) e small w =
    let a = Run-pushed h in
    let b = Step-pushed st in
    Step-Watched x i few (Run-Reach r h) (omega arith) st (omega arith)
      (Run-Watched i few r h (omega arith) small w)

-- A pool with fewer than 2 ^ 62 threads of each kind and tasks ever pushed. Suppose that the waiter
-- `i` is outside `waitIdle` in a reachable state in which no submission is between its push and its
-- count, and that no task is pushed from then on. When the waiter has found both counters at 0 and
-- leaves `waitIdle`, every task has been run as often as it was pushed.
pub wait_idle_complete :
    {n : ℕ} {y z : System} (i : ℕ)
    → n < 2 ^ 62
    → Reach n y
    → IsSettled y
    → y.waiter i ≡ WaiterPc.off
    → Run n y z
    → length z.shared.pushed ≡ length y.shared.pushed
    → length y.shared.pushed < 2 ^ 62
    → z.waiter i ≡ WaiterPc.leaving true
    → (x : ℕ) → count x z.shared.ran ≡ count x z.shared.pushed
wait_idle_complete i few r q off h e small left x =
    let none = ap stage off in
    let w =
      Run-Watched i few r h e small (q, (λ a. absurd (omega arith), λ a. absurd (omega arith))) in
    let quiet = w.1.1 (ap stage left) in all_ran x (Run-Reach r h) quiet.0 quiet.1
