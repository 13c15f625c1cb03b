-- ===== src/Examples/Races.antt =====
-- The adverse interleavings, at concrete tasks.
use thread_pool_pro.Base.{◌≡◌, true, arith, count}
use thread_pool_pro.Deque
use thread_pool_pro.Deque.Overwrite.{lost_and_duplicated}
use thread_pool_pro.Pool.{running, shutting_down_finish}
use thread_pool_pro.Pool.Abandonment.{NeverRun}
use thread_pool_pro.Pool.Worker.{WorkerPc}
use thread_pool_pro.Pool.Submit.{SubmitPc}
use thread_pool_pro.Pool.System.{System, Reach, Run}
use thread_pool_pro.Pool.Races.{accepted_task_lost, finish_abandons}

lost_and_duplicated_example :
    (s : Deque.System) × Deque.Reach 1 1 s
    × (s.owner ≡ Deque.OwnerPc.idle)
    × (s.thief 0 ≡ Deque.ThiefPc.idle)
    × (count 1 s.mem.pushed ≡ 1)
    × (count 2 s.mem.pushed ≡ 1)
    × (count 1 s.mem.returned ≡ 0)
    × (count 2 s.mem.returned ≡ 2)
lost_and_duplicated_example = lost_and_duplicated 1 2 (λ e. omega arith)

accepted_task_lost_example :
    (y : System) × Reach 1 y
    × ((y.shared.run_state ≡ shutting_down_finish)
        × (y.worker 0 ≡ WorkerPc.exited)
        × (y.submitter 0 ≡ SubmitPc.checked 1)
        × (count 1 y.shared.queued ≡ 0))
    × ((z : System) × Run 1 y z × (z.submitter 0 ≡ SubmitPc.returned 1 true) × NeverRun 1 1 z)
accepted_task_lost_example = accepted_task_lost 1

finish_abandons_example :
    (a : System) × Reach 1 a
    × ((a.shared.run_state ≡ running)
        × (a.submitter 0 ≡ SubmitPc.returned 2 true)
        × (count 1 a.shared.queued ≡ 1)
        × (count 2 a.shared.queued ≡ 1)
        × (a.shared.pending ≡ 2))
    × ((b : System) × Run 1 a b
        × ((b.shared.run_state ≡ shutting_down_finish)
            × (b.worker 0 ≡ WorkerPc.stopping 1)
            × (count 2 b.shared.queued ≡ 1))
        × ((z : System) × Run 1 b z
            × ((z.worker 0 ≡ WorkerPc.detached) × (count 1 z.shared.ran ≡ 1))
            × NeverRun 1 2 z))
finish_abandons_example = finish_abandons 1 2 (λ e. omega arith)
