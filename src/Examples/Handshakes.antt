-- ===== src/Examples/Handshakes.antt =====
-- A thread of the market that is handed the job 7.
use thread_pool_pro.Base.{◌+◌, ◌≡◌, ◌≤◌, ◌<◌, ◌⊎◌, refl, arith, count, sum_below}
use thread_pool_pro.Market.Handshake.{
  LoopMove, waiting, ClientMove, joining, joined, ExitMove, System, loop_step, client_step, Reach,
  start, later,
}
use thread_pool_pro.Market.Handshake.Jobs.{in_client, in_loop}
use thread_pool_pro.Market.Handshake.Account.{jobs_conserved, wait_done_lem}
use thread_pool_pro.Market.Handshake.Lost.{exit_lost}
use thread_pool_pro.Market.Handshake.Exit.{ShutStep, ShutRun, stay, more, by_exit, exit_terminates}

abbrev Run : Type 0
Run = (y : System) × Reach 1 y

abbrev loaded : Run
loaded = (_, later start (client_step 0 (omega arith) (ClientMove.load 7)))

abbrev handed : Run
handed = (_, later loaded.1 (client_step 0 (omega arith) ClientMove.publish))

abbrev at_work : Run
at_work =
    (_, later (later handed.1 (loop_step (LoopMove.wake refl))) (loop_step (LoopMove.go_on refl)))

abbrev worked : Run
worked = (_, later (later at_work.1 (loop_step (LoopMove.execute refl))) (loop_step LoopMove.clear))

abbrev idle_again : Run
idle_again = (
  _,
  later (later (later worked.1 (loop_step LoopMove.flip)) (loop_step LoopMove.return_to_idle))
      (loop_step LoopMove.notify),
)

abbrev waited : Run
waited = (_, later idle_again.1 (client_step 0 (omega arith) (ClientMove.wait_done refl)))

jobs_conserved_example :
    count 7 at_work.0.thread.assigned
    ≡ count 7 at_work.0.thread.ran
      + sum_below (in_client 7) 1 at_work.0.client
      + in_loop 7 at_work.0.thread at_work.0.loop
jobs_conserved_example = jobs_conserved 7 (omega arith) at_work.1 refl

wait_done_lem_example : 0 < count 7 waited.0.thread.ran
wait_done_lem_example = wait_done_lem 0 7 (omega arith) waited.1 refl refl

abbrev ending : (z : System) × ShutRun idle_again.0 1 z
ending = (_, more stay (by_exit ExitMove.set_exit))

exit_terminates_example :
    (1 ≤ 7) × ((ending.0.exit ≡ joined) ⊎ ((x : System) × ShutStep ending.0 x))
exit_terminates_example = exit_terminates refl refl tt ending.1

exit_lost_example :
    (z : System) × Reach 1 z
    × (z.exit ≡ joining)
    × (z.loop ≡ waiting)
    × (count 7 z.thread.ran ≡ 1)
    × ((x : System) → ShutStep z x → ⊥)
exit_lost_example = exit_lost 7
