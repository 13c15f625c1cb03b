-- ===== src/Market/Handshake/Lost.antt =====
-- Two signals of `MarketThread` that come too early: the destructor runs both of its stores while the
-- thread stands in `job_()`, which then clears the flag that it was to be woken by; and `hasWork_` is
-- cleared before `returnToIdle`.
use thread_pool_pro.Base.{ℕ, ◌<◌, ◌≡◌, refl, false, [], ◌∷◌, arith, count}
use thread_pool_pro.Market.Handshake.{
  Thread, LoopPc, waiting, flipped, LoopMove, done, ClientMove, ExitPc, joining, ExitMove, System,
  loop_step, client_step, exit_step, Reach, start, later,
}
use thread_pool_pro.Market.Handshake.Exit.{ShutStep, by_loop, by_exit}

stuck_loop :
    {s s' : Thread} {p p' : LoopPc} → LoopMove s p s' p' → p ≡ waiting → s.has_work ≡ false → ⊥
stuck_loop (LoopMove.wake h) e w = ground arith
stuck_loop (LoopMove.stop h) e w = ground arith
stuck_loop mv e w = ground arith

stuck_exit :
    {s s' : Thread} {p : LoopPc} {q q' : ExitPc}
    → ExitMove s p q s' q'
    → p ≡ waiting
    → q ≡ joining
    → ⊥
stuck_exit ExitMove.set_exit e f = ground arith
stuck_exit ExitMove.set_work e f = ground arith
stuck_exit (ExitMove.join h) e f = ground (arith, e, h)

stuck :
    {y x : System}
    → y.loop ≡ waiting
    → y.thread.has_work ≡ false
    → y.exit ≡ joining
    → ShutStep y x
    → ⊥
stuck l w e (by_loop mv) = stuck_loop mv l w
stuck l w e (by_exit mv) = stuck_exit mv l e

one_pool : 0 < 1
one_pool = omega arith

count_self : (t : ℕ) → count t (t ∷ []) ≡ 1
count_self t = ground arith

-- For every job: a reachable state in which the destructor waits in `join`, and neither it nor the
-- thread can make another step.
pub exit_lost :
    (t : ℕ)
    → (z : System) × Reach 1 z
      × (z.exit ≡ joining)
      × (z.loop ≡ waiting)
      × (count t z.thread.ran ≡ 1)
      × ((x : System) → ShutStep z x → ⊥)
exit_lost t =
    let go = later start (client_step 0 one_pool (ClientMove.load t)) in
    let published = later go (client_step 0 one_pool ClientMove.publish) in
    let awake = later published (loop_step (LoopMove.wake refl)) in
    let on = later awake (loop_step (LoopMove.go_on refl)) in
    let ran = later on (loop_step (LoopMove.execute refl)) in
    let exits = later ran (exit_step ExitMove.set_exit) in
    let signalled = later exits (exit_step ExitMove.set_work) in
    let was_cleared = later signalled (loop_step LoopMove.clear) in
    let was_flipped = later was_cleared (loop_step LoopMove.flip) in
    let was_listed = later was_flipped (loop_step LoopMove.return_to_idle) in
    (
      _,
      later was_listed (loop_step LoopMove.notify),
      refl,
      refl,
      count_self t,
      λ x st. stuck refl refl refl st,
    )

-- For every job: a reachable state in which `waitDone` has returned to the pool and the thread stands
-- between clearing `hasWork_` and `returnToIdle`, so that no `lease` finds it.
pub wait_done_early :
    (t : ℕ)
    → (z : System) × Reach 1 z
      × (z.client 0 ≡ done t)
      × (z.thread.idle ≡ false)
      × (z.loop ≡ flipped)
wait_done_early t =
    let go = later start (client_step 0 one_pool (ClientMove.load t)) in
    let published = later go (client_step 0 one_pool ClientMove.publish) in
    let awake = later published (loop_step (LoopMove.wake refl)) in
    let on = later awake (loop_step (LoopMove.go_on refl)) in
    let ran = later on (loop_step (LoopMove.execute refl)) in
    let was_cleared = later ran (loop_step LoopMove.clear) in
    let was_flipped = later was_cleared (loop_step LoopMove.flip) in
    (_, later was_flipped (client_step 0 one_pool (ClientMove.wait_done refl)), refl, refl, refl)
