-- ===== src/Market/Handshake/Exit.antt =====
-- `~MarketThread`: the signal to stop, and the thread that is joined.
use thread_pool_pro.Base.{
  ℕ, suc, ◌+◌, ◌≤◌, ◌≡◌, refl, sym, subst, ◌⊎◌, inl, inr, true, false, arith,
}
use thread_pool_pro.Market.Handshake.{
  Thread, LoopPc, waiting, woken, working, executed, cleared, flipped, listed, finished, LoopMove,
  ClientPc, ExitPc, alive, exit_set, joining, joined, ExitMove, System,
}

-- A step of the thread, or of the destructor.
pub data ShutStep (y : System) : System → Type 0 where
  by_loop :
      {s : Thread} {p : LoopPc}
      → LoopMove y.thread y.loop s p
      → ShutStep y (record y { thread = s; loop = p })
  by_exit :
      {s : Thread} {p : ExitPc}
      → ExitMove y.thread y.loop y.exit s p
      → ShutStep y (record y { thread = s; exit = p })

-- `k` steps.
pub data ShutRun (y : System) : ℕ → System → Type 0 where
  stay : ShutRun y 0 y
  more : {k : ℕ} {z x : System} → ShutRun y k z → ShutStep z x → ShutRun y (suc k) x

abbrev loop_rank : LoopPc → ℕ
loop_rank flipped = 4
loop_rank listed = 3
loop_rank waiting = 2
loop_rank woken = 1
loop_rank _ = 0

abbrev exit_rank : ExitPc → ℕ
exit_rank alive = 3
exit_rank exit_set = 2
exit_rank joining = 1
exit_rank joined = 0

loop_rank-le : (p : LoopPc) → loop_rank p ≤ 4
loop_rank-le p = ground arith

exit_rank-le : (q : ExitPc) → exit_rank q ≤ 3
exit_rank-le q = ground arith

-- The thread has no job.
abbrev pub Jobless : LoopPc → Type 0
Jobless flipped = Unit {0}
Jobless listed = Unit {0}
Jobless waiting = Unit {0}
Jobless _ = ⊥

abbrev Stopping : LoopPc → Type 0
Stopping woken = Unit {0}
Stopping finished = Unit {0}
Stopping p = Jobless p

abbrev Ending : Thread → LoopPc → ExitPc → Type 0
Ending s p alive = (s.has_work ≡ false) × Jobless p
Ending s p exit_set = (s.has_work ≡ false) × (s.exiting ≡ true) × Jobless p
Ending s p joining = (s.has_work ≡ true) × (s.exiting ≡ true) × Stopping p
Ending s p joined = p ≡ finished

Ending-loop :
    {s s' : Thread} {p p' : LoopPc} (q : ExitPc)
    → LoopMove s p s' p'
    → Ending s p q
    → Ending s' p' q × (loop_rank p ≡ suc (loop_rank p'))
Ending-loop alive (LoopMove.wake h) e = ground arith
Ending-loop alive (LoopMove.stop h) e = ground arith
Ending-loop alive (LoopMove.go_on h) e = ground arith
Ending-loop alive (LoopMove.execute h) e = ground arith
Ending-loop alive LoopMove.clear e = ground arith
Ending-loop alive LoopMove.flip e = ground arith
Ending-loop alive LoopMove.return_to_idle e = ground arith
Ending-loop alive LoopMove.notify e = ground arith
Ending-loop exit_set (LoopMove.wake h) e = ground arith
Ending-loop exit_set (LoopMove.stop h) e = ground arith
Ending-loop exit_set (LoopMove.go_on h) e = ground arith
Ending-loop exit_set (LoopMove.execute h) e = ground arith
Ending-loop exit_set LoopMove.clear e = ground arith
Ending-loop exit_set LoopMove.flip e = ground arith
Ending-loop exit_set LoopMove.return_to_idle e = ground arith
Ending-loop exit_set LoopMove.notify e = ground arith
Ending-loop joining (LoopMove.wake h) e = ground arith
Ending-loop joining (LoopMove.stop h) e = ground arith
Ending-loop joining (LoopMove.go_on h) e = ground arith
Ending-loop joining (LoopMove.execute h) e = ground arith
Ending-loop joining LoopMove.clear e = ground arith
Ending-loop joining LoopMove.flip e = ground arith
Ending-loop joining LoopMove.return_to_idle e = ground arith
Ending-loop joining LoopMove.notify e = ground arith
Ending-loop joined (LoopMove.wake h) e = ground arith
Ending-loop joined (LoopMove.stop h) e = ground arith
Ending-loop joined (LoopMove.go_on h) e = ground arith
Ending-loop joined (LoopMove.execute h) e = ground arith
Ending-loop joined LoopMove.clear e = ground arith
Ending-loop joined LoopMove.flip e = ground arith
Ending-loop joined LoopMove.return_to_idle e = ground arith
Ending-loop joined LoopMove.notify e = ground arith

Ending-exit :
    {s s' : Thread} {p : LoopPc} {q q' : ExitPc}
    → ExitMove s p q s' q'
    → Ending s p q
    → Ending s' p q' × (exit_rank q ≡ suc (exit_rank q'))
Ending-exit ExitMove.set_exit e = ground arith
Ending-exit {p = waiting} ExitMove.set_work e = ground arith
Ending-exit {p = listed} ExitMove.set_work e = ground arith
Ending-exit {p = flipped} ExitMove.set_work e = ground arith
Ending-exit {p = _} ExitMove.set_work e = ground arith
Ending-exit (ExitMove.join f) e = ground arith

abbrev rank : System → ℕ
rank y = loop_rank y.loop + exit_rank y.exit

abbrev EndingSystem : System → Type 0
EndingSystem y = Ending y.thread y.loop y.exit

EndingSystem-step :
    {y z : System} → ShutStep y z → EndingSystem y → EndingSystem z × (rank y ≡ suc (rank z))
EndingSystem-step {y} (by_loop mv) e = let r = Ending-loop y.exit mv e in (r.0, omega (arith, r.1))
EndingSystem-step {y} (by_exit mv) e = let r = Ending-exit mv e in (r.0, omega (arith, r.1))

ShutRun-Ending :
    {y z : System} {k : ℕ} → ShutRun y k z → EndingSystem y → EndingSystem z × (k + rank z ≡ rank y)
ShutRun-Ending stay e = (e, omega arith)
ShutRun-Ending (more r st) e =
    let before = ShutRun-Ending r e in
    let after = EndingSystem-step st before.0 in (after.0, omega (arith, before.1, after.1))

rank-le : (y : System) → rank y ≤ 7
rank-le y = omega (arith, loop_rank-le y.loop, exit_rank-le y.exit)

abbrev Moves : System → Type 0
Moves y = (y.exit ≡ joined) ⊎ ((z : System) × ShutStep y z)

Moves-case :
    (s : Thread) (p : LoopPc) (c : ℕ → ClientPc) (q : ExitPc)
    → Ending s p q
    → Moves (record { thread = s; loop = p; client = c; exit = q })
Moves-case s p c joined e = inl refl
Moves-case s p c alive e = inr (_, by_exit ExitMove.set_exit)
Moves-case s p c exit_set e = inr (_, by_exit ExitMove.set_work)
Moves-case s flipped c joining e = inr (_, by_loop LoopMove.return_to_idle)
Moves-case s listed c joining e = inr (_, by_loop LoopMove.notify)
Moves-case s waiting c joining e = inr (_, by_loop (LoopMove.wake e.0))
Moves-case s woken c joining e = inr (_, by_loop (LoopMove.stop e.1))
Moves-case s finished c joining e = inr (_, by_exit (ExitMove.join refl))
Moves-case s working c joining e = absurd (ground arith)
Moves-case s executed c joining e = absurd (ground arith)
Moves-case s cleared c joining e = absurd (ground arith)

EndingSystem-Moves : (y : System) → EndingSystem y → Moves y
EndingSystem-Moves y e = Moves-case y.thread y.loop y.client y.exit e

-- When the thread has no job and `hasWork_` is unset as the destructor begins, and no pool uses the
-- thread any more: every run of the thread and the destructor has at most seven steps, and one that
-- cannot go on has joined the thread. No run is stuck before.
pub exit_terminates :
    {y z : System} {k : ℕ}
    → y.exit ≡ alive
    → y.thread.has_work ≡ false
    → Jobless y.loop
    → ShutRun y k z
    → (k ≤ 7) × ((z.exit ≡ joined) ⊎ ((x : System) × ShutStep z x))
exit_terminates {y} a w j r =
    let begins = subst (Ending y.thread y.loop) (sym a) (w, j) in
    let e = ShutRun-Ending r begins in (omega (arith, e.1, rank-le y), EndingSystem-Moves _ e.0)
