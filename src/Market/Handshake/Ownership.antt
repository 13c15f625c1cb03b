-- ===== src/Market/Handshake/Ownership.antt =====
-- One holder at a time: the idle list, a pool that is about to assign, or the thread with its job.
use thread_pool_pro.Base.{
  ℕ, ◌+◌, ◌-◌, ◌<◌, ◌≡◌, ◌≢◌, refl, subst, Bool, true, false, arith, update, sum_below,
  sum_below-update, le-sum_below, sum_below-zero,
}
use thread_pool_pro.Market.Handshake.{
  Thread, LoopPc, woken, working, executed, cleared, flipped, finished, LoopMove, ClientPc, away,
  leased, loaded, ClientMove, ExitPc, alive, ExitMove, System, Step, loop_step, client_step,
  exit_step, Reach, start, later,
}

abbrev pub as_number : Bool → ℕ
as_number true = 1
as_number false = 0

-- 1 while the pool has the thread and has not handed it a job.
abbrev pub holds : ClientPc → ℕ
holds leased = 1
holds (loaded t) = 1
holds _ = 0

-- 1 from the moment that a job is handed over until the thread is back in the idle list.
abbrev pub busy : Bool → LoopPc → ℕ
busy has_work flipped = 1
busy has_work _ = as_number has_work

-- Between `wake` and `flip` the flag is set.
abbrev pub Flagged : Bool → LoopPc → Type 0
Flagged has_work woken = has_work ≡ true
Flagged has_work working = has_work ≡ true
Flagged has_work executed = has_work ≡ true
Flagged has_work cleared = has_work ≡ true
Flagged has_work flipped = has_work ≡ false
Flagged has_work finished = ⊥
Flagged has_work _ = Unit {0}

abbrev pub Owned : Thread → LoopPc → ℕ → Type 0
Owned s p held =
    (as_number s.idle + held + busy s.has_work p ≡ 1) × Flagged s.has_work p × (s.exiting ≡ false)

pub Owned-loop :
    {s s' : Thread} {p p' : LoopPc} (held : ℕ)
    → LoopMove s p s' p'
    → Owned s p held
    → Owned s' p' held
Owned-loop held (LoopMove.wake e) o = ground arith
Owned-loop held (LoopMove.stop e) o = absurd (ground arith)
Owned-loop held (LoopMove.go_on e) o = ground arith
Owned-loop held (LoopMove.execute e) o = ground arith
Owned-loop held LoopMove.clear o = ground arith
Owned-loop held LoopMove.flip o = ground arith
Owned-loop held LoopMove.return_to_idle o = ground arith
Owned-loop held LoopMove.notify o = ground arith

pub Owned-client :
    {s s' : Thread} {c c' : ClientPc} (p : LoopPc) (others : ℕ)
    → ClientMove s c s' c'
    → Owned s p (holds c + others)
    → Owned s' p (holds c' + others)
Owned-client p others (ClientMove.lease e) o = ground arith
Owned-client p others (ClientMove.load t) o = o
Owned-client p others ClientMove.publish o = ground arith
Owned-client p others (ClientMove.wait_done e) o = o
Owned-client p others ClientMove.leave o = o

abbrev pub OwnedSystem : ℕ → System → Type 0
OwnedSystem n y = Owned y.thread y.loop (sum_below holds n y.client)

pub exit_moves : {s s' : Thread} {p : LoopPc} {q q' : ExitPc} → ExitMove s p q s' q' → q' ≢ alive
exit_moves ExitMove.set_exit e = ground arith
exit_moves ExitMove.set_work e = ground arith
exit_moves (ExitMove.join f) e = ground arith

pub Step-alive : {n : ℕ} {y z : System} → Step n y z → z.exit ≡ alive → y.exit ≡ alive
Step-alive (loop_step mv) e = e
Step-alive (client_step i h mv) e = e
Step-alive (exit_step mv) e = absurd (exit_moves mv e)

pub Step-Owned :
    {n : ℕ} {y z : System} → Step n y z → z.exit ≡ alive → OwnedSystem n y → OwnedSystem n z
Step-Owned {n} {y} (loop_step mv) e o = Owned-loop (sum_below holds n y.client) mv o
Step-Owned {n} {y} (client_step i {s} {p} h mv) e o =
    let g = le-sum_below holds n y.client i h in
    let u = sum_below-update holds n y.client i p h in
    let rest = sum_below holds n y.client - holds (y.client i) in
    let before : sum_below holds n y.client ≡ holds (y.client i) + rest = omega arith in
    let after : holds p + rest ≡ sum_below holds n (update y.client i p) = omega arith in
    subst (Owned s y.loop) after
      (Owned-client y.loop rest mv (subst (Owned y.thread y.loop) before o))
Step-Owned (exit_step mv) e o = absurd (exit_moves mv e)

-- As long as the destructor has not begun, exactly one of these has the thread: the idle list, one pool
-- that is about to assign a job, or the loop with a job.
pub Reach-Owned : {n : ℕ} {y : System} → 0 < n → Reach n y → y.exit ≡ alive → OwnedSystem n y
Reach-Owned {n} pos start e =
    let none_held = sum_below-zero holds n (λ _. away) (λ i. refl) in
    let one = sum_below-update holds n (λ _. away) 0 leased pos in (omega arith, tt, refl)
Reach-Owned pos (later r st) e = Step-Owned st e (Reach-Owned pos r (Step-alive st e))
