-- ===== src/Market/Handshake/Account.antt =====
-- The jobs of a thread of the market, over the whole system.
use thread_pool_pro.Base.{
  ℕ, ◌+◌, ◌-◌, ◌≤◌, ◌<◌, ◌≡◌, ◌≢◌, refl, sym, subst, true, some, arith, count, update, sum_below,
  sum_below-update, le-sum_below, sum_below-zero, ℕ_discrete,
}
use thread_pool_pro.Market.Handshake.{
  Thread, LoopPc, waiting, working, LoopMove, ClientPc, away, leased, done, ClientMove, alive,
  System, Step, loop_step, client_step, exit_step, init, Reach, start, later,
}
use thread_pool_pro.Market.Handshake.Ownership.{
  holds, Owned, Owned-loop, Step-Owned, Flagged, exit_moves, OwnedSystem, Step-alive, Reach-Owned,
}
use thread_pool_pro.Market.Handshake.Jobs.{
  in_loop, in_client, ClientOk, Ready, Account, ClientOk-loop, ClientOk-other, ClientOk-own,
  Ready-loop, Ready-client, Account-loop, Account-client,
}

-- The invariant of the system for the jobs named `x`.
record Inv (x n : ℕ) (y : System) : Type 0 where
  owned : OwnedSystem n y
  clients : (i : ℕ) → i < n → ClientOk y.thread y.loop (y.client i)
  ready : Ready y.thread y.loop
  account : Account x y.thread y.loop (sum_below (in_client x) n y.client)

-- Two pools hold the thread no more often than all.
holds-two :
    (n : ℕ) (f : ℕ → ClientPc) (i k : ℕ)
    → i < n
    → k < n
    → i ≢ k
    → holds (f k) + holds (f i) ≤ sum_below holds n f
holds-two n f i k hi hk d =
    let u = sum_below-update holds n f i away hi in
    let g = le-sum_below holds n (update f i away) k hk in ground arith

Inv-loop :
    {x n : ℕ} {y : System} {s : Thread} {p : LoopPc}
    → LoopMove y.thread y.loop s p
    → Inv x n y
    → Inv x n (record y { thread = s; loop = p })
Inv-loop {x} {n} {y} mv v =
    let held = sum_below holds n y.client in
    record {
      owned = Owned-loop held mv v.owned;
      clients = λ i h.
          ClientOk-loop held (y.client i) mv (le-sum_below holds n y.client i h) v.owned
            (v.clients i h);
      ready = Ready-loop held mv v.owned v.ready;
      account = Account-loop x held (sum_below (in_client x) n y.client) mv v.owned v.account;
    }

-- The sum over a family, with one member apart.
apart :
    (w : ClientPc → ℕ) (n : ℕ) (f : ℕ → ClientPc) (i : ℕ)
    → i < n
    → w (f i) + (sum_below w n f - w (f i)) ≡ sum_below w n f
apart w n f i h = omega (arith, le-sum_below w n f i h)

apart-update :
    (w : ClientPc → ℕ) (n : ℕ) (f : ℕ → ClientPc) (i : ℕ) (c : ClientPc)
    → i < n
    → w c + (sum_below w n f - w (f i)) ≡ sum_below w n (update f i c)
apart-update w n f i c h = omega (arith, le-sum_below w n f i h, sum_below-update w n f i c h)

Inv-client :
    {x n : ℕ} {y : System} {s : Thread} {c : ClientPc} (i : ℕ)
    → i < n
    → ClientMove y.thread (y.client i) s c
    → OwnedSystem n (record y { thread = s; client = update y.client i c })
    → Inv x n y
    → Inv x n (record y { thread = s; client = update y.client i c })
Inv-client {x} {n} {y} {s} {c} i h mv owned v =
    let f = y.client in
    let shared = subst (Owned y.thread y.loop) (sym (apart holds n f i h)) v.owned in
    let own = ClientOk-own y.loop (sum_below holds n f - holds (f i)) mv shared (v.clients i h) in
    let before = subst (Account x y.thread y.loop) (sym (apart (in_client x) n f i h)) v.account in
    let after =
      Account-client x y.loop (sum_below holds n f - holds (f i))
        (sum_below (in_client x) n f - in_client x (f i)) mv shared (v.clients i h) before in
    record {
      owned = owned;
      clients = λ k hk. elim (ℕ_discrete i k) [
        | yes e ↦ ground (arith, own)
        | no d ↦ ground (
          arith,
          ClientOk-other y.loop (sum_below holds n f) (f k) mv (holds-two n f i k h hk d) v.owned
              (v.clients k hk),
        )
      ];
      ready = Ready-client y.loop mv (v.clients i h) v.ready;
      account = subst (Account x s y.loop) (apart-update (in_client x) n f i c h) after;
    }

Step-Inv : {x n : ℕ} {y z : System} → Step n y z → z.exit ≡ alive → Inv x n y → Inv x n z
Step-Inv (loop_step mv) e v = Inv-loop mv v
Step-Inv (client_step i h mv) e v = Inv-client i h mv (Step-Owned (client_step i h mv) e v.owned) v
Step-Inv (exit_step mv) e v = absurd (exit_moves mv e)

init-ClientOk : (i : ℕ) → ClientOk init.thread waiting (init.client i)
init-ClientOk i = ground arith

Reach-Inv : (x : ℕ) {n : ℕ} {y : System} → 0 < n → Reach n y → y.exit ≡ alive → Inv x n y
Reach-Inv x {n} pos start e = record {
  owned = Reach-Owned pos start e;
  clients = λ i h. init-ClientOk i;
  ready = λ h. absurd (ground arith);
  account =
      let none_in = sum_below-zero (in_client x) n (λ _. away) (λ i. refl) in
      let one = sum_below-update (in_client x) n (λ _. away) 0 leased pos in omega arith;
}
Reach-Inv x pos (later r st) e = Step-Inv st e (Reach-Inv x pos r (Step-alive st e))

-- As long as the destructor has not begun, with one pool at least: a job has been assigned as
-- often as it has been run, is about to be handed over by a pool, and is in the hands of the loop,
-- together.
pub jobs_conserved :
    (x : ℕ) {n : ℕ} {y : System}
    → 0 < n
    → Reach n y
    → y.exit ≡ alive
    → count x y.thread.assigned
      ≡ count x y.thread.ran + sum_below (in_client x) n y.client + in_loop x y.thread y.loop
jobs_conserved x pos r e = (Reach-Inv x pos r e).account

-- As long as the destructor has not begun: when `waitDone` has returned to a pool, the job that
-- the pool assigned has been run.
pub wait_done_lem :
    {n : ℕ} {y : System} (i t : ℕ)
    → i < n
    → Reach n y
    → y.exit ≡ alive
    → y.client i ≡ done t
    → 0 < count t y.thread.ran
wait_done_lem {n} {y} i t h r e d =
    subst (ClientOk y.thread y.loop) d ((Reach-Inv t (omega arith) r e).clients i h)

-- As long as the destructor has not begun, with one pool at least: the loop never calls an empty
-- `job_`.
pub job_never_empty :
    {n : ℕ} {y : System}
    → 0 < n
    → Reach n y
    → y.exit ≡ alive
    → y.loop ≡ working
    → (t : ℕ) × (y.thread.job ≡ some t)
job_never_empty {n} {y} pos r e w =
    let v = Reach-Inv 0 pos r e in
    let flag : y.thread.has_work ≡ true = subst (Flagged y.thread.has_work) w v.owned.1 in
    v.ready (ground arith)
