-- ===== src/Future/Sharing.antt =====
-- What holds of the shared state, the closure and the future wherever they stand.
use thread_pool_pro.Base.{ℕ, ◌+◌, ◌≡◌, refl, arith, if◌then◌else◌, ◌==◌}
use thread_pool_pro.Future.{
  returns, throws, ResultState, ClosurePc, FuturePc, ClosureMove, run, publish, drop, FutureMove,
  get, wake, rethrow, move_value, destroy, Reach, start, closure_moves, future_moves,
}
use thread_pool_pro.Future.Slots.{
  FilledState, Seen, Seen-closure, Filled-closure, Filled-future, Seen-future,
}

-- Whether an owner has still to give back its share, as a number.
abbrev pub closure_share : ClosurePc → ℕ
closure_share (ClosurePc.deleting o) = 0
closure_share (ClosurePc.done o) = 0
closure_share _ = 1

abbrev pub future_share : FuturePc → ℕ
future_share (FuturePc.deleting r) = 0
future_share (FuturePc.done r) = 0
future_share _ = 1

-- Whether an owner is about to delete the state.
abbrev pub closure_deletes : ClosurePc → ℕ
closure_deletes (ClosurePc.deleting o) = 1
closure_deletes _ = 0

abbrev pub future_deletes : FuturePc → ℕ
future_deletes (FuturePc.deleting r) = 1
future_deletes _ = 0

pub record Inv (s : ResultState) (c : ClosurePc) (f : FuturePc) : Type 0 where
  pub shares : s.ref_count ≡ closure_share c + future_share f
  pub deletions :
      s.deletes + closure_deletes c + future_deletes f ≡ (if s.ref_count == 0 then 1 else 0)
  pub filled : FilledState s c
  pub seen : Seen c f

counts-closure :
    {s s' : ResultState} {c c' : ClosurePc} (n d : ℕ)
    → ClosureMove s c s' c'
    → s.ref_count ≡ closure_share c + n
    → s.deletes + closure_deletes c + d ≡ (if s.ref_count == 0 then 1 else 0)
    → (s'.ref_count ≡ closure_share c' + n)
      × (s'.deletes + closure_deletes c' + d ≡ (if s'.ref_count == 0 then 1 else 0))
counts-closure n d (run (returns v)) h k = ground arith
counts-closure n d (run (throws e)) h k = ground arith
counts-closure n d publish h k = ground arith
counts-closure n d (ClosureMove.release_last e) h k = ground arith
counts-closure n d (ClosureMove.release e) h k = ground arith
counts-closure n d ClosureMove.delete_this h k = ground arith
counts-closure n d drop h k = ground arith

counts-future :
    {s s' : ResultState} {f f' : FuturePc} (n d : ℕ)
    → FutureMove s f s' f'
    → s.ref_count ≡ n + future_share f
    → s.deletes + d + future_deletes f ≡ (if s.ref_count == 0 then 1 else 0)
    → (s'.ref_count ≡ n + future_share f')
      × (s'.deletes + d + future_deletes f' ≡ (if s'.ref_count == 0 then 1 else 0))
counts-future n d get h k = ground arith
counts-future n d (wake e) h k = ground arith
counts-future n d (rethrow e) h k = ground arith
counts-future n d (move_value e g) h k = ground arith
counts-future n d destroy h k = ground arith
counts-future n d (FutureMove.release_last e) h k = ground arith
counts-future n d (FutureMove.release e) h k = ground arith
counts-future n d FutureMove.delete_this h k = ground arith

pub Reach-Inv : {s : ResultState} {c : ClosurePc} {f : FuturePc} → Reach s c f → Inv s c f
Reach-Inv start = record { shares = refl; deletions = refl; filled = (refl, refl, refl); seen = tt }
Reach-Inv (closure_moves {f} r mv) =
    let v = Reach-Inv r in
    let n = counts-closure (future_share f) (future_deletes f) mv v.shares v.deletions in
    record {
      shares = n.0;
      deletions = n.1;
      filled = Filled-closure mv v.filled;
      seen = Seen-closure f mv v.seen;
    }
Reach-Inv (future_moves {c} r mv) =
    let v = Reach-Inv r in
    let n = counts-future (closure_share c) (closure_deletes c) mv v.shares v.deletions in
    record {
      shares = n.0;
      deletions = n.1;
      filled = Filled-future c mv v.filled;
      seen = Seen-future c mv v.filled v.seen;
    }
