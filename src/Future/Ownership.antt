-- ===== src/Future/Ownership.antt =====
-- The shared state lives as long as one of its owners needs it, is deleted once, and hands the
-- caller what the callable did.
use thread_pool_pro.Base.{◌+◌, ◌≤◌, ◌≡◌, ◌≢◌, subst, some, arith}
use thread_pool_pro.Future.{Outcome, ResultState, ClosurePc, dropped, FuturePc, woken, Reach}
use thread_pool_pro.Future.Slots.{FilledState, Published, HasRun, Seen}
use thread_pool_pro.Future.Sharing.{
  closure_share, future_share, closure_deletes, future_deletes, Inv, Reach-Inv,
}

module _ {s : ResultState} {c : ClosurePc} {f : FuturePc} (r : Reach s c f) where
  inv : Inv s c f
  inv = Reach-Inv r

  -- In every state that the closure and the future reach: while an owner has not given back its
  -- share, or has still to delete the state, the state has not been deleted; it is never deleted
  -- twice; and once both owners are done it is deleted.
  pub deleted_once :
      (s.deletes ≤ 1)
      × (1 ≤ closure_share c + future_share f → s.deletes ≡ 0)
      × (closure_deletes c + future_deletes f ≡ 1 → s.deletes ≡ 0)
      × (closure_share c + closure_deletes c + future_share f + future_deletes f ≡ 0
          → s.deletes ≡ 1)
  deleted_once = (
    ground (arith, inv.shares, inv.deletions),
    λ h. ground (arith, inv.shares, inv.deletions),
    λ h. ground (arith, inv.shares, inv.deletions),
    λ h. ground (arith, inv.shares, inv.deletions),
  )

  -- In every state that the closure and the future reach: what `get` has brought the caller when it
  -- returns is what the callable did, a value or an exception.
  pub get_brings_outcome : (o : Outcome) → f ≡ FuturePc.done (some o) → Published c o
  get_brings_outcome o e = subst (Seen c) e inv.seen

  -- In every state that the closure and the future reach: a closure that is destroyed without having
  -- run never raises the flag: a caller in `get` is never woken, and the state is never deleted.
  pub dropped_blocks : c ≡ dropped → (s.ready ≡ 0) × (s.deletes ≡ 0) × (f ≢ woken)
  dropped_blocks e = (
    subst (FilledState s) e inv.filled,
    ground (arith, inv.shares, inv.deletions),
    λ w. subst HasRun e (subst (Seen c) w inv.seen),
  )
