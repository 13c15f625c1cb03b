-- ===== src/Examples/Parts.antt =====
-- Small worlds of the other components.
use thread_pool_pro.Base.{
  ◌+◌, ◌^◌, ◌≤◌, ◌<◌, ◌≡◌, ◌≢◌, refl, some, [], ◌∷◌, ◌++◌, arith, count, if◌then◌else◌, ltb,
}
use thread_pool_pro.Fetch.{next_state, next_steal_offset}
use thread_pool_pro.Fetch.Random.{next_steal_offset-lt}
use thread_pool_pro.Market.{instance_new, lease, return_to_idle}
use thread_pool_pro.Market.Lease.{Use, fresh, leases, returns, one_place}
use thread_pool_pro.Future.{
  Outcome, ResultState, ClosurePc, ClosureMove, FuturePc, FutureMove, Reach, start, closure_moves,
  future_moves,
}
use thread_pool_pro.Future.Slots.{Published}
use thread_pool_pro.Future.Ownership.{deleted_once, get_brings_outcome, dropped_blocks}

next_steal_offset-lt_example :
    (0 < next_state 12 0) × (next_state 12 0 < 2 ^ 32) × (next_steal_offset 12 0 3 < 3)
next_steal_offset-lt_example = next_steal_offset-lt 12 0 3 (omega arith) (omega arith)

-- Two threads are leased, and the second returns.
abbrev leased : Use (lease 2 instance_new).1 ((lease 2 instance_new).0 ++ [])
leased = leases 2 fresh

abbrev returned : Use (return_to_idle 1 (lease 2 instance_new).1) (0 ∷ [])
unfolding lease
returned = returns (0 ∷ []) 1 [] (unfold lease in refl) leased

one_place_example :
    count 1 (return_to_idle 1 (lease 2 instance_new).1).idle + count 1 (0 ∷ [])
    ≡ (if ltb 1 (return_to_idle 1 (lease 2 instance_new).1).spawned then 1 else 0)
one_place_example = one_place returned 1

-- The callable returns 8, and the caller gets it.
abbrev fetched :
    (s : ResultState) × Reach s
      (ClosurePc.published (Outcome.returns 8))
      (FuturePc.done (some (Outcome.returns 8)))
fetched = (
  _,
  future_moves
      (future_moves
        (future_moves
          (future_moves
            (closure_moves (closure_moves start (ClosureMove.run (Outcome.returns 8)))
              ClosureMove.publish)
            FutureMove.get)
          (FutureMove.wake (λ e. omega arith)))
        (FutureMove.move_value refl refl))
      (FutureMove.release (λ e. omega arith)),
)

deleted_once_example :
    (fetched.0.deletes ≤ 1)
    × (1 ≤ 1 + 0 → fetched.0.deletes ≡ 0)
    × (0 + 0 ≡ 1 → fetched.0.deletes ≡ 0)
    × (1 + 0 + 0 + 0 ≡ 0 → fetched.0.deletes ≡ 1)
deleted_once_example = deleted_once fetched.1

get_brings_outcome_example : Published (ClosurePc.published (Outcome.returns 8)) (Outcome.returns 8)
get_brings_outcome_example = get_brings_outcome fetched.1 (Outcome.returns 8) refl

abbrev discarded : (s : ResultState) × Reach s ClosurePc.dropped FuturePc.waiting
discarded = (_, future_moves (closure_moves start ClosureMove.drop) FutureMove.get)

dropped_blocks_example :
    (discarded.0.ready ≡ 0) × (discarded.0.deletes ≡ 0) × (FuturePc.waiting ≢ FuturePc.woken)
dropped_blocks_example = dropped_blocks discarded.1 refl
