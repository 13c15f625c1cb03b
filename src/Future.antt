-- ===== src/Future.antt =====
-- include/ThreadPoolPro/Detail/Future.h: `ResultState` and its two owners, the closure that `enqueue`
-- in include/ThreadPoolPro/ThreadPool.tpp queues and the `Future` that it returns, interleaved at
-- each shared access. A value and an exception are numbers.
pub mod Sharing
pub mod Slots
pub mod Ownership
pub mod Handles
use thread_pool_pro.Base.{ℕ, ◌+◌, ◌-◌, ◌≡◌, ◌≢◌, Option, none, some}

-- What the callable of a task does.
pub data Outcome : Type 0 where
  returns : ℕ → Outcome
  throws : ℕ → Outcome

-- `ResultState<T>`. `deletes` counts the runs of `delete this`.
pub record ResultState : Type 0 where
  pub ready : ℕ
  pub ref_count : ℕ
  pub exception : Option ℕ
  pub value : Option ℕ
  pub deletes : ℕ

-- `ResultStateBase::ResultStateBase`
abbrev pub fresh : ResultState
fresh = record { ready = 0; ref_count = 2; exception = none; value = none; deletes = 0 }

-- `setValue` or `setException`, up to the call of `publish`.
abbrev pub store : ResultState → Outcome → ResultState
store s (Outcome.returns v) = record s { value = some v }
store s (Outcome.throws e) = record s { exception = some e }

-- `releaseImpl`, which tells whether this was the last owner.
abbrev pub release_impl : ResultState → ResultState
release_impl s = record s { ref_count = s.ref_count - 1 }

-- Where the closure of `enqueue` stands, with what its callable did.
pub data ClosurePc : Type 0 where
  queued : ClosurePc
  stored : Outcome → ClosurePc  -- before `ready_.store`
  published : Outcome → ClosurePc  -- before `release`
  deleting : Outcome → ClosurePc  -- before `delete this`
  done : Outcome → ClosurePc
  dropped : ClosurePc  -- destroyed with its task, without having run

pub data ClosureMove (s : ResultState) : ClosurePc → ResultState → ClosurePc → Type 0 where
  run : (o : Outcome) → ClosureMove s queued (store s o) (stored o)
  publish : {o : Outcome} → ClosureMove s (stored o) (record s { ready = 1 }) (published o)
  release_last :
      {o : Outcome} → s.ref_count ≡ 1 → ClosureMove s (published o) (release_impl s) (deleting o)
  release : {o : Outcome} → s.ref_count ≢ 1 → ClosureMove s (published o) (release_impl s) (done o)
  delete_this :
      {o : Outcome} → ClosureMove s (deleting o) (record s { deletes = s.deletes + 1 }) (done o)
  drop : ClosureMove s queued s dropped

-- Where the caller stands with the `Future`, and what `get` has brought it.
pub data FuturePc : Type 0 where
  held : FuturePc
  waiting : FuturePc  -- in `wait`, called by `get`
  woken : FuturePc  -- `wait` has returned
  leaving : Option Outcome → FuturePc  -- before `release`
  deleting : Option Outcome → FuturePc
  done : Option Outcome → FuturePc

pub data FutureMove (s : ResultState) : FuturePc → ResultState → FuturePc → Type 0 where
  get : FutureMove s held s waiting
  wake : s.ready ≢ 0 → FutureMove s waiting s woken
  rethrow :
      {e : ℕ} → s.exception ≡ some e → FutureMove s woken s (leaving (some (Outcome.throws e)))
  move_value :
      {v : ℕ}
      → s.exception ≡ none
      → s.value ≡ some v
      → FutureMove s woken s (leaving (some (Outcome.returns v)))
  destroy : FutureMove s held s (leaving none)
  release_last :
      {r : Option Outcome}
      → s.ref_count ≡ 1
      → FutureMove s (leaving r) (release_impl s) (deleting r)
  release :
      {r : Option Outcome} → s.ref_count ≢ 1 → FutureMove s (leaving r) (release_impl s) (done r)
  delete_this :
      {r : Option Outcome}
      → FutureMove s (deleting r) (record s { deletes = s.deletes + 1 }) (done r)

-- The states that the two owners reach from the end of `enqueue`.
pub data Reach : ResultState → ClosurePc → FuturePc → Type 0 where
  start : Reach fresh ClosurePc.queued FuturePc.held
  closure_moves :
      {s s' : ResultState} {c c' : ClosurePc} {f : FuturePc}
      → Reach s c f
      → ClosureMove s c s' c'
      → Reach s' c' f
  future_moves :
      {s s' : ResultState} {c : ClosurePc} {f f' : FuturePc}
      → Reach s c f
      → FutureMove s f s' f'
      → Reach s' c f'
