-- ===== src/Dispatch/Enqueue.antt =====
-- `enqueue` and `detach` in include/ThreadPoolPro/ThreadPool.tpp, up to where they return or throw.
use thread_pool_pro.Base.{
  ℕ, ◌+◌, ◌≡◌, ◌≢◌, ◌⊎◌, inl, inr, refl, Bool, true, false, Option, none, some, if◌then◌else◌, ◌==◌,
}
use thread_pool_pro.Future.{ResultState, fresh, release_impl}
use thread_pool_pro.Pool.{running}
use thread_pool_pro.Dispatch.{Store, submit}
use thread_pool_pro.Dispatch.Stores.{IsStore}
use thread_pool_pro.Dispatch.Submitting.{HasRoom, Accepted, Submits, refused, accepted, submit_lem}

-- `ResultState::release`
unfoldable pub release_state : ResultState → ResultState
release_state s =
    if s.ref_count == 1 then record (release_impl s) { deletes = s.deletes + 1 } else release_impl s

-- How `enqueue` ends: with a future on the new state, or with an exception, which comes from the
-- allocation of the state, from the closure, or from the task and its submission.
pub data Enqueued : Type 0 where
  future : ResultState → Store → Enqueued
  unallocated : Store → Enqueued
  uncopied : ResultState → Store → Enqueued
  rethrown : ResultState → Store → Enqueued

-- The handler: neither owner will ever exist.
unfoldable pub give_up : Store → Enqueued
give_up s = rethrown (release_state (release_state fresh)) s

-- `try { submit(Task(...)); }` with its handler, and the return; `constructs` tells whether the
-- constructor of `Task` returns.
unfoldable pub try_submit : Bool → Option ℕ → ℕ → Store → Enqueued
try_submit false caller t s = give_up s
try_submit true caller t s = elim (submit caller t s) [
  | none ↦ give_up s
  | some s' ↦ future fresh s'
]

-- `ThreadPool::enqueue`; `allocates` tells whether `new State()` returns, and `copies` whether the
-- closure can be made, into which the callable and its arguments are copied: before the `try`.
unfoldable pub enqueue : (allocates copies constructs : Bool) → Option ℕ → ℕ → Store → Enqueued
enqueue false copies constructs caller t s = unallocated s
enqueue true false constructs caller t s = uncopied fresh s
enqueue true true constructs caller t s = try_submit constructs caller t s

-- `ThreadPool::detach`; `none` where it throws. `constructs` covers the copy of the callable, too.
unfoldable pub detach : Bool → Option ℕ → ℕ → Store → Option Store
detach false caller t s = none
detach true caller t s = submit caller t s

-- The ends of `enqueue`, each with its reason.
pub data Enqueues (allocates copies constructs : Bool) (t : ℕ) (s : Store) : Enqueued → Type 0 where
  queued :
      allocates ≡ true
      → copies ≡ true
      → constructs ≡ true
      → s.run_state ≡ running
      → (s' : Store) → Accepted t s s'
      → (state : ResultState) → state.ref_count ≡ 2
      → state.deletes ≡ 0
      → Enqueues allocates copies constructs t s (future state s')
  no_state : allocates ≡ false → Enqueues allocates copies constructs t s (unallocated s)
  leaked :
      allocates ≡ true
      → copies ≡ false
      → (state : ResultState) → state.ref_count ≡ 2
      → state.deletes ≡ 0
      → Enqueues allocates copies constructs t s (uncopied state s)
  given_up :
      allocates ≡ true
      → copies ≡ true
      → (constructs ≡ false) ⊎ (s.run_state ≢ running)
      → (state : ResultState) → state.ref_count ≡ 0
      → state.deletes ≡ 1
      → Enqueues allocates copies constructs t s (rethrown state s)

give_up-Enqueues :
    (constructs : Bool) (t : ℕ) (s : Store)
    → (constructs ≡ false) ⊎ (s.run_state ≢ running)
    → Enqueues true true constructs t s (give_up s)
unfolding give_up release_state
give_up-Enqueues constructs t s why = given_up refl refl why _ refl refl

submitted-Enqueues :
    (t : ℕ) (s : Store) {r : Option Store}
    → Submits t s r
    → Enqueues true true true t s (elim r [ none ↦ give_up s | some s' ↦ future fresh s' ])
submitted-Enqueues t s (refused n) = give_up-Enqueues true t s (inr n)
submitted-Enqueues t s (accepted r s' a) = queued refl refl refl r s' a fresh refl refl

-- On a well-formed store with room, where a queue gets the memory that it asks for: `enqueue` queues its
-- task and returns a future on a state with both owners exactly when the state, the closure and the task
-- can be made and the pool is running. Otherwise it throws and leaves the store as it was. When the
-- state cannot be allocated, there is none. When the closure cannot be made, the state is leaked: it has
-- both its shares, and is not deleted. When the task cannot be made or the pool does not run, the state
-- has been deleted exactly once.
pub enqueue_lem :
    (allocates copies constructs : Bool) (caller : Option ℕ) (t : ℕ) (s : Store)
    → IsStore s
    → HasRoom caller s
    → Enqueues allocates copies constructs t s (enqueue allocates copies constructs caller t s)
unfolding enqueue try_submit
enqueue_lem false copies constructs caller t s w h = no_state refl
enqueue_lem true false constructs caller t s w h = leaked refl refl fresh refl refl
enqueue_lem true true false caller t s w h = give_up-Enqueues false t s (inl refl)
enqueue_lem true true true caller t s w h = submitted-Enqueues t s (submit_lem caller t s w h)
