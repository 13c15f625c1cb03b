-- ===== src/Dispatch/Across.antt =====
-- `submit` of one pool, called by a task that a worker of another pool runs: `currentWorker_` names the
-- worker, whatever pool it belongs to.
use thread_pool_pro.Base.{ℕ, ◌+◌, ◌<◌, ◌≡◌, refl, Option, none, some, arith, is_that, if◌then◌else◌}
use thread_pool_pro.Buffer.{size_of}
use thread_pool_pro.Pool.{running, is_running}
use thread_pool_pro.Dispatch.{Store, missed, enqueue_task, announce_task, fetch_task_external}
use thread_pool_pro.Dispatch.Stores.{IsStore, held, AllEmpty}
use thread_pool_pro.Dispatch.Fetching.{fetch_task_external-none}
use thread_pool_pro.Dispatch.Submitting.{HasRoom, enqueue_task-held}

-- `ThreadPool::submit` of the pool `called`, by the worker `v` of the pool `home`.
unfoldable pub submit_across : ℕ → ℕ → Store → Store → Option (Store × Store)
submit_across v t home called =
    if is_running called.run_state
    then some (enqueue_task (some v) t home, announce_task called)
    else none

announced :
    (s : Store) → AllEmpty s → IsStore s → IsStore (announce_task s) × AllEmpty (announce_task s)
unfolding announce_task
announced s e w = (record { sized = w.sized; queue = w.queue; shard = w.shard }, e)

-- Two well-formed stores, the called one running and without tasks, the worker's with room: the
-- call succeeds, and the task is in the pool of the worker, which does not count it. The called
-- pool counts a pending task that it does not have: its `fetchTaskExternal`, with any offset below
-- the number of its workers, finds nothing.
pub submit_across_misplaced :
    (v t r : ℕ) (home called : Store)
    → IsStore home
    → IsStore called
    → HasRoom (some v) home
    → called.run_state ≡ running
    → AllEmpty called
    → r < called.workers
    → (home' : Store) × (called' : Store) × (submit_across v t home called ≡ some (home', called'))
      × (((x : ℕ) → held x home' ≡ is_that x t + held x home) × (home'.pending ≡ home.pending))
      × ((fetch_task_external r called' ≡ missed called')
          × (called'.pending ≡ size_of (called.pending + 1)))
unfolding submit_across
submit_across_misplaced v t r home called w c room run empty b =
    let (valid, none_there) = announced called empty c in
    let kept : (announce_task called).workers ≡ called.workers = unfold announce_task in refl in
    (
      enqueue_task (some v) t home,
      announce_task called,
      ground (arith, run),
      (enqueue_task-held (some v) t home w room, unfold enqueue_task in refl),
      (
        (fetch_task_external-none (announce_task called) r valid (omega (arith, kept))).1
            none_there,
        unfold announce_task in refl,
      ),
    )
