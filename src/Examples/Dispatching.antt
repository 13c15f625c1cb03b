-- ===== src/Examples/Dispatching.antt =====
-- A pool of four workers that one task is submitted to.
use thread_pool_pro.Base.{is_that, ◌+◌, ℕ, ◌≡◌, ◌↔◌, refl, true, none, some, arith}
use thread_pool_pro.Pool.{worker_count}
use thread_pool_pro.Queue.{create}
use thread_pool_pro.Queue.Contents.{contents, listed}
use thread_pool_pro.Buffer.{make}
use thread_pool_pro.Dispatch.{
  Store, make_store, missed, took, fetch_task, fetch_task_external, submit, enqueue_task,
  announce_task,
}
use thread_pool_pro.Dispatch.Stores.{IsStore, AllEmpty, held, make_store-IsStore}
use thread_pool_pro.Dispatch.Scans.{Searched}
use thread_pool_pro.Dispatch.Fetching.{fetch_task_external-none, fetch_task_lem, SeenEmpty}
use thread_pool_pro.Dispatch.Enqueue.{enqueue, Enqueues, enqueue_lem}
use thread_pool_pro.Dispatch.Across.{submit_across, submit_across_misplaced}
use thread_pool_pro.Buffer.{size_of}
use thread_pool_pro.Dispatch.RoundTrips.{submit-fetch_task_external}
use thread_pool_pro.Dispatch.Submitting.{HasRoom, accepted_lem}

abbrev four : Store
four = make_store 4

four-IsStore : IsStore four
four-IsStore = make_store-IsStore 4 (omega arith)

four-AllEmpty : AllEmpty four
unfolding make_store create contents listed
four-AllEmpty = (λ v h. refl, λ v h. refl)

four-room : HasRoom none four
unfolding make_store
four-room = omega arith

worker_room : HasRoom (some 2) four
unfolding make_store create make worker_count
worker_room = (omega arith, omega arith, omega arith)

-- The task 7 in a shard, and in the queue of worker 2.
abbrev sharded : Store
sharded = announce_task (enqueue_task none 7 four)

abbrev local : Store
local = announce_task (enqueue_task (some 2) 7 four)

sharded-IsStore : IsStore sharded
sharded-IsStore = (accepted_lem none 7 four four-IsStore four-room).valid

local-IsStore : IsStore local
local-IsStore = (accepted_lem (some 2) 7 four four-IsStore worker_room).valid

sharded_workers : sharded.workers ≡ 4
unfolding make_store worker_count announce_task enqueue_task
sharded_workers = refl

local_workers : local.workers ≡ 4
unfolding make_store worker_count announce_task enqueue_task
local_workers = refl

four_workers : four.workers ≡ 4
unfolding make_store worker_count
four_workers = refl

local-SeenEmpty : SeenEmpty 1 1 local
unfolding make_store worker_count announce_task enqueue_task create contents listed
local-SeenEmpty = (λ v h d. ground arith, λ v h. refl)

fetch_task_external-none_example :
    (fetch_task_external 3 sharded ≡ missed sharded) ↔ AllEmpty sharded
fetch_task_external-none_example =
    fetch_task_external-none sharded 3 sharded-IsStore (omega (arith, sharded_workers))

fetch_task_lem_example : Searched local (SeenEmpty 1 1 local) (fetch_task 1 1 local)
fetch_task_lem_example =
    fetch_task_lem local 1 1 local-IsStore (omega (arith, local_workers))
      (λ h. omega (arith, local_workers))

submit-fetch_task_external_example :
    (s' : Store) × (z : Store) × (submit none 7 four ≡ some s')
    × (fetch_task_external 3 s' ≡ took 7 z)
    × ((x : ℕ) → held x z ≡ 0)
submit-fetch_task_external_example =
    submit-fetch_task_external none 7 3 four four-IsStore four-room (unfold make_store in refl)
      four-AllEmpty (omega (arith, four_workers))

enqueue_lem_example : Enqueues true true true 7 four (enqueue true true true (some 2) 7 four)
enqueue_lem_example = enqueue_lem true true true (some 2) 7 four four-IsStore worker_room

submit_across_misplaced_example :
    (home' : Store) × (called' : Store) × (submit_across 2 7 four four ≡ some (home', called'))
    × (((x : ℕ) → held x home' ≡ is_that x 7 + held x four) × (home'.pending ≡ four.pending))
    × ((fetch_task_external 3 called' ≡ missed called')
        × (called'.pending ≡ size_of (four.pending + 1)))
submit_across_misplaced_example =
    submit_across_misplaced 2 7 3 four four four-IsStore four-IsStore worker_room
      (unfold make_store in refl) four-AllEmpty (omega (arith, four_workers))
