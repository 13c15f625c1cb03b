-- ===== src/Examples/Recycling.antt =====
-- A queue of capacity 1 with one task.
use thread_pool_pro.Base.{◌^◌, ◌≡◌, [], ◌∷◌, ◌++◌, arith}
use thread_pool_pro.Buffer.{make}
use thread_pool_pro.Queue.{unallocated, Queue, create, push_bottom, pop_bottom, steal, destroy}
use thread_pool_pro.Queue.Contents.{contents}
use thread_pool_pro.Queue.Nodes.{IsQueue, create-IsQueue}
use thread_pool_pro.Queue.Growing.{push_bottom_lem}
use thread_pool_pro.Queue.Refinement.{Pops, Steals, pop_bottom_lem, steal_lem}
use thread_pool_pro.Queue.Destruction.{destroy_lem}

abbrev new_queue : Queue
new_queue = create (2 ^ 0)

push_bottom_lem_example :
    IsQueue (push_bottom new_queue 7)
    × (contents (push_bottom new_queue 7) ≡ contents new_queue ++ 7 ∷ [])
push_bottom_lem_example =
    push_bottom_lem new_queue 7 (create-IsQueue 0 (omega arith)) (unfold create make in omega arith)
      (unfold create in omega arith)

one_task-IsQueue : IsQueue (push_bottom new_queue 7)
one_task-IsQueue =
    (push_bottom_lem new_queue 7 (create-IsQueue 0 (omega arith))
      (unfold create make in omega arith) (unfold create in omega arith)).0

pop_bottom_lem_example : Pops (push_bottom new_queue 7) (pop_bottom (push_bottom new_queue 7))
pop_bottom_lem_example = pop_bottom_lem (push_bottom new_queue 7) one_task-IsQueue

steal_lem_example : Steals (push_bottom new_queue 7) (steal (push_bottom new_queue 7))
steal_lem_example = steal_lem (push_bottom new_queue 7) one_task-IsQueue

destroy_lem_example : destroy (push_bottom new_queue 7) 0 ≡ unallocated
destroy_lem_example = destroy_lem (push_bottom new_queue 7) one_task-IsQueue 0
