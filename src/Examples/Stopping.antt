-- ===== src/Examples/Stopping.antt =====
-- A pool with the threads 1 and 2, shut down by a task that thread 2 runs.
use thread_pool_pro.Base.{none, some, [], ◌∷◌, List, Option, ℕ}
use thread_pool_pro.Pool.{initial, finish_tasks, discard_tasks}
use thread_pool_pro.Pool.Joining.{shutdown, destroy_pool, Stops, shutdown_lem}

abbrev threads : List (Option ℕ)
threads = some 1 ∷ some 2 ∷ none ∷ []

shutdown_lem_example :
    Stops discard_tasks 2 threads initial (shutdown discard_tasks 2 threads initial)
    × Stops finish_tasks 2 threads initial (destroy_pool 2 threads initial)
shutdown_lem_example = shutdown_lem discard_tasks 2 threads initial
