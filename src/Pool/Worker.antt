-- ===== src/Pool/Worker.antt =====
-- ThreadPool::workerLoop, one access at a time; a test that loads two atomics is one step.
use thread_pool_pro.Base.{
  ℕ, ◌≡◌, ◌≢◌, ◌⊎◌, Bool, true, false, List, [], ◌∷◌, ◌++◌, ◌&&◌, if◌then◌else◌,
}
use thread_pool_pro.Pool.{
  running, shutting_down_finish, shutting_down_discard, is_running, Shared, ShutdownMode,
  request_shutdown, increment, decrement, wake,
}

pub data WorkerPc : Type 0 where
  top : WorkerPc  -- the head of the loop
  parked_paused : WorkerPc  -- in `waitUntil`, while the pool is paused
  early : WorkerPc  -- before the early exit
  fetching : WorkerPc  -- in `fetchTask`
  got : ℕ → WorkerPc  -- a task was found
  counted : ℕ → WorkerPc  -- `activeTasks_` incremented
  executing : ℕ → WorkerPc  -- `pendingTasks_` decremented
  executed : (threw : Bool) → WorkerPc
  settling : WorkerPc  -- before `activeTasks_` is decremented
  notifying : WorkerPc
  missed : WorkerPc  -- `fetchTask` found nothing
  parked_idle : WorkerPc  -- in `waitUntil`, without work
  exited : WorkerPc
  stopping : ℕ → WorkerPc  -- the task has shut the pool down, and `selfDetachRequested_` is set
  detached : WorkerPc  -- left after the task that called `shutdown`

pub data WorkerMove (s : Shared) : WorkerPc → Shared → WorkerPc → Type 0 where
  park_paused :
      s.paused ≡ true
      → s.run_state ≡ running
      → WorkerMove s top (record s { idle = increment s.idle }) parked_paused
  go_on : (s.paused && is_running s.run_state) ≡ false → WorkerMove s top s early
  unpark_paused :
      (s.run_state ≢ running) ⊎ (s.paused ≡ false)
      → WorkerMove s parked_paused (record s { idle = decrement s.idle }) top
  exit_discard : s.run_state ≡ shutting_down_discard → WorkerMove s early s exited
  exit_finish : s.run_state ≡ shutting_down_finish → s.pending ≡ 0 → WorkerMove s early s exited
  fetch_running : s.run_state ≡ running → WorkerMove s early s fetching
  fetch_finish : s.run_state ≡ shutting_down_finish → s.pending ≢ 0 → WorkerMove s early s fetching
  find :
      (before : List ℕ) (task : ℕ) (others : List ℕ)
      → s.queued ≡ before ++ task ∷ others
      → WorkerMove s fetching (record s { queued = before ++ others }) (got task)
  miss : WorkerMove s fetching s missed
  put_back :
      {task : ℕ}
      → s.paused ≡ true
      → s.run_state ≡ running
      → WorkerMove s (got task) (record s { queued = s.queued ++ task ∷ [] }) top
  commit :
      {task : ℕ}
      → (s.paused && is_running s.run_state) ≡ false
      → WorkerMove s (got task) (record s { active = increment s.active }) (counted task)
  uncount :
      {task : ℕ}
      → WorkerMove s (counted task) (record s { pending = decrement s.pending }) (executing task)
  execute :
      {task : ℕ} (threw : Bool)
      → WorkerMove s (executing task) (record s { ran = task ∷ s.ran }) (executed threw)
  shut_down :
      {task : ℕ} (mode : ShutdownMode)
      → s.run_state ≡ running
      → WorkerMove s (executing task) (request_shutdown mode s) (stopping task)
  detach : {task : ℕ} → WorkerMove s (stopping task) (record s { ran = task ∷ s.ran }) detached
  count_exception :
      {threw : Bool}
      → WorkerMove s
          (executed threw)
          (record s { exceptions = if threw then increment s.exceptions else s.exceptions })
          settling
  settle : WorkerMove s settling (record s { active = decrement s.active }) notifying
  notify : s.waiters ≢ 0 → WorkerMove s notifying (wake s) top
  skip_notify : s.waiters ≡ 0 → WorkerMove s notifying s top
  missed_discard : s.run_state ≡ shutting_down_discard → WorkerMove s missed s exited
  missed_finish : s.run_state ≡ shutting_down_finish → s.pending ≡ 0 → WorkerMove s missed s exited
  poll : s.run_state ≡ shutting_down_finish → s.pending ≢ 0 → WorkerMove s missed s top
  park_idle :
      s.run_state ≡ running → WorkerMove s missed (record s { idle = increment s.idle }) parked_idle
  unpark_idle :
      (s.run_state ≢ running) ⊎ (s.paused ≡ true) ⊎ (s.pending ≢ 0)
      → WorkerMove s parked_idle (record s { idle = decrement s.idle }) top
