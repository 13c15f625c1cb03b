-- ===== src/Pool/WaitIdle.antt =====
-- ThreadPool::waitIdle, one access at a time.
use thread_pool_pro.Base.{
  ℕ, ◌≡◌, ◌≢◌, ◌<◌, ◌≤◌, ◌⊎◌, Bool, true, false, List, ◌∷◌, ◌++◌, if◌then◌else◌,
}
use thread_pool_pro.Pool.{running, Shared, increment, decrement, wake}

pub data WaiterPc : Type 0 where
  off : WaiterPc
  top : WaiterPc  -- the head of the loop
  still_running : WaiterPc  -- before `pendingTasks_` is loaded
  none_pending : WaiterPc  -- before `activeTasks_` is loaded
  fetching : WaiterPc  -- in `fetchTaskExternal`
  got : ℕ → WaiterPc
  counted : ℕ → WaiterPc
  executing : ℕ → WaiterPc
  executed : (threw : Bool) → WaiterPc
  settling : WaiterPc
  notifying : WaiterPc
  waiting : WaiterPc  -- in `waitUntil`
  leaving : (idle : Bool) → WaiterPc  -- `idle` if both counters were 0
  returned : (idle : Bool) → WaiterPc

pub data WaiterMove (s : Shared) : WaiterPc → Shared → WaiterPc → Type 0 where
  enter : WaiterMove s off (record s { waiters = increment s.waiters }) top
  stopped : s.run_state ≢ running → WaiterMove s top s (leaving false)
  go_on : s.run_state ≡ running → WaiterMove s top s still_running
  see_pending : s.pending ≢ 0 → WaiterMove s still_running s fetching
  see_none : s.pending ≡ 0 → WaiterMove s still_running s none_pending
  see_active : s.active ≢ 0 → WaiterMove s none_pending s fetching
  see_idle : s.active ≡ 0 → WaiterMove s none_pending s (leaving true)
  find :
      (before : List ℕ) (task : ℕ) (others : List ℕ)
      → s.queued ≡ before ++ task ∷ others
      → WaiterMove s fetching (record s { queued = before ++ others }) (got task)
  miss : WaiterMove s fetching s waiting
  commit :
      {task : ℕ} → WaiterMove s (got task) (record s { active = increment s.active }) (counted task)
  uncount :
      {task : ℕ}
      → WaiterMove s (counted task) (record s { pending = decrement s.pending }) (executing task)
  execute :
      {task : ℕ} (threw : Bool)
      → WaiterMove s (executing task) (record s { ran = task ∷ s.ran }) (executed threw)
  count_exception :
      {threw : Bool}
      → WaiterMove s
          (executed threw)
          (record s { exceptions = if threw then increment s.exceptions else s.exceptions })
          settling
  settle : WaiterMove s settling (record s { active = decrement s.active }) notifying
  notify : 1 < s.waiters → WaiterMove s notifying (wake s) top
  skip_notify : s.waiters ≤ 1 → WaiterMove s notifying s top
  wake_up :
      (s.run_state ≢ running) ⊎ ((s.pending ≡ 0) × (s.active ≡ 0)) → WaiterMove s waiting s top
  leave :
      {idle : Bool}
      → WaiterMove s (leaving idle) (record s { waiters = decrement s.waiters }) (returned idle)
