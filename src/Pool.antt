-- ===== src/Pool.antt =====
-- src/ThreadPoolPro/ThreadPool.cpp: the shared state of a pool, the calls that act on it at once,
-- and the workers, submitters and waiters that act on it step by step. A queue operation is one
-- step: `Deque` shows how far `WorkStealingQueue` allows that, and the shards are under a lock.
pub mod Worker
pub mod Submit
pub mod WaitIdle
pub mod System
pub mod Counters
pub mod Shares
pub mod Conservation
pub mod Workload
pub mod Quiescence
pub mod Shutdown
pub mod Abandonment
pub mod Joining
pub mod Drain
pub mod Races
use thread_pool_pro.Base.{
  ◌≡◌, ◌≢◌, ◌⊎◌, inl, inr, refl, arith, ℕ, zero, suc, ◌+◌, ◌-◌, ◌%◌, ◌^◌, Bool, true, false, List,
  [], ◌∷◌, if◌then◌else◌, ◌==◌, ltb, ◌&&◌, not,
}
use thread_pool_pro.Buffer.{size_of}
use thread_pool_pro.Fetch.{u32}

-- `ThreadPool::RunState`
pub data RunState : Type 0 where
  running : RunState
  shutting_down_finish : RunState
  shutting_down_discard : RunState

-- `ThreadPool::ShutdownMode`
pub data ShutdownMode : Type 0 where
  finish_tasks : ShutdownMode
  discard_tasks : ShutdownMode

abbrev pub is_running : RunState → Bool
is_running RunState.running = true
is_running _ = false

pub is_running_iff :
    (r : RunState)
    → ((is_running r ≡ true) × (r ≡ running)) ⊎ ((is_running r ≡ false) × (r ≢ running))
is_running_iff RunState.running = inl (refl, refl)
is_running_iff RunState.shutting_down_finish = inr (refl, λ e. ground arith)
is_running_iff RunState.shutting_down_discard = inr (refl, λ e. ground arith)

-- The atomics of the pool. `queued` holds the tasks in all local queues and shards. `ran` and
-- `pushed` are the history: tasks that have been executed, and tasks that submitters have queued.
pub record Shared : Type 0 where
  pub run_state : RunState
  pub paused : Bool
  pub active : ℕ
  pub exceptions : ℕ
  pub pending : ℕ
  pub idle : ℕ
  pub waiters : ℕ
  pub token : ℕ
  pub queued : List ℕ
  pub ran : List ℕ
  pub pushed : List ℕ

-- `fetch_add(1)` and `fetch_sub(1)` on a `std::atomic<std::size_t>`.
abbrev pub increment : ℕ → ℕ
increment n = size_of (n + 1)

abbrev pub decrement : ℕ → ℕ
decrement n = size_of (n + 2 ^ 64 - 1)

-- `ThreadPool::ThreadPool`, before its workers move.
abbrev pub initial : Shared
initial = record {
  run_state = RunState.running;
  paused = false;
  active = 0;
  exceptions = 0;
  pending = 0;
  idle = 0;
  waiters = 0;
  token = 0;
  queued = [];
  ran = [];
  pushed = [];
}

-- `workerCount_`
unfoldable pub worker_count : ℕ → ℕ
worker_count threads = if threads == 0 then 1 else threads

-- `wakeOne` and `wakeAll`, as far as the token goes.
abbrev pub wake : Shared → Shared
wake s = record s { token = u32 (s.token + 1) }

-- `ThreadPool::pause`
abbrev pub pause : Shared → Shared
pause s = record s { paused = true }

-- `ThreadPool::resume`
abbrev pub resume : Shared → Shared
resume s = wake (record s { paused = false })

abbrev pub desired : ShutdownMode → RunState
desired finish_tasks = RunState.shutting_down_finish
desired discard_tasks = RunState.shutting_down_discard

-- `ThreadPool::shutdown`, up to where it waits for the workers.
abbrev pub request_shutdown : ShutdownMode → Shared → Shared
request_shutdown mode s =
    if is_running s.run_state then wake (record s { run_state = desired mode }) else s

-- `activeTaskCount`, `queuedTasks`, `exceptionCount`, `idleThreadCount`, `empty`, `isPaused` and
-- `isStopped`.
unfoldable pub active_task_count : Shared → ℕ
active_task_count s = s.active

unfoldable pub queued_tasks : Shared → ℕ
queued_tasks s = s.pending

unfoldable pub exception_count : Shared → ℕ
exception_count s = s.exceptions

unfoldable pub idle_thread_count : Shared → ℕ
idle_thread_count s = s.idle

unfoldable pub empty : Shared → Bool
empty s = s.pending == 0

unfoldable pub is_paused : Shared → Bool
is_paused s = s.paused

unfoldable pub is_stopped : Shared → Bool
is_stopped s = not (is_running s.run_state)
