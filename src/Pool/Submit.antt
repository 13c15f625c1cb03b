-- ===== src/Pool/Submit.antt =====
-- ThreadPool::submit, one access at a time. `true` is a call that returned, `false` one that threw.
use thread_pool_pro.Base.{ℕ, ◌≡◌, ◌≢◌, Bool, true, false, [], ◌∷◌, ◌++◌}
use thread_pool_pro.Pool.{running, Shared, increment, wake}

pub data SubmitPc : Type 0 where
  free : SubmitPc
  checked : ℕ → SubmitPc  -- the pool was running
  pushed : ℕ → SubmitPc  -- the task is queued
  announced : ℕ → SubmitPc  -- `pendingTasks_` incremented
  returned : ℕ → Bool → SubmitPc

pub data SubmitMove (s : Shared) : SubmitPc → Shared → SubmitPc → Type 0 where
  check : (task : ℕ) → s.run_state ≡ running → SubmitMove s free s (checked task)
  refuse : (task : ℕ) → s.run_state ≢ running → SubmitMove s free s (returned task false)
  push :
      {task : ℕ}
      → SubmitMove s
          (checked task)
          (record s { queued = s.queued ++ task ∷ []; pushed = task ∷ s.pushed })
          (pushed task)
  announce :
      {task : ℕ}
      → SubmitMove s (pushed task) (record s { pending = increment s.pending }) (announced task)
  notify : {task : ℕ} → s.idle ≢ 0 → SubmitMove s (announced task) (wake s) (returned task true)
  skip_notify : {task : ℕ} → s.idle ≡ 0 → SubmitMove s (announced task) s (returned task true)
  again : {task : ℕ} {result : Bool} → SubmitMove s (returned task result) s free
