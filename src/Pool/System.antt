-- ===== src/Pool/System.antt =====
-- A pool with its workers, and the threads that submit to it, wait for it and control it,
-- interleaved in any order.
use thread_pool_pro.Base.{ℕ, ◌<◌, update}
use thread_pool_pro.Pool.{Shared, ShutdownMode, initial, pause, resume, request_shutdown}
use thread_pool_pro.Pool.Worker.{WorkerPc, WorkerMove}
use thread_pool_pro.Pool.Submit.{SubmitPc, SubmitMove}
use thread_pool_pro.Pool.WaitIdle.{WaiterPc, WaiterMove}

pub record System : Type 0 where
  pub shared : Shared
  pub worker : ℕ → WorkerPc
  pub submitter : ℕ → SubmitPc
  pub waiter : ℕ → WaiterPc

-- `n` bounds the indices of the workers, of the submitters and of the waiters.
pub data Step (n : ℕ) (y : System) : System → Type 0 where
  worker_step :
      (i : ℕ) {s : Shared} {p : WorkerPc}
      → i < n
      → WorkerMove y.shared (y.worker i) s p
      → Step n y (record y { shared = s; worker = update y.worker i p })
  submit_step :
      (i : ℕ) {s : Shared} {p : SubmitPc}
      → i < n
      → SubmitMove y.shared (y.submitter i) s p
      → Step n y (record y { shared = s; submitter = update y.submitter i p })
  waiter_step :
      (i : ℕ) {s : Shared} {p : WaiterPc}
      → i < n
      → WaiterMove y.shared (y.waiter i) s p
      → Step n y (record y { shared = s; waiter = update y.waiter i p })
  pause_step : Step n y (record y { shared = pause y.shared })
  resume_step : Step n y (record y { shared = resume y.shared })
  shutdown_step :
      (mode : ShutdownMode) → Step n y (record y { shared = request_shutdown mode y.shared })

abbrev pub init : System
init = record {
  shared = initial;
  worker = λ _. WorkerPc.top;
  submitter = λ _. SubmitPc.free;
  waiter = λ _. WaiterPc.off;
}

pub data Reach (n : ℕ) : System → Type 0 where
  start : Reach n init
  later : {y z : System} → Reach n y → Step n y z → Reach n z

-- The states that a pool in the state `y` goes on to.
pub data Run (n : ℕ) (y : System) : System → Type 0 where
  stay : Run n y y
  onward : {x z : System} → Run n y x → Step n x z → Run n y z
