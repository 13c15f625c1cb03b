-- ===== src/Park.antt =====
-- `spinYieldPark` in include/ThreadPoolPro/Detail/Utility.h, with `waitUntil`, `wakeOne` and `wakeAll`
-- of the pool: threads that wait on one token, each for a predicate of its own, and threads that
-- change what the predicates read, bump the token and notify. `wait` and `notify` on the token are
-- those of the standard library: `wait` blocks while the token has the value that it was given.
pub mod Wakeups
pub mod WakeOne
use thread_pool_pro.Base.{ℕ, zero, suc, ◌+◌, ◌≡◌, ◌≢◌, Bool, true, false, update}
use thread_pool_pro.Fetch.{u32}

-- `WaitSpinIterations` and `WaitYieldIterations`
abbrev pub wait_spin_iterations : ℕ
wait_spin_iterations = 1000

abbrev pub wait_yield_iterations : ℕ
wait_yield_iterations = 0

-- The token, its changes so far, and what each waiter's predicate would return.
pub record Shared : Type 0 where
  pub token : ℕ
  pub bumps : ℕ
  pub holds : ℕ → Bool

pub data WaiterPc : Type 0 where
  spinning : (left : ℕ) → WaiterPc
  yielding : (left : ℕ) → WaiterPc
  checking : WaiterPc  -- the head of the last loop
  loading : WaiterPc  -- the predicate did not hold
  loaded : (observed : ℕ) → WaiterPc  -- before the second check
  entering : (observed : ℕ) → WaiterPc  -- in `wait`, before it compares
  blocked : (observed : ℕ) → WaiterPc
  done : WaiterPc

-- An access of the waiter whose predicate would return `now`.
pub data WaiterMove (s : Shared) (now : Bool) : WaiterPc → WaiterPc → Type 0 where
  spin_hit : {k : ℕ} → now ≡ true → WaiterMove s now (spinning (suc k)) done
  spin_miss : {k : ℕ} → now ≡ false → WaiterMove s now (spinning (suc k)) (spinning k)
  spin_over : WaiterMove s now (spinning zero) (yielding wait_yield_iterations)
  yield_hit : {k : ℕ} → now ≡ true → WaiterMove s now (yielding (suc k)) done
  yield_miss : {k : ℕ} → now ≡ false → WaiterMove s now (yielding (suc k)) (yielding k)
  yield_over : WaiterMove s now (yielding zero) checking
  check_hit : now ≡ true → WaiterMove s now checking done
  check_miss : now ≡ false → WaiterMove s now checking loading
  load : WaiterMove s now loading (loaded s.token)
  recheck_hit : {o : ℕ} → now ≡ true → WaiterMove s now (loaded o) done
  recheck_miss : {o : ℕ} → now ≡ false → WaiterMove s now (loaded o) (entering o)
  block : {o : ℕ} → s.token ≡ o → WaiterMove s now (entering o) (blocked o)
  pass : {o : ℕ} → s.token ≢ o → WaiterMove s now (entering o) checking
  again : WaiterMove s now done (spinning wait_spin_iterations)

pub data WakerPc : Type 0 where
  idle : WakerPc
  changed : WakerPc  -- before `fetch_add` on the token
  bumped : WakerPc  -- before `notify_one` or `notify_all`

pub record System : Type 0 where
  pub shared : Shared
  pub waiter : ℕ → WaiterPc
  pub waker : ℕ → WakerPc

abbrev pub notified : WaiterPc → WaiterPc
notified (blocked o) = entering o
notified p = p

-- `ones` tells whether `notify_one` is used, too.
pub data Step (ones : Bool) (y : System) : System → Type 0 where
  waiter_step :
      (i : ℕ) {p : WaiterPc}
      → WaiterMove y.shared (y.shared.holds i) (y.waiter i) p
      → Step ones y (record y { waiter = update y.waiter i p })
  change :
      (i : ℕ) (holds : ℕ → Bool)
      → y.waker i ≡ idle
      → Step ones y (record y {
        shared = record (y.shared) { holds = holds };
        waker = update y.waker i changed;
      })
  weaken :
      (holds : ℕ → Bool)
      → ((w : ℕ) → holds w ≡ true → y.shared.holds w ≡ true)
      → Step ones y (record y { shared = record (y.shared) { holds = holds } })
  bump :
      (i : ℕ)
      → y.waker i ≡ changed
      → Step ones y (record y {
        shared = record (y.shared) { token = u32 (y.shared.token + 1); bumps = y.shared.bumps + 1 };
        waker = update y.waker i bumped;
      })
  notify_all :
      (i : ℕ)
      → y.waker i ≡ bumped
      → Step ones y
          (record y { waiter = λ w. notified (y.waiter w); waker = update y.waker i idle })
  notify_one :
      (i w : ℕ)
      → ones ≡ true
      → y.waker i ≡ bumped
      → Step ones y (record y {
        waiter = update y.waiter w (notified (y.waiter w));
        waker = update y.waker i idle;
      })

abbrev pub init : System
init = record {
  shared = record { token = 0; bumps = 0; holds = λ _. false };
  waiter = λ _. spinning wait_spin_iterations;
  waker = λ _. idle;
}

pub data Reach (ones : Bool) : System → Type 0 where
  start : Reach ones init
  later : {y z : System} → Reach ones y → Step ones y z → Reach ones z
