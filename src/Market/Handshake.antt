-- ===== src/Market/Handshake.antt =====
-- `MarketThread` in src/ThreadPoolPro/Detail/ThreadMarket.cpp: one thread of the market, the pools that
-- lease it one after the other, and the destructor at the end of the process, interleaved at each
-- access. A wait on `hasWork_` goes on when the value has changed.
pub mod Ownership
pub mod Jobs
pub mod Account
pub mod Exit
pub mod Lost
use thread_pool_pro.Base.{ℕ, ◌<◌, ◌≡◌, Bool, true, false, Option, none, some, List, [], ◌∷◌, update}

-- `job_`, `hasWork_`, `exiting_`, and whether the thread stands in `idleThreads_`. `assigned` and `ran`
-- are the history.
pub record Thread : Type 0 where
  pub job : Option ℕ
  pub has_work : Bool
  pub exiting : Bool
  pub idle : Bool
  pub assigned : List ℕ
  pub ran : List ℕ

-- Where the thread stands in `loop`.
pub data LoopPc : Type 0 where
  waiting : LoopPc
  woken : LoopPc  -- `hasWork_` was seen set
  working : LoopPc  -- `exiting_` was seen unset
  executed : LoopPc
  cleared : LoopPc  -- `job_` is empty again
  flipped : LoopPc  -- `hasWork_` is unset, before `returnToIdle`
  listed : LoopPc  -- before `notify_all`
  finished : LoopPc

pub data LoopMove (s : Thread) : LoopPc → Thread → LoopPc → Type 0 where
  wake : s.has_work ≡ true → LoopMove s waiting s woken
  stop : s.exiting ≡ true → LoopMove s woken s finished
  go_on : s.exiting ≡ false → LoopMove s woken s working
  execute :
      {task : ℕ} → s.job ≡ some task → LoopMove s working (record s { ran = task ∷ s.ran }) executed
  clear : LoopMove s executed (record s { job = none }) cleared
  flip : LoopMove s cleared (record s { has_work = false }) flipped
  return_to_idle : LoopMove s flipped (record s { idle = true }) listed
  notify : LoopMove s listed s waiting

-- Where a pool stands with the thread.
pub data ClientPc : Type 0 where
  away : ClientPc
  leased : ClientPc
  loaded : ℕ → ClientPc  -- in `assign`, before `hasWork_` is set
  assigned : ℕ → ClientPc  -- in `waitDone`, or on the way there
  done : ℕ → ClientPc  -- `waitDone` has returned

pub data ClientMove (s : Thread) : ClientPc → Thread → ClientPc → Type 0 where
  lease : s.idle ≡ true → ClientMove s away (record s { idle = false }) leased
  load :
      (task : ℕ)
      → ClientMove s leased
          (record s { job = some task; assigned = task ∷ s.assigned })
          (loaded task)
  publish : {task : ℕ} → ClientMove s (loaded task) (record s { has_work = true }) (assigned task)
  wait_done : {task : ℕ} → s.has_work ≡ false → ClientMove s (assigned task) s (done task)
  leave : {task : ℕ} → ClientMove s (done task) s away

-- `~MarketThread`
pub data ExitPc : Type 0 where
  alive : ExitPc
  exit_set : ExitPc  -- `exiting_` is set
  joining : ExitPc  -- `hasWork_` is set, too
  joined : ExitPc

pub data ExitMove (s : Thread) (loop : LoopPc) : ExitPc → Thread → ExitPc → Type 0 where
  set_exit : ExitMove s loop alive (record s { exiting = true }) exit_set
  set_work : ExitMove s loop exit_set (record s { has_work = true }) joining
  join : loop ≡ finished → ExitMove s loop joining s joined

pub record System : Type 0 where
  pub thread : Thread
  pub loop : LoopPc
  pub client : ℕ → ClientPc
  pub exit : ExitPc

-- `n` bounds the indices of the pools.
pub data Step (n : ℕ) (y : System) : System → Type 0 where
  loop_step :
      {s : Thread} {p : LoopPc}
      → LoopMove y.thread y.loop s p
      → Step n y (record y { thread = s; loop = p })
  client_step :
      (i : ℕ) {s : Thread} {p : ClientPc}
      → i < n
      → ClientMove y.thread (y.client i) s p
      → Step n y (record y { thread = s; client = update y.client i p })
  exit_step :
      {s : Thread} {p : ExitPc}
      → ExitMove y.thread y.loop y.exit s p
      → Step n y (record y { thread = s; exit = p })

-- `lease` makes the thread for the pool 0.
abbrev pub init : System
init = record {
  thread = record {
    job = none;
    has_work = false;
    exiting = false;
    idle = false;
    assigned = [];
    ran = [];
  };
  loop = waiting;
  client = update (λ _. away) 0 leased;
  exit = alive;
}

pub data Reach (n : ℕ) : System → Type 0 where
  start : Reach n init
  later : {y z : System} → Reach n y → Step n y z → Reach n z
