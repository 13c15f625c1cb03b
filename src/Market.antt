-- ===== src/Market.antt =====
-- src/ThreadPoolPro/Detail/ThreadMarket.cpp: `ThreadMarket`, whose operations run under its mutex.
-- A thread is the number of its creation. The head of `idle` is the back of `idleThreads_`.
pub mod Lease
pub mod Handshake
use thread_pool_pro.Base.{ℕ, zero, suc, ◌+◌, ◌-◌, List, [], ◌∷◌, ◌++◌, length, ltb, if◌then◌else◌}

pub record Market : Type 0 where
  pub spawned : ℕ  -- `allThreads_.size()`
  pub idle : List ℕ  -- `idleThreads_`

-- The market of `ThreadMarket::instance` at its first call.
abbrev pub instance_new : Market
instance_new = record { spawned = 0; idle = [] }

-- The first loop of `lease`: the threads handed out, and those that stay idle.
unfoldable pub take_idle : ℕ → List ℕ → List ℕ → List ℕ × List ℕ
take_idle count [] out = (out, [])
take_idle count (t ∷ rest) out =
    if ltb (length out) count then take_idle count rest (out ++ t ∷ []) else (out, t ∷ rest)

-- The second loop of `lease`, `rounds` times: each round makes the thread number `next`.
unfoldable pub spawn : ℕ → ℕ → List ℕ → List ℕ × ℕ
spawn zero next out = (out, next)
spawn (suc rounds) next out = spawn rounds (next + 1) (out ++ next ∷ [])

-- `ThreadMarket::lease`
unfoldable pub lease : ℕ → Market → List ℕ × Market
unfolding take_idle spawn
lease count m =
    let (found, idle) = take_idle count m.idle [] in
    let (out, spawned) = spawn (count - length found) m.spawned found in
    (out, record { spawned = spawned; idle = idle })

-- `ThreadMarket::returnToIdle`
unfoldable pub return_to_idle : ℕ → Market → Market
return_to_idle thread m = record m { idle = thread ∷ m.idle }
