-- ===== src/Fetch.antt =====
-- The order in which src/ThreadPoolPro/ThreadPool.cpp looks for a task: `nextStealOffset`, and the
-- indices that `fetchTask` and `fetchTaskExternal` probe.
pub mod Random
pub mod Victims
use Prim.Native.Nat.{bit_or, bit_xor}
use thread_pool_pro.Base.{
  ℕ, zero, suc, ◌+◌, ◌-◌, ◌*◌, ◌/◌, ◌%◌, ◌^◌, List, [], ◌∷◌, if◌then◌else◌, ◌==◌, ltb,
}
use thread_pool_pro.Buffer.{size_of}

-- A value of `std::uint32_t`.
abbrev pub u32 : ℕ → ℕ
u32 n = n % 2 ^ 32

-- The three shifts of `nextStealOffset` on `stealRngState`.
shift_13 : ℕ → ℕ
shift_13 s = bit_xor s (u32 (s * 2 ^ 13))

shift_17 : ℕ → ℕ
shift_17 s = bit_xor s (s / 2 ^ 17)

shift_5 : ℕ → ℕ
shift_5 s = bit_xor s (u32 (s * 2 ^ 5))

-- The state from which the shifts start: a state of 0 is seeded from the hash of the thread's id.
seeded : ℕ → ℕ → ℕ
seeded hash s = if s == 0 then bit_or (u32 hash) 1 else s

-- `stealRngState` after a call of `nextStealOffset`.
unfoldable pub next_state : ℕ → ℕ → ℕ
unfolding shift_13 shift_17 shift_5 seeded
next_state hash s = shift_5 (shift_17 (shift_13 (seeded hash s)))

-- What the call returns.
unfoldable pub next_steal_offset : ℕ → ℕ → ℕ → ℕ
unfolding next_state
next_steal_offset hash s bound = next_state hash s % bound

-- The offset of `fetchTask` among `n` workers, for the random number `r`.
unfoldable pub start_offset : ℕ → ℕ
start_offset r = size_of (1 + r)

-- The worker that `fetchTask` probes in round `i`.
unfoldable pub victim : ℕ → ℕ → ℕ → ℕ → ℕ
victim n index offset i = size_of (index + offset + i) % n

-- The worker that `fetchTaskExternal` probes in round `i`.
unfoldable pub victim_external : ℕ → ℕ → ℕ → ℕ
victim_external n offset i = size_of (offset + i) % n

-- The shard that worker `index` probes in round `i`, of `n` shards.
unfoldable pub shard_at : ℕ → ℕ → ℕ → ℕ
shard_at n index i = size_of (index + i) % n

-- `injectionShardCount_`
unfoldable pub shard_count : ℕ → ℕ
shard_count workers = if ltb (size_of (workers * 2)) 16 then 16 else size_of (workers * 2)
