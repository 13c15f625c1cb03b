-- ===== src/Deque.antt =====
-- src/ThreadPoolPro/Detail/WorkStealingQueue.cpp as a machine: one owner and any number of thieves,
-- interleaved at each shared access. Every atomic access is taken as sequentially consistent. A
-- pointer in a slot is the number of the task that was pushed; nodes are recycled in `Queue`.
pub mod Span
pub mod Invariant
pub mod Safety
pub mod Overwrite
use thread_pool_pro.Base.{
  ℕ, suc, ◌+◌, ◌-◌, ◌*◌, ◌^◌, ◌≤◌, ◌<◌, ◌≡◌, ◌≢◌, Bool, true, false, Option, some, List, [], ◌∷◌,
  ltb, update,
}
use thread_pool_pro.Buffer.{Buffer, size_of, make, at, put, grow}

-- The atomics of the queue, and the buffers ever allocated: those below `active` are retired.
-- `returned` and `pushed` are the history: tasks handed out, and tasks made visible by a push.
pub record Memory : Type 0 where
  pub top : ℕ
  pub bottom : ℕ
  pub bufs : ℕ → Buffer
  pub active : ℕ
  pub returned : List ℕ
  pub pushed : List ℕ

abbrev pub buffer : Memory → Buffer
buffer m = m.bufs m.active

-- `bottom - top > buffer->capacity_ - 1`, on `std::size_t`.
unfoldable pub is_full : ℕ → ℕ → Buffer → Bool
is_full bottom top b = ltb (size_of (b.capacity + 2 ^ 64 - 1)) (size_of (bottom + 2 ^ 64 - top))

-- Where the owner stands in `pushBottom` or `popBottom`, with the locals that are live there.
pub data OwnerPc : Type 0 where
  idle : OwnerPc
  push_bottom : (task b : ℕ) → OwnerPc  -- `bottomIndex_` loaded
  push_top : (task b t : ℕ) → OwnerPc  -- `topIndex_` loaded
  push_room : (task b : ℕ) → OwnerPc  -- the active buffer has room
  push_stored : (task b : ℕ) → OwnerPc  -- the slot is written
  pop_bottom : (b : ℕ) → OwnerPc  -- `bottomIndex_` loaded, and `bottom` decremented
  pop_stored : (b : ℕ) → OwnerPc  -- `bottomIndex_` lowered
  pop_last : (b : ℕ) → OwnerPc  -- `top == bottom`, before the exchange
  pop_lost : (b : ℕ) → OwnerPc  -- nothing to take, before `bottomIndex_` is restored
  pop_won : (b : ℕ) → OwnerPc  -- the exchange succeeded, before `bottomIndex_` is restored
  pop_take : (b : ℕ) → OwnerPc  -- before `buffer->at(bottom)` is read

-- One access of the owner.
pub data OwnerMove (m : Memory) : OwnerPc → Memory → OwnerPc → Type 0 where
  load_bottom : (task : ℕ) → OwnerMove m idle m (push_bottom task m.bottom)
  load_top : {task b : ℕ} → OwnerMove m (push_bottom task b) m (push_top task b m.top)
  fits :
      {task b t : ℕ}
      → is_full b t (buffer m) ≡ false
      → OwnerMove m (push_top task b t) m (push_room task b)
  grows :
      {task b t : ℕ}
      → is_full b t (buffer m) ≡ true
      → OwnerMove m
          (push_top task b t)
          (record m {
            bufs = update m.bufs (m.active + 1) (grow (buffer m) b t);
            active = m.active + 1;
          })
          (push_room task b)
  write :
      {task b : ℕ}
      → OwnerMove m
          (push_room task b)
          (record m { bufs = update m.bufs m.active (put (buffer m) b (some task)) })
          (push_stored task b)
  publish :
      {task b : ℕ}
      → OwnerMove m
          (push_stored task b)
          (record m { bottom = size_of (b + 1); pushed = task ∷ m.pushed })
          idle
  pop_none : m.bottom ≡ 0 → OwnerMove m idle m idle
  pop_load : m.bottom ≢ 0 → OwnerMove m idle m (pop_bottom (m.bottom - 1))
  lower : {b : ℕ} → OwnerMove m (pop_bottom b) (record m { bottom = b }) (pop_stored b)
  above : {b : ℕ} → b < m.top → OwnerMove m (pop_stored b) m (pop_lost b)
  last : {b : ℕ} → m.top ≡ b → OwnerMove m (pop_stored b) m (pop_last b)
  below : {b : ℕ} → m.top < b → OwnerMove m (pop_stored b) m (pop_take b)
  win :
      {b : ℕ}
      → m.top ≡ b
      → OwnerMove m (pop_last b) (record m { top = size_of (b + 1) }) (pop_won b)
  lose : {b : ℕ} → m.top ≢ b → OwnerMove m (pop_last b) m (pop_lost b)
  restore : {b : ℕ} → OwnerMove m (pop_lost b) (record m { bottom = size_of (b + 1) }) idle
  restore_won :
      {b : ℕ} → OwnerMove m (pop_won b) (record m { bottom = size_of (b + 1) }) (pop_take b)
  take :
      {b task : ℕ}
      → at (buffer m) b ≡ some task
      → OwnerMove m (pop_take b) (record m { returned = task ∷ m.returned }) idle

-- Where a thief stands in `steal`. The last field of `won` is no variable of the code: it is what
-- the slot held when the exchange succeeded, the task that the thief has claimed.
pub data ThiefPc : Type 0 where
  idle : ThiefPc
  seen_top : (t : ℕ) → ThiefPc
  seen_bottom : (t : ℕ) → ThiefPc  -- `top < bottom`
  seen_buffer : (t k : ℕ) → ThiefPc  -- `buffer_` loaded, before the exchange
  won : (t k : ℕ) (claim : Option ℕ) → ThiefPc  -- before `buffer->at(top)` is read

-- One access of a thief.
pub data ThiefMove (m : Memory) : ThiefPc → Memory → ThiefPc → Type 0 where
  load_top : ThiefMove m idle m (seen_top m.top)
  nothing : {t : ℕ} → m.bottom ≤ t → ThiefMove m (seen_top t) m idle
  load_bottom : {t : ℕ} → t < m.bottom → ThiefMove m (seen_top t) m (seen_bottom t)
  load_buffer : {t : ℕ} → ThiefMove m (seen_bottom t) m (seen_buffer t m.active)
  win :
      {t k : ℕ}
      → m.top ≡ t
      → ThiefMove m
          (seen_buffer t k)
          (record m { top = size_of (t + 1) })
          (won t k (at (m.bufs k) t))
  lose : {t k : ℕ} → m.top ≢ t → ThiefMove m (seen_buffer t k) m idle
  take :
      {t k task : ℕ} {claim : Option ℕ}
      → at (m.bufs k) t ≡ some task
      → ThiefMove m (won t k claim) (record m { returned = task ∷ m.returned }) idle

pub record System : Type 0 where
  pub mem : Memory
  pub owner : OwnerPc
  pub thief : ℕ → ThiefPc

-- `n` thieves: an index from `n` on is never picked.
pub data Step (n : ℕ) (s : System) : System → Type 0 where
  owner_step :
      {m : Memory} {p : OwnerPc}
      → OwnerMove s.mem s.owner m p
      → Step n s (record s { mem = m; owner = p })
  thief_step :
      (i : ℕ) {m : Memory} {p : ThiefPc}
      → i < n
      → ThiefMove s.mem (s.thief i) m p
      → Step n s (record s { mem = m; thief = update s.thief i p })

-- `WorkStealingQueue::WorkStealingQueue`, before the owner and the thieves move.
unfoldable pub init : ℕ → System
unfolding make
init capacity = record {
  mem = record {
    top = 0;
    bottom = 0;
    bufs = λ _. make capacity;
    active = 0;
    returned = [];
    pushed = [];
  };
  owner = OwnerPc.idle;
  thief = λ _. ThiefPc.idle;
}

pub data Reach (n capacity : ℕ) : System → Type 0 where
  start : Reach n capacity (init capacity)
  later : {s t : System} → Reach n capacity s → Step n s t → Reach n capacity t
