-- ===== src/Fuzz.antt =====
-- fuzz/fuzz_work_stealing_queue.cpp: the harness that compares the owner's operations of the queue with
-- a shadow of ids. A task is the id that its callable counts.
pub mod Shadow
pub mod Agreement
use thread_pool_pro.Base.{
  ℕ, suc, ◌+◌, ◌%◌, ◌≡◌, Bool, true, false, List, [], ◌∷◌, if◌then◌else◌, ◌==◌, update,
}
use thread_pool_pro.Queue.{
  Queue, create, push_bottom, pop_bottom, Taken, nothing, got, invalid, size,
}

-- `kCapacities[i]`, for an index below 4.
unfoldable pub capacity : ℕ → ℕ
capacity i = if i == 0 then 1 else (if i == 1 then 2 else (if i == 2 then 4 else 1024))

-- The locals of the harness. `shadow` begins with its back, and `counts` are `executionCounts`.
pub record Harness : Type 0 where
  pub queue : Queue
  pub shadow : List ℕ
  pub counts : ℕ → ℕ
  pub next_id : ℕ

-- The end of a round, or `std::abort()`. A queue that reads a task through a pointer to none aborts
-- too.
pub data Outcome (A : Type 0) : Type 0 where
  done : A → Outcome A
  aborted : Outcome A

-- `(*task)()`, for the callable of an id.
abbrev pub run : (ℕ → ℕ) → ℕ → ℕ → ℕ
run counts id = update counts id (counts id + 1)

-- A round that pushes.
unfoldable pub push_round : Harness → Harness
push_round h = record {
  queue = push_bottom h.queue h.next_id;
  shadow = h.next_id ∷ h.shadow;
  counts = update h.counts h.next_id 0;
  next_id = suc h.next_id;
}

-- What a pop that brought `task` leaves, when the back of the shadow is `expected`.
unfoldable pub check_run : Queue → ℕ → (ℕ → ℕ) → ℕ → ℕ → List ℕ → Outcome Harness
check_run queue task counts next_id expected shadow =
    if run counts task expected == 1
    then done
        (record { queue = queue; shadow = shadow; counts = run counts task; next_id = next_id })
    else aborted

-- A round that pops, where `shadow` is that of the harness.
unfoldable pub pop_round : Harness → List ℕ → Outcome Harness
pop_round h [] = elim (pop_bottom h.queue) [
  | nothing q ↦ done (record h { queue = q })
  | got task q ↦ aborted
  | invalid ↦ aborted
]
pop_round h (expected ∷ shadow) = elim (pop_bottom h.queue) [
  | nothing q ↦ aborted
  | got task q ↦ check_run q task h.counts h.next_id expected shadow
  | invalid ↦ aborted
]

-- A round of the loop over the bytes.
unfoldable pub round : Harness → ℕ → Outcome Harness
round h byte = if byte % 3 == 0 then pop_round h h.shadow else done (push_round h)

unfoldable pub rounds : Harness → List ℕ → Outcome Harness
rounds h [] = done h
rounds h (byte ∷ bytes) = elim (round h byte) [ done h' ↦ rounds h' bytes | aborted ↦ aborted ]

-- The loop that drains what is left of the shadow, and the test of the size.
unfoldable pub drain : Queue → (ℕ → ℕ) → List ℕ → Outcome Queue
drain queue counts [] = if size queue == 0 then done queue else aborted
drain queue counts (expected ∷ shadow) = elim (pop_bottom queue) [
  | nothing q ↦ aborted
  | got task q ↦ if run counts task expected == 1 then drain q (run counts task) shadow else aborted
  | invalid ↦ aborted
]

abbrev pub finish : Outcome Harness → Bool
finish aborted = false
finish (done h) = elim (drain h.queue h.counts h.shadow) [ done q ↦ true | aborted ↦ false ]

unfoldable pub start : ℕ → Harness
start byte = record {
  queue = create (capacity (byte % 4));
  shadow = [];
  counts = λ id. 0;
  next_id = 0;
}

-- `LLVMFuzzerTestOneInput`: whether it returns.
unfoldable pub returns : List ℕ → Bool
returns [] = true
returns (byte ∷ bytes) = finish (rounds (start byte) bytes)
