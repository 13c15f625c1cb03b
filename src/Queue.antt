-- ===== src/Queue.antt =====
-- src/ThreadPoolPro/Detail/WorkStealingQueue.cpp, one operation at a time: the whole operations with
-- the nodes that hold the tasks, their free list and the retired buffers. Every exchange succeeds,
-- as no other thread moves.
pub mod Contents
pub mod Nodes
pub mod Growing
pub mod Placing
pub mod Refinement
pub mod Destruction
pub mod Limits
use thread_pool_pro.Base.{
  ℕ, zero, suc, ◌+◌, ◌-◌, ◌^◌, Option, none, some, List, [], ◌∷◌, ◌++◌, if◌then◌else◌, ◌==◌, ltb,
  leb, update,
}
use thread_pool_pro.Buffer.{Buffer, size_of, make, at, put, grow}
use thread_pool_pro.Deque.{is_full}

-- The memory of a node: freed or never allocated, holding a task, or on the free list.
pub data Node : Type 0 where
  unallocated : Node
  holds : ℕ → Node
  recycled : Node

-- `class WorkStealingQueue`, and the heap. Nodes from `next` on were never allocated.
pub record Queue : Type 0 where
  pub top : ℕ
  pub bottom : ℕ
  pub buffer : Buffer
  pub retired : List Buffer
  pub free : List ℕ  -- the chain from `freeHead_`
  pub free_count : ℕ
  pub nodes : ℕ → Node
  pub next : ℕ

-- `TaskFreeListCapacity`
abbrev pub task_free_list_capacity : ℕ
task_free_list_capacity = 4096

-- `WorkStealingQueue::WorkStealingQueue`
unfoldable pub create : ℕ → Queue
unfolding make
create capacity = record {
  top = 0;
  bottom = 0;
  buffer = make capacity;
  retired = [];
  free = [];
  free_count = 0;
  nodes = λ _. unallocated;
  next = 0;
}

abbrev pub set_node : Queue → ℕ → Node → Queue
set_node q x n = record q { nodes = update q.nodes x n }

-- `WorkStealingQueue::acquireNode`
pub acquire_node : Queue → ℕ → Queue × ℕ
acquire_node q task = elim q.free [
  | [] ↦ (record q { nodes = update q.nodes q.next (holds task); next = suc q.next }, q.next)
  | x ∷ rest ↦ (
    record q {
      free = rest;
      free_count = size_of (q.free_count + 2 ^ 64 - 1);
      nodes = update q.nodes x (holds task);
    },
    x,
  )
]

-- `WorkStealingQueue::releaseNode`
pub release_node : Queue → ℕ → Queue
release_node q x =
    if leb task_free_list_capacity q.free_count then set_node q x unallocated else record q {
      free = x ∷ q.free;
      free_count = size_of (q.free_count + 1);
      nodes = update q.nodes x recycled;
    }

-- The growth in `pushBottom`.
pub make_room : Queue → Queue
make_room q =
    if is_full q.bottom q.top q.buffer
    then record q { buffer = grow q.buffer q.bottom q.top; retired = q.retired ++ q.buffer ∷ [] }
    else q

-- The rest of `pushBottom`.
pub place : Queue → ℕ → Queue
unfolding acquire_node
place q task =
    let (q', x) = acquire_node q task in
    record q' { buffer = put q'.buffer q'.bottom (some x); bottom = size_of (q'.bottom + 1) }

-- `WorkStealingQueue::pushBottom`
pub push_bottom : Queue → ℕ → Queue
push_bottom q task = place (make_room q) task

-- How `popBottom` and `steal` end; `invalid` reads a task through a pointer to none.
pub data Taken : Type 0 where
  nothing : Queue → Taken
  got : ℕ → Queue → Taken
  invalid : Taken

-- The end of `popBottom`, at the index `i`.
pub take_own : Queue → ℕ → Taken
take_own q i = elim (at q.buffer i) [
  | none ↦ invalid
  | some x ↦ elim (q.nodes x) [
    | unallocated ↦ invalid
    | recycled ↦ invalid
    | holds task ↦ got task (release_node q x)
  ]
]

-- `WorkStealingQueue::popBottom`
pub pop_bottom : Queue → Taken
pop_bottom q =
    if q.bottom == 0
    then nothing q
    else (if ltb (q.bottom - 1) q.top
        then nothing (record q { bottom = size_of (q.bottom - 1 + 1) })
        else (if q.top == q.bottom - 1
            then take_own
                (record q { top = size_of (q.top + 1); bottom = size_of (q.bottom - 1 + 1) })
                (q.bottom - 1)
            else take_own (record q { bottom = q.bottom - 1 }) (q.bottom - 1)))

-- The end of `steal`, at the index `i`: the node is deleted.
pub take_other : Queue → ℕ → Taken
take_other q i = elim (at q.buffer i) [
  | none ↦ invalid
  | some x ↦ elim (q.nodes x) [
    | unallocated ↦ invalid
    | recycled ↦ invalid
    | holds task ↦ got task (set_node q x unallocated)
  ]
]

-- `WorkStealingQueue::steal`
pub steal : Queue → Taken
steal q =
    if leb q.bottom q.top
    then nothing q
    else take_other (record q { top = size_of (q.top + 1) }) q.top

-- `WorkStealingQueue::size`
pub size : Queue → ℕ
size q = if ltb q.top q.bottom then size_of (q.bottom + 2 ^ 64 - q.top) else 0

-- The first loop of the destructor, from the index `i`, `rounds` of them.
pub delete_tasks : Buffer → (ℕ → Node) → ℕ → ℕ → ℕ → Node
delete_tasks b nodes zero i = nodes
delete_tasks b nodes (suc rounds) i = elim (at b i) [
  | none ↦ delete_tasks b nodes rounds (i + 1)
  | some x ↦ delete_tasks b (update nodes x unallocated) rounds (i + 1)
]

-- The second loop.
pub delete_free : List ℕ → (ℕ → Node) → ℕ → Node
delete_free [] nodes = nodes
delete_free (x ∷ rest) nodes = delete_free rest (update nodes x unallocated)

-- The nodes after `WorkStealingQueue::~WorkStealingQueue`.
pub destroy : Queue → ℕ → Node
destroy q = delete_free q.free (delete_tasks q.buffer q.nodes (q.bottom - q.top) q.top)
