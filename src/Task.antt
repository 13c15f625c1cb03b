-- ===== src/Task.antt =====
-- Task.h, Task.tpp and VTable.h under include/ThreadPoolPro/Detail/, and
-- src/ThreadPoolPro/Detail/Task.cpp: the move-only callable with inline storage. `none` as a result
-- is undefined behaviour: destroying what is not there, or freeing memory by the wrong form.
pub mod Storage
pub mod Moves
pub mod Lifetime
use thread_pool_pro.Base.{
  ℕ, suc, Bool, true, false, ◌&&◌, Option, none, some, List, [], ◌∷◌, update, if◌then◌else◌, leb,
  ltb, ◌==◌,
}

-- What `Task::Task` and `getVTable` ask of the decayed type `F`. There is one table for a type, so
-- a pointer to the table is known by the type.
pub record VTable : Type 0 where
  pub size : ℕ
  pub align : ℕ
  pub nothrow_move : Bool

-- A callable: its identity and its type.
pub record Callable : Type 0 where
  pub ident : ℕ
  pub vtable : VTable

-- Storage for one callable. A callable that was moved from is still to be destroyed.
pub data Cell : Type 0 where
  raw : Cell
  object : Callable → Cell
  moved_from : Cell

-- A block of `operator new`, and whether the form with an alignment was used.
pub data Block : Type 0 where
  absent : Block
  block : (aligned : Bool) → Cell → Block

-- `class Task`
pub record Task : Type 0 where
  pub inline_storage : Cell
  pub heap_ptr : Option ℕ
  pub vtable : Option VTable
  pub is_heap : Bool

-- The tasks by address, the heap, and what was invoked and destroyed, the latest first.
pub record World : Type 0 where
  pub task : ℕ → Task
  pub heap : ℕ → Block
  pub next : ℕ
  pub invoked : List Callable
  pub destroyed : List Callable

-- `SboCapacity`, `alignof(std::max_align_t)` and `__STDCPP_DEFAULT_NEW_ALIGNMENT__`.
abbrev pub sbo_capacity : ℕ
sbo_capacity = 48

abbrev pub max_align : ℕ
max_align = 16

abbrev pub default_new_alignment : ℕ
default_new_alignment = 16

-- `Task::Task()`
abbrev pub empty_task : Task
empty_task = record { inline_storage = raw; heap_ptr = none; vtable = none; is_heap = false }

-- Whether a type is stored inline.
unfoldable pub fits_inline : VTable → Bool
fits_inline f = leb f.size sbo_capacity && leb f.align max_align && f.nothrow_move

-- Whether memory for a type is allocated and freed by the form with an alignment.
unfoldable pub over_aligned : VTable → Bool
over_aligned f = ltb default_new_alignment f.align

abbrev pub put_task : World → ℕ → Task → World
put_task w i t = record w { task = update w.task i t }

-- `Task::Task(F&&)` at address `i`; `throws` tells whether the callable's own constructor does.
-- Then no task comes to be, and a block that was allocated stays.
pub construct : World → ℕ → Callable → Bool → World
unfolding fits_inline over_aligned
construct w i c throws =
    if fits_inline c.vtable
    then (if throws
        then w
        else put_task w i (record {
          inline_storage = object c;
          heap_ptr = none;
          vtable = some c.vtable;
          is_heap = false;
        }))
    else (if throws
        then record w {
          heap = update w.heap w.next (block (over_aligned c.vtable) raw);
          next = suc w.next;
        }
        else record w {
          task = update w.task i (record {
            inline_storage = raw;
            heap_ptr = some w.next;
            vtable = some c.vtable;
            is_heap = true;
          });
          heap = update w.heap w.next (block (over_aligned c.vtable) (object c));
          next = suc w.next;
        })

-- `destroy_` of the table on the inline storage of task `i`.
destroy_inline : World → ℕ → Option World
destroy_inline w i = elim (w.task i).inline_storage [
  | raw ↦ none
  | object c ↦ some (record w {
    task = update w.task i (record (w.task i) { inline_storage = raw });
    destroyed = c ∷ w.destroyed;
  })
  | moved_from ↦ some (put_task w i (record (w.task i) { inline_storage = raw }))
]

abbrev same_form : Bool → Bool → Bool
same_form true b = b
same_form false true = false
same_form false false = true

-- `heapDelete_` of the table of type `f` on a block.
heap_delete : World → VTable → ℕ → Option World
unfolding over_aligned
heap_delete w f a = elim (w.heap a) [
  | absent ↦ none
  | block aligned cell ↦
      if same_form aligned (over_aligned f)
      then elim cell [
        | raw ↦ none
        | object c ↦ some (record w { heap = update w.heap a absent; destroyed = c ∷ w.destroyed })
        | moved_from ↦ some (record w { heap = update w.heap a absent })
      ]
      else none
]

-- `moveTo_` of the table, from the inline storage of task `j` into that of task `i`.
move_to : World → ℕ → ℕ → Option World
move_to w j i = elim (w.task j).inline_storage [
  | object c ↦ elim (w.task i).inline_storage [
    | raw ↦ some (
        put_task (put_task w i (record (w.task i) { inline_storage = object c })) j
          (record (w.task j) { inline_storage = moved_from }))
    | object d ↦ none
    | moved_from ↦ none
  ]
  | raw ↦ none
  | moved_from ↦ none
]

infixl 5 ◌>>=◌
abbrev ◌>>=◌ : {A B : Type 0} → Option A → (A → Option B) → Option B
none >>= f = none
some a >>= f = f a

-- `vtable_ = nullptr; isHeap_ = false;`
abbrev pub cleared : Task → Task
cleared t = record t { vtable = none; is_heap = false }

-- `Task::reset`, which is also `Task::~Task`.
pub reset : World → ℕ → Option World
unfolding destroy_inline heap_delete
reset w i = elim (w.task i).vtable [
  | none ↦ some w
  | some f ↦
      if (w.task i).is_heap
      then elim (w.task i).heap_ptr [
        | none ↦ none
        | some a ↦ heap_delete w f a >>= λ w'.
            some (put_task w' i (cleared (record (w'.task i) { heap_ptr = none })))
      ]
      else (destroy_inline w i >>= λ w'. some (put_task w' i (cleared (w'.task i))))
]

-- What both moves do once `vtable_` and `isHeap_` are copied from `other`, at address `j`, and the
-- task is not empty.
relocate : World → ℕ → ℕ → Option World
unfolding move_to destroy_inline
relocate w i j =
    if (w.task i).is_heap
    then some (
        put_task (put_task w i (record (w.task i) { heap_ptr = (w.task j).heap_ptr })) j
          (cleared (record (w.task j) { heap_ptr = none })))
    else (move_to w j i >>= λ w'.
        destroy_inline w' j >>= λ w''. some (put_task w'' j (cleared (w''.task j))))

abbrev pub with_table : World → ℕ → ℕ → World
with_table w i j =
    put_task w i (record (w.task i) { vtable = (w.task j).vtable; is_heap = (w.task j).is_heap })

-- `Task::Task(Task&&)`
pub move_construct : World → ℕ → ℕ → Option World
move_construct w i j = elim (w.task j).vtable [
  | none ↦ some (with_table w i j)
  | some f ↦ relocate (with_table w i j) i j
]

-- The part of `Task::operator=(Task&&)` after `reset()`.
assign_from : World → ℕ → ℕ → Option World
assign_from w i j = elim (w.task j).vtable [
  | none ↦ some (put_task (with_table w i j) j (cleared (w.task j)))
  | some f ↦ relocate (with_table w i j) i j
]

-- `Task::operator=(Task&&)`
pub move_assign : World → ℕ → ℕ → Option World
move_assign w i j = if i == j then some w else (reset w i >>= λ w'. assign_from w' i j)

-- How a call of the task ends: `std::logic_error` on an empty task, or the callable is invoked.
pub data Called : Type 0 where
  logic_error : Called
  called : World → Called
  no_callable : Called

abbrev invoke : World → Cell → Called
invoke w (object c) = called (record w { invoked = c ∷ w.invoked })
invoke w _ = no_callable

abbrev invoke_block : World → Block → Called
invoke_block w (block aligned cell) = invoke w cell
invoke_block w absent = no_callable

-- `Task::operator()`, with `Task::target`.
pub call : World → ℕ → Called
call w i = elim (w.task i).vtable [
  | none ↦ logic_error
  | some f ↦
      if (w.task i).is_heap
      then elim (w.task i).heap_ptr [ none ↦ no_callable | some a ↦ invoke_block w (w.heap a) ]
      else invoke w (w.task i).inline_storage
]

-- `Task::operator bool`
pub is_set : World → ℕ → Bool
is_set w i = elim (w.task i).vtable [ none ↦ false | some f ↦ true ]
