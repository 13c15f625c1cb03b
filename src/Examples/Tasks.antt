-- ===== src/Examples/Tasks.antt =====
-- Tasks with callables inline and on the heap, and futures that share states.
use thread_pool_pro.Base.{
  ℕ, ◌≡◌, ◌≢◌, refl, true, false, none, some, [], ◌∷◌, arith, update, sum_below-update,
  sum_below-zero,
}
use thread_pool_pro.Task.{
  Callable, raw, object, absent, block, World, empty_task, over_aligned, construct, move_assign,
  call, called, reset,
}
use thread_pool_pro.Task.Storage.{Held, inline, on_heap, destroying}
use thread_pool_pro.Task.Lifetime.{erased_lifetime}
use thread_pool_pro.Task.Moves.{move_assign_lem}
use thread_pool_pro.Future.{Outcome}
use thread_pool_pro.Future.Handles

-- A callable of 16 bytes, and one that needs memory of an alignment of 64.
abbrev small_callable : Callable
small_callable = record { ident = 1; vtable = record { size = 16; align = 8; nothrow_move = true } }

abbrev aligned_callable : Callable
aligned_callable = record {
  ident = 2;
  vtable = record { size = 64; align = 64; nothrow_move = true };
}

-- Task 0 holds the first inline, task 1 the second in block 0, and the others are empty.
abbrev two_tasks : World
two_tasks = record {
  task =
      update
        (update (λ _. empty_task) 0
          (record {
            inline_storage = object small_callable;
            heap_ptr = none;
            vtable = some small_callable.vtable;
            is_heap = false;
          }))
        1
        (record {
          inline_storage = raw;
          heap_ptr = some 0;
          vtable = some aligned_callable.vtable;
          is_heap = true;
        });
  heap = update (λ _. absent) 0 (block true (object aligned_callable));
  next = 1;
  invoked = [];
  destroyed = [];
}

first-Held : Held two_tasks 0 (some small_callable)
first-Held = inline refl

second-Held : Held two_tasks 1 (some aligned_callable)
unfolding over_aligned
second-Held = on_heap 0 refl refl

move_assign_lem_example :
    (w : World) × (move_assign two_tasks 0 1 ≡ some w)
    × Held w 0 (some aligned_callable)
    × (w.task 1 ≡ empty_task)
    × (w.destroyed ≡ destroying (some small_callable) two_tasks.destroyed)
    × ((k : ℕ) → k ≢ 0 → k ≢ 1 → w.task k ≡ two_tasks.task k)
    × (w.invoked ≡ two_tasks.invoked)
move_assign_lem_example =
    move_assign_lem two_tasks 0 1 (λ e. omega arith) (λ a e g. ground arith) first-Held second-Held

-- Handle 0 holds the state at 4, which is ready with the value 8 and has one owner.
abbrev one_future : Handles.World
one_future = record {
  states = λ _. record { ready = 1; ref_count = 1; exception = none; value = some 8; deletes = 0 };
  handle = update (λ _. none) 0 (some 4);
}

one_future-IsCounted : Handles.IsCounted 2 0 4 one_future
one_future-IsCounted = omega (
  arith,
  sum_below-update (Handles.points 4) 2 (λ _. none) 0 (some 4) (omega arith),
  sum_below-zero (Handles.points 4) 2 (λ _. none) (λ i. refl),
)

handles-IsCounted_example :
    (◌≢◌ {A = ℕ} 0 1
      → one_future.handle 0 ≡ none
      → Handles.IsCounted 2 0 4 (Handles.move_construct one_future 0 1))
    × Handles.IsCounted 2 0 4 (Handles.move_assign one_future 0 1)
    × Handles.IsCounted 2 0 4 (Handles.release_owned_state one_future 0)
    × ((o : Outcome) (w' : Handles.World)
        → Handles.get one_future 0 ≡ Handles.brought o w'
        → Handles.IsCounted 2 0 4 w')
handles-IsCounted_example =
    Handles.handles-IsCounted 2 0 4 one_future 0 1 (omega arith) (omega arith) one_future-IsCounted

erased_lifetime_example :
    (w2 w3 w4 : World) × (move_assign (construct two_tasks 2 aligned_callable false) 3 2 ≡ some w2)
    × (call w2 3 ≡ called w3)
    × (reset w3 3 ≡ some w4)
    × (w4.invoked ≡ aligned_callable ∷ two_tasks.invoked)
    × (w4.destroyed ≡ aligned_callable ∷ two_tasks.destroyed)
    × (w4.task 3 ≡ empty_task)
    × (w4.task 2 ≡ empty_task)
erased_lifetime_example = erased_lifetime two_tasks 3 2 aligned_callable (λ e. omega arith) refl
