-- ===== src/Task/Moves.antt =====
-- Moves of tasks: the callable changes hands, once, and nothing else changes.
use thread_pool_pro.Base.{ℕ, ◌≡◌, ◌≢◌, refl, ap, sym, ◌∙◌, Option, none, some, arith}
use thread_pool_pro.Task.{
  VTable, Callable, raw, object, moved_from, Task, World, empty_task, put_task, cleared, with_table,
  relocate, assign_from, move_construct, move_assign, reset,
}
use thread_pool_pro.Task.Storage.{Held, nothing, inline, on_heap, destroying, Resets, reset_lem}

-- What a move from `j`, which holds `o`, into the empty task at `i` does to the world.
pub record Moves (w : World) (i j : ℕ) (o : Option Callable) (w' : World) : Type 0 where
  pub taken : Held w' i o
  pub emptied : w'.task j ≡ empty_task
  pub others : (k : ℕ) → k ≢ i → k ≢ j → w'.task k ≡ w.task k
  pub blocks : (a : ℕ) → w'.heap a ≡ w.heap a
  pub destroys : w'.destroyed ≡ w.destroyed
  pub calls : w'.invoked ≡ w.invoked

assign_split :
    (w w' : World) (i j : ℕ) → i ≢ j → reset w i ≡ some w' → move_assign w i j ≡ assign_from w' i j
unfolding move_assign
assign_split w w' i j d e = ground (arith, e)

module _ (w : World) (i j : ℕ) where
  abbrev constructed : Callable → World
  constructed c =
      let w' = with_table w i j in
      put_task (put_task w' i (record (w'.task i) { inline_storage = object c })) j
        (record (w'.task j) { inline_storage = moved_from })

  abbrev moved_inline : Callable → World
  moved_inline c =
      let w' = constructed c in
      let w'' = put_task w' j (record (w'.task j) { inline_storage = raw }) in
      put_task w'' j (cleared (w''.task j))

  abbrev moved_pointer : World
  moved_pointer =
      let w' = with_table w i j in
      put_task (put_task w' i (record (w'.task i) { heap_ptr = (w'.task j).heap_ptr })) j
        (cleared (record (w'.task j) { heap_ptr = none }))

  relocate_lem :
      {c : Callable}
      → i ≢ j
      → w.task i ≡ empty_task
      → Held w j (some c)
      → (w' : World) × (relocate (with_table w i j) i j ≡ some w') × Moves w i j (some c) w'
  unfolding relocate
  relocate_lem d e (inline {c} f) = (
    moved_inline c,
    ground (arith, e, f),
    record {
      taken = inline (ground (arith, e, f));
      emptied = ground (arith, e, f);
      others = λ k p q. ground arith;
      blocks = λ a. refl;
      destroys = refl;
      calls = refl;
    },
  )
  relocate_lem d e (on_heap {c} a f h) = (
    moved_pointer,
    ground (arith, e, f),
    record {
      taken = on_heap a (ground (arith, e, f)) h;
      emptied = ground (arith, e, f);
      others = λ k p q. ground arith;
      blocks = λ a. refl;
      destroys = refl;
      calls = refl;
    },
  )

  construct_step :
      (f : VTable)
      → (w.task j).vtable ≡ some f
      → move_construct w i j ≡ relocate (with_table w i j) i j
  unfolding move_construct
  construct_step f e = ground (arith, e)

  assign_step :
      (f : VTable)
      → (w.task j).vtable ≡ some f
      → assign_from w i j ≡ relocate (with_table w i j) i j
  unfolding assign_from
  assign_step f e = ground (arith, e)

  -- A move construction of an empty task from another one, which holds nothing, a callable inline or
  -- one on the heap, is defined: the new task holds what the other held, the other is empty, and
  -- no other task, no block and no callable is touched.
  pub move_construct_lem :
      {o : Option Callable}
      → i ≢ j
      → w.task i ≡ empty_task
      → Held w j o
      → (w' : World) × (move_construct w i j ≡ some w') × Moves w i j o w'
  unfolding move_construct
  move_construct_lem d e (nothing f) = (
    with_table w i j,
    ground (arith, e, f),
    record {
      taken = nothing (ground (arith, e, f));
      emptied = ground (arith, f);
      others = λ k p q. ground arith;
      blocks = λ a. refl;
      destroys = refl;
      calls = refl;
    },
  )
  move_construct_lem d e (inline {c} f) =
      let (w', done, moves) = relocate_lem d e (inline f) in
      (w', construct_step c.vtable (ap (λ (t : Task). t.vtable) f) ∙ done, moves)
  move_construct_lem d e (on_heap {c} a f h) =
      let (w', done, moves) = relocate_lem d e (on_heap a f h) in
      (w', construct_step c.vtable (ap (λ (t : Task). t.vtable) f) ∙ done, moves)

  assign_from_lem :
      {o : Option Callable}
      → i ≢ j
      → w.task i ≡ empty_task
      → Held w j o
      → (w' : World) × (assign_from w i j ≡ some w') × Moves w i j o w'
  unfolding assign_from
  assign_from_lem d e (nothing f) = (
    put_task (with_table w i j) j (cleared (w.task j)),
    ground (arith, e, f),
    record {
      taken = nothing (ground (arith, e, f));
      emptied = ground (arith, e, f);
      others = λ k p q. ground arith;
      blocks = λ a. refl;
      destroys = refl;
      calls = refl;
    },
  )
  assign_from_lem d e (inline {c} f) =
      let (w', done, moves) = relocate_lem d e (inline f) in
      (w', assign_step c.vtable (ap (λ (t : Task). t.vtable) f) ∙ done, moves)
  assign_from_lem d e (on_heap {c} a f h) =
      let (w', done, moves) = relocate_lem d e (on_heap a f h) in
      (w', assign_step c.vtable (ap (λ (t : Task). t.vtable) f) ∙ done, moves)

-- A reset of another task leaves what a task holds.
Held-Resets :
    {w w' : World} {i j : ℕ} {o p : Option Callable}
    → i ≢ j
    → ((a : ℕ) → (w.task i).heap_ptr ≡ some a → (w.task j).heap_ptr ≢ some a)
    → Resets w i p w'
    → Held w j o
    → Held w' j o
Held-Resets {j} d apart r (nothing f) = nothing (r.others j (λ e. d (sym e)) ∙ f)
Held-Resets {j} d apart r (inline f) = inline (r.others j (λ e. d (sym e)) ∙ f)
Held-Resets {j} d apart r (on_heap a f h) =
    on_heap a (r.others j (λ e. d (sym e)) ∙ f)
      (r.blocks a (λ e. apart a e (ap (λ (t : Task). t.heap_ptr) f)) ∙ h)

-- A move assignment between two tasks, which hold nothing, a callable inline or one on the heap,
-- and whose blocks differ, is defined: it destroys what the target held and nothing else, the
-- target holds what the source held, and the source is empty.
pub move_assign_lem :
    (w : World) (i j : ℕ) {p o : Option Callable}
    → i ≢ j
    → ((a : ℕ) → (w.task i).heap_ptr ≡ some a → (w.task j).heap_ptr ≢ some a)
    → Held w i p
    → Held w j o
    → (w' : World) × (move_assign w i j ≡ some w')
      × Held w' i o
      × (w'.task j ≡ empty_task)
      × (w'.destroyed ≡ destroying p w.destroyed)
      × ((k : ℕ) → k ≢ i → k ≢ j → w'.task k ≡ w.task k)
      × (w'.invoked ≡ w.invoked)
move_assign_lem w i j d apart hi hj =
    let (w', done, r) = reset_lem w i hi in
    let (w'', moved, m) = assign_from_lem w' i j d r.emptied (Held-Resets d apart r hj) in
    (
      w'',
      assign_split w w' i j d done ∙ moved,
      m.taken,
      m.emptied,
      m.destroys ∙ r.destroys,
      λ k a b. m.others k a b ∙ r.others k a,
      m.calls ∙ r.calls,
    )

-- A self-assignment changes nothing.
pub move_assign_self : (w : World) (i : ℕ) → move_assign w i i ≡ some w
unfolding move_assign
move_assign_self w i = ground arith
