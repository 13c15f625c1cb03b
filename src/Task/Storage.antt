-- ===== src/Task/Storage.antt =====
-- What a task holds, and that construction, reset and a call work on just that.
use thread_pool_pro.Base.{
  ℕ, ◌≤◌, ◌≡◌, ◌≢◌, refl, ◌⊎◌, inl, inr, Bool-cases, true, false, Option, none, some, List, ◌∷◌,
  arith, update,
}
use thread_pool_pro.Task.{
  Callable, raw, object, absent, block, World, empty_task, put_task, cleared, fits_inline,
  over_aligned, construct, reset, call, called, logic_error, is_set,
}

-- The task at address `i` holds nothing, or a callable inline, or a callable in a block.
pub data Held (w : World) (i : ℕ) : Option Callable → Type 0 where
  nothing : w.task i ≡ empty_task → Held w i none
  inline :
      {c : Callable}
      → w.task i ≡ record {
        inline_storage = object c;
        heap_ptr = none;
        vtable = some c.vtable;
        is_heap = false;
      }
      → Held w i (some c)
  on_heap :
      {c : Callable} (a : ℕ)
      → w.task i
        ≡ record { inline_storage = raw; heap_ptr = some a; vtable = some c.vtable; is_heap = true }
      → w.heap a ≡ block (over_aligned c.vtable) (object c)
      → Held w i (some c)

abbrev pub destroying : Option Callable → List Callable → List Callable
destroying none cs = cs
destroying (some c) cs = c ∷ cs

-- What a reset of the task at `i`, which holds `o`, does to the world.
pub record Resets (w : World) (i : ℕ) (o : Option Callable) (w' : World) : Type 0 where
  pub emptied : w'.task i ≡ empty_task
  pub destroys : w'.destroyed ≡ destroying o w.destroyed
  pub others : (k : ℕ) → k ≢ i → w'.task k ≡ w.task k
  pub blocks : (a : ℕ) → (w.task i).heap_ptr ≢ some a → w'.heap a ≡ w.heap a
  pub calls : w'.invoked ≡ w.invoked

abbrev after_destroy : World → ℕ → Callable → World
after_destroy w i c = record w {
  task = update w.task i (record (w.task i) { inline_storage = raw });
  destroyed = c ∷ w.destroyed;
}

abbrev after_delete : World → ℕ → Callable → World
after_delete w a c = record w { heap = update w.heap a absent; destroyed = c ∷ w.destroyed }

-- A reset of a task that holds nothing, a callable inline or one on the heap is defined, destroys
-- exactly what the task holds, and leaves it and nothing else empty.
pub reset_lem :
    (w : World) (i : ℕ) {o : Option Callable}
    → Held w i o
    → (w' : World) × (reset w i ≡ some w') × Resets w i o w'
unfolding reset
reset_lem w i (nothing e) = (
  w,
  ground (arith, e),
  record { emptied = e; destroys = refl; others = λ k d. refl; blocks = λ a d. refl; calls = refl },
)
reset_lem w i (inline {c} e) = (
  put_task (after_destroy w i c) i (cleared ((after_destroy w i c).task i)),
  ground (arith, e),
  record {
    emptied = ground (arith, e);
    destroys = refl;
    others = λ k d. ground arith;
    blocks = λ a d. refl;
    calls = refl;
  },
)
reset_lem w i (on_heap {c} a e h) = (
  put_task (after_delete w a c) i
      (cleared (record ((after_delete w a c).task i) { heap_ptr = none })),
  ground (arith, e, h),
  record {
    emptied = ground (arith, e);
    destroys = refl;
    others = λ k d. ground arith;
    blocks = λ b d. ground (arith, e);
    calls = refl;
  },
)

-- For a task that holds nothing, a callable inline or one on the heap: a call of an empty task
-- throws; any other call invokes the callable that the task holds, once.
pub call_lem :
    (w : World) (i : ℕ) {o : Option Callable}
    → Held w i o
    → ((o ≡ none) × (call w i ≡ logic_error) × (is_set w i ≡ false))
      ⊎ ((c : Callable) × (o ≡ some c)
          × (is_set w i ≡ true)
          × (call w i ≡ called (record w { invoked = c ∷ w.invoked })))
unfolding call is_set
call_lem w i (nothing e) = inl (refl, ground (arith, e), ground (arith, e))
call_lem w i (inline {c} e) = inr (c, refl, ground (arith, e), ground (arith, e))
call_lem w i (on_heap {c} a e h) = inr (c, refl, ground (arith, e), ground (arith, e, h))

-- A construction that does not throw makes a task that holds the callable.
pub construct-Held : (w : World) (i : ℕ) (c : Callable) → Held (construct w i c false) i (some c)
unfolding construct
construct-Held w i c = elim (Bool-cases (fits_inline c.vtable)) [
  | inl e ↦ inline (ground (arith, e))
  | inr e ↦ on_heap w.next (ground (arith, e)) (ground (arith, e))
]

-- If a callable does not fit inline and its own constructor throws, the task stays as it was, and the
-- block allocated for the callable stays allocated without this task's pointing to it.
pub construct_throws :
    (w : World) (i : ℕ) (c : Callable)
    → ((a : ℕ) → w.next ≤ a → (w.task i).heap_ptr ≢ some a)
    → fits_inline c.vtable ≡ false
    → let w' = construct w i c true in
      (w'.task i ≡ w.task i)
      × (w'.heap w.next ≡ block (over_aligned c.vtable) raw)
      × ((w'.task i).heap_ptr ≢ some w.next)
unfolding construct
construct_throws w i c h e = (ground (arith, e), ground (arith, e), ground (arith, e, h w.next))
