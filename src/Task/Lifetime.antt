-- ===== src/Task/Lifetime.antt =====
-- The life of a task: construction, a move, a call and the destruction, through the table of its type.
use thread_pool_pro.Base.{
  ℕ, ◌≡◌, ◌≢◌, ◌∙◌, ap, sym, inl, inr, Bool-cases, false, Option, some, List, ◌∷◌, arith,
}
use thread_pool_pro.Task.{
  Callable, World, empty_task, fits_inline, construct, reset, move_assign, call, called,
}
use thread_pool_pro.Task.Storage.{
  Held, nothing, inline, on_heap, reset_lem, call_lem, construct-Held,
}
use thread_pool_pro.Task.Moves.{move_assign_lem}

-- A construction touches no other task, and calls and destroys nothing.
construct-kept :
    (w : World) (i j : ℕ) (c : Callable)
    → i ≢ j
    → ((construct w j c false).task i ≡ w.task i)
      × ((construct w j c false).invoked ≡ w.invoked)
      × ((construct w j c false).destroyed ≡ w.destroyed)
unfolding construct
construct-kept w i j c d = elim (Bool-cases (fits_inline c.vtable)) [
  | inl e ↦ (ground (arith, e), ground (arith, e), ground (arith, e))
  | inr e ↦ (ground (arith, e), ground (arith, e), ground (arith, e))
]

Held-invoked :
    {w : World} {i : ℕ} {o : Option Callable} (cs : List Callable)
    → Held w i o
    → Held (record w { invoked = cs }) i o
Held-invoked cs (nothing e) = nothing e
Held-invoked cs (inline e) = inline e
Held-invoked cs (on_heap a e h) = on_heap a e h

-- A call of a task that holds a callable.
call-Held :
    (w : World) (i : ℕ) (c : Callable)
    → Held w i (some c)
    → call w i ≡ called (record w { invoked = c ∷ w.invoked })
call-Held w i c h = elim (call_lem w i h) [
  | inl (e, r, s) ↦ absurd (ground (arith, e))
  | inr (d, e, s, r) ↦
      let same : d ≡ c = ground (arith, e) in
      r ∙ ap (λ (x : Callable). called (record w { invoked = x ∷ w.invoked })) same
]

-- A callable of any type, small or large, is put into a task, moved into an empty one, called there
-- and destroyed with it. Every step is defined: the callable itself is called once and destroyed once,
-- nothing else is called or destroyed, and both tasks end empty.
pub erased_lifetime :
    (w : World) (i j : ℕ) (c : Callable)
    → i ≢ j
    → w.task i ≡ empty_task
    → (w2 w3 w4 : World) × (move_assign (construct w j c false) i j ≡ some w2)
      × (call w2 i ≡ called w3)
      × (reset w3 i ≡ some w4)
      × (w4.invoked ≡ c ∷ w.invoked)
      × (w4.destroyed ≡ c ∷ w.destroyed)
      × (w4.task i ≡ empty_task)
      × (w4.task j ≡ empty_task)
erased_lifetime w i j c d e =
    let w1 = construct w j c false in
    let (same, calls, destroys) = construct-kept w i j c d in
    let free = same ∙ e in
    let (w2, moved, held, gone, kept, others, quiet) =
      move_assign_lem w1 i j d (λ a p q. ground (arith, p, free)) (nothing free)
        (construct-Held w j c) in
    let w3 : World = record w2 { invoked = c ∷ w2.invoked } in
    let (w4, done, r) = reset_lem w3 i (Held-invoked (c ∷ w2.invoked) held) in
    (
      w2,
      w3,
      w4,
      moved,
      call-Held w2 i c held,
      done,
      r.calls ∙ ap (λ cs. c ∷ cs) (quiet ∙ calls),
      r.destroys ∙ ap (λ cs. c ∷ cs) (kept ∙ destroys),
      r.emptied,
      r.others j (λ k. d (sym k)) ∙ gone,
    )
