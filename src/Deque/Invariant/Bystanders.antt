-- ===== src/Deque/Invariant/Bystanders.antt =====
-- A move of the owner leaves what the thieves know of the memory true.
use thread_pool_pro.Base.{
  ℕ, ◌+◌, ◌≤◌, ◌<◌, ◌≡◌, ◌≢◌, refl, sym, Option, some, List, ◌∷◌, arith, update,
}
use thread_pool_pro.Buffer.{Buffer, size_of, at, put, grow, slot_of}
use thread_pool_pro.Buffer.Index.{exponent-lt, at-put_ne, slot_of-ne}
use thread_pool_pro.Buffer.Growth.{at-grow}
use thread_pool_pro.Deque.{
  Memory, buffer, OwnerPc, ThiefPc, seen_top, seen_bottom, seen_buffer, won, OwnerMove, load_bottom,
  load_top, fits, grows, write, publish, pop_none, pop_load, lower, above, last, below, win, lose,
  restore, restore_won, take,
}
use thread_pool_pro.Deque.Invariant.Defs.{limit, ThiefAgrees, Core, IsClear}

module _ (m : Memory) where
  -- The top and the buffers stay; the limit may move, as long as it stays above the top.
  pub same_slots :
      {hi hi' : ℕ} (bottom : ℕ) (returned pushed : List ℕ)
      → (m.top < hi → m.top < hi')
      → (tp : ThiefPc) → ThiefAgrees m hi tp
      → ThiefAgrees (record m { bottom = bottom; returned = returned; pushed = pushed }) hi' tp
  same_slots bottom returned pushed f ThiefPc.idle a = tt
  same_slots bottom returned pushed f (seen_top t) a = a
  same_slots bottom returned pushed f (seen_bottom t) a = (a.0, ground (arith, f, a.1))
  same_slots bottom returned pushed f (seen_buffer t k) a = (a.0, ground (arith, f, a.1), a.2, a.3)
  same_slots bottom returned pushed f (won t k claim) a = a

  -- The top goes up by one.
  pub top_moved :
      (hi hi' top' : ℕ)
      → top' ≡ m.top + 1
      → (tp : ThiefPc) → ThiefAgrees m hi tp
      → ThiefAgrees (record m { top = top' }) hi' tp
  top_moved hi hi' top' e ThiefPc.idle a = tt
  top_moved hi hi' top' e (seen_top t) a = omega arith
  top_moved hi hi' top' e (seen_bottom t) a = omega arith
  top_moved hi hi' top' e (seen_buffer t k) a =
      (omega arith, omega arith, a.2, λ q. absurd (omega arith))
  top_moved hi hi' top' e (won t k claim) a = a

  -- A buffer above the active one is added, and agrees with it on the indices in the queue.
  buffer_added :
      (hi : ℕ) (new : Buffer)
      → ((i : ℕ) → m.top ≤ i → i < hi → at new i ≡ at (buffer m) i)
      → (tp : ThiefPc) → ThiefAgrees m hi tp
      → ThiefAgrees
          (record m { bufs = update m.bufs (m.active + 1) new; active = m.active + 1 })
          hi
          tp
  buffer_added hi new f ThiefPc.idle a = tt
  buffer_added hi new f (seen_top t) a = a
  buffer_added hi new f (seen_bottom t) a = a
  buffer_added hi new f (seen_buffer t k) a =
      (a.0, a.1, omega (arith, a.2), λ q. ground (arith, f t, a.1, a.3 q))
  buffer_added hi new f (won t k claim) a = (omega (arith, a.0), ground (arith, a.1), a.2)

  slot_written :
      (hi b : ℕ) (p : Option ℕ)
      → ((i : ℕ) → m.top ≤ i → i < hi → at (put (buffer m) b p) i ≡ at (buffer m) i)
      → (tp : ThiefPc)
      → ((t k : ℕ) (claim : Option ℕ)
          → tp ≡ won t k claim
          → k ≡ m.active
          → slot_of (buffer m) t ≢ slot_of (buffer m) b)
      → ThiefAgrees m hi tp
      → ThiefAgrees (record m { bufs = update m.bufs m.active (put (buffer m) b p) }) hi tp
  slot_written hi b p f ThiefPc.idle g a = tt
  slot_written hi b p f (seen_top t) g a = a
  slot_written hi b p f (seen_bottom t) g a = a
  slot_written hi b p f (seen_buffer t k) g a =
      (a.0, a.1, a.2, λ q. ground (arith, f t, a.1, a.3 q))
  slot_written hi b p f (won t k claim) g a =
      (a.0, ground (arith, g t k claim refl, at-put_ne (buffer m) b t p, a.1), a.2)

-- No move of the owner makes what a thief knows false.
pub ThiefAgrees-owner :
    {m m' : Memory} {p p' : OwnerPc} (th : ℕ → ThiefPc)
    → OwnerMove m p m' p'
    → Core m p
    → IsClear m th p
    → (i : ℕ) → ThiefAgrees m (limit m p) (th i)
    → ThiefAgrees m' (limit m' p') (th i)
ThiefAgrees-owner th (load_bottom task) c q i a = a
ThiefAgrees-owner th load_top c q i a = a
ThiefAgrees-owner th (fits e) c q i a = a
ThiefAgrees-owner {m} th (grows {b} {t} e) c q i a =
    buffer_added m m.bottom (grow (buffer m) b t)
      (λ j lo hi.
        at-grow c.sized (exponent-lt c.sized (q e)) b t j c.owner.2 (omega (arith, c.owner.1))
          (omega (arith, c.owner.0)))
      (th i) a
ThiefAgrees-owner {m} th (write {task} {b}) c q i a =
    slot_written m m.bottom b (some task)
      (λ j lo hi.
        at-put_ne (buffer m) b j (some task) (λ e.
          slot_of-ne c.sized j b (omega (arith, c.owner.0)) (omega (arith, c.owner.1)) (sym e)))
      (th i) (q i) a
ThiefAgrees-owner {m} th (publish {task} {b}) c q i a =
    same_slots m (size_of (b + 1)) m.returned (task ∷ m.pushed) (λ h. omega (arith, c.owner.0))
      (th i) a
ThiefAgrees-owner th (pop_none e) c q i a = a
ThiefAgrees-owner th (pop_load e) c q i a = a
ThiefAgrees-owner {m} th (lower {b}) c q i a =
    same_slots m b m.returned m.pushed (λ h. omega (arith, c.owner)) (th i) a
ThiefAgrees-owner {m} th (above h) c q i a =
    same_slots m m.bottom m.returned m.pushed (λ l. omega (arith, c.owner)) (th i) a
ThiefAgrees-owner th (last e) c q i a = a
ThiefAgrees-owner {m} th (below h) c q i a =
    same_slots m m.bottom m.returned m.pushed (λ l. omega (arith, c.owner)) (th i) a
ThiefAgrees-owner {m} th (win {b} e) c q i a =
    top_moved m (b + 1) (b + 1) (size_of (b + 1)) (omega (arith, c.small)) (th i) a
ThiefAgrees-owner th (lose e) c q i a = a
ThiefAgrees-owner {m} th (restore {b}) c q i a =
    same_slots m (size_of (b + 1)) m.returned m.pushed (λ h. omega (arith, c.small)) (th i) a
ThiefAgrees-owner {m} th (restore_won {b}) c q i a =
    same_slots m (size_of (b + 1)) m.returned m.pushed (λ h. omega (arith, c.small)) (th i) a
ThiefAgrees-owner {m} th (take {task = task} e) c q i a =
    same_slots m m.bottom (task ∷ m.returned) m.pushed (λ h. h) (th i) a
