-- ===== src/Deque/Invariant/Owner.antt =====
-- A move of the owner keeps the indices in order, and what its own locals say.
use thread_pool_pro.Base.{
  ℕ, suc, ◌+◌, ◌*◌, ◌^◌, ◌≤◌, ◌<◌, ◌≡◌, refl, sym, ap, ◌∙◌, subst, false, some, arith, update, ◌∷◌,
  dec_lt,
}
use thread_pool_pro.Buffer.{Buffer, IsSized, size_of, at, put, grow}
use thread_pool_pro.Buffer.Index.{
  two_pow-le, capacity_pos, exponent-lt, capacity-put, put-IsSized, at-put_self, at-put_ne,
  slot_of-ne,
}
use thread_pool_pro.Buffer.Growth.{grow-IsSized, at-grow, capacity-grow}
use thread_pool_pro.Deque.{
  Memory, buffer, is_full, OwnerPc, push_top, push_room, push_stored, pop_stored, pop_last, pop_won,
  pop_take, ThiefPc, OwnerMove, load_bottom, load_top, fits, grows, write, publish, pop_none,
  pop_load, lower, above, last, below, win, lose, restore, restore_won, take,
}
use thread_pool_pro.Deque.Invariant.Defs.{limit, capacity, OwnerAgrees, Core, IsClear}

-- The test for a full buffer, without wrap-around.
pub not-is_full :
    {k : ℕ} {b : Buffer}
    → IsSized k b
    → (bottom top : ℕ) → top ≤ bottom
    → bottom < 2 ^ 64
    → is_full bottom top b ≡ false
    → bottom < top + b.capacity
unfolding is_full
not-is_full {k} s bottom top o l e = ground (arith, two_pow-le k s.small, s.power, capacity_pos s)

-- A move that leaves the top, the buffer and the limit alone.
retain :
    {m : Memory} {p : OwnerPc}
    → Core m p
    → (m' : Memory) (p' : OwnerPc) → m'.top ≡ m.top
    → buffer m' ≡ buffer m
    → limit m' p' ≡ limit m p
    → OwnerAgrees m' p'
    → Core m' p'
retain c m' p' t e l o = record {
  exponent = c.exponent;
  sized = subst (IsSized c.exponent) (sym e) c.sized;
  order = omega (arith, c.order);
  small = omega (arith, c.small);
  room = omega (arith, c.room, ap (λ (b : Buffer). b.capacity) e);
  full = λ i lo hi.
      let (task, held) = c.full i (omega arith) (omega arith) in (task, ap (λ b. at b i) e ∙ held);
  owner = o;
}

module _ {m : Memory} where
  grown :
      {task b t : ℕ}
      → Core m (push_top task b t)
      → capacity m * 2 < 2 ^ 64
      → Core
          (record m {
            bufs = update m.bufs (m.active + 1) (grow (buffer m) b t);
            active = m.active + 1;
          })
          (push_room task b)
  grown {task} {b} {t} c h = record {
    exponent = suc c.exponent;
    sized = subst (IsSized (suc c.exponent)) (sym new) (grow-IsSized c.sized k b t);
    order = c.order;
    small = c.small;
    room = omega (arith, c.room, doubled);
    full = λ i lo hi.
        let (x, held) = c.full i lo hi in
        (
          x,
          ap (λ d. at d i) new
              ∙ at-grow c.sized k b t i c.owner.2 (omega (arith, c.owner.1))
                  (omega (arith, c.owner.0))
              ∙ held,
        );
    owner = (c.owner.0, omega (arith, c.owner.2, c.owner.1, doubled, capacity_pos c.sized));
  }
    where
      k : c.exponent < 63
      k = exponent-lt c.sized h

      new : update m.bufs (m.active + 1) (grow (buffer m) b t) (m.active + 1) ≡ grow (buffer m) b t
      new = ground arith

      doubled :
          (update m.bufs (m.active + 1) (grow (buffer m) b t) (m.active + 1)).capacity
          ≡ capacity m * 2
      doubled = ap (λ (d : Buffer). d.capacity) new ∙ capacity-grow c.sized k b t

  written :
      {task b : ℕ}
      → Core m (push_room task b)
      → Core
          (record m { bufs = update m.bufs m.active (put (buffer m) b (some task)) })
          (push_stored task b)
  written {task} {b} c = record {
    exponent = c.exponent;
    sized = subst (IsSized c.exponent) (sym new) (put-IsSized c.sized b (some task));
    order = c.order;
    small = c.small;
    room = omega (arith, c.room, same);
    full = λ i lo hi.
        let (x, held) = c.full i lo hi in
        (
          x,
          ap (λ d. at d i) new
              ∙ at-put_ne (buffer m) b i (some task) (λ e.
                slot_of-ne c.sized i b (omega (arith, c.owner.0)) (omega (arith, c.owner.1))
                  (sym e))
              ∙ held,
        );
    owner = (
      c.owner.0,
      omega (arith, c.owner.1, same),
      ap (λ d. at d b) new ∙ at-put_self (buffer m) b (some task),
    );
  }
    where
      new :
          update m.bufs m.active (put (buffer m) b (some task)) m.active
          ≡ put (buffer m) b (some task)
      new = ground arith

      same : (update m.bufs m.active (put (buffer m) b (some task)) m.active).capacity ≡ capacity m
      same = ap (λ (d : Buffer). d.capacity) new ∙ capacity-put (buffer m) b (some task)

  published :
      {task b : ℕ}
      → Core m (push_stored task b)
      → b + 1 < 2 ^ 64
      → Core (record m { bottom = size_of (b + 1); pushed = task ∷ m.pushed }) OwnerPc.idle
  published {task} {b} c h = record {
    exponent = c.exponent;
    sized = c.sized;
    order = omega (arith, c.order, c.owner.0);
    small = omega arith;
    room = omega (arith, c.owner.1);
    full = λ i lo hi. elim (dec_lt i m.bottom) [
      | yes p ↦ c.full i lo p
      | no p ↦
          let e : b ≡ i = omega (arith, c.owner.0) in
          (task, subst (λ j. at (buffer m) j ≡ some task) e c.owner.2)
    ];
    owner = tt;
  }

  reached : {b : ℕ} → m.top < b → Core m (pop_stored b) → Core m (pop_take b)
  reached {b} h c = record {
    exponent = c.exponent;
    sized = c.sized;
    order = omega (arith, c.owner);
    small = omega (arith, c.owner, c.small);
    room = omega (arith, c.owner, c.room);
    full = λ i lo hi. c.full i lo (omega (arith, c.owner));
    owner = c.full b (omega arith) (omega arith);
  }

  exchanged :
      {b : ℕ}
      → m.top ≡ b
      → Core m (pop_last b)
      → Core (record m { top = size_of (b + 1) }) (pop_won b)
  exchanged {b} e c = record {
    exponent = c.exponent;
    sized = c.sized;
    order = omega (arith, c.small);
    small = c.small;
    room = omega (arith, c.small, capacity_pos c.sized);
    full = λ i lo hi. absurd (omega (arith, c.small));
    owner = (c.owner.0, omega (arith, c.small), c.full b (omega arith) (omega arith));
  }

  -- Every move of the owner keeps the core of the invariant.
  pub Core-owner :
      {p p' : OwnerPc} {m' : Memory} (th : ℕ → ThiefPc)
      → OwnerMove m p m' p'
      → Core m p
      → IsClear m th p
      → Core m' p'
  Core-owner th (load_bottom task) c q = retain c _ _ refl refl refl refl
  Core-owner th load_top c q =
      retain c _ _ refl refl refl (c.owner, omega arith, omega (arith, c.room, c.owner))
  Core-owner th (fits {b} {t} e) c q =
      let open_slot : b < t + capacity m =
        not-is_full c.sized b t (omega (arith, c.owner.0, c.owner.1, c.order))
          (omega (arith, c.owner.0, c.small)) e in
      retain c _ _ refl refl refl (c.owner.0, omega (arith, c.owner.1))
  Core-owner th (grows e) c q = grown c (q e)
  Core-owner th write c q = written c
  Core-owner th publish c q = published c q
  Core-owner th (pop_none e) c q = c
  Core-owner th (pop_load e) c q = retain c _ _ refl refl refl (omega arith)
  Core-owner th lower c q = retain c _ _ refl refl (omega (arith, c.owner)) refl
  Core-owner th (above h) c q = retain c _ _ refl refl refl (c.owner, omega (arith, c.order))
  Core-owner th (last e) c q = retain c _ _ refl refl refl (c.owner, omega arith)
  Core-owner th (below h) c q = reached h c
  Core-owner th (win e) c q = exchanged e c
  Core-owner th (lose e) c q =
      retain c _ _ refl refl refl (c.owner.0, omega (arith, c.order, c.owner.1))
  Core-owner th restore c q = retain c _ _ refl refl (omega (arith, c.small)) tt
  Core-owner th restore_won c q = retain c _ _ refl refl (omega (arith, c.small)) c.owner.2
  Core-owner th (take e) c q = retain c _ _ refl refl refl tt
