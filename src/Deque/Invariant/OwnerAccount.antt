-- ===== src/Deque/Invariant/OwnerAccount.antt =====
-- A move of the owner neither loses a task nor makes one up.
use thread_pool_pro.Base.{ℕ, ◌+◌, ◌-◌, ◌≡◌, refl, sym, ap, some, arith, update, count}
use thread_pool_pro.Buffer.{size_of, at, put, grow}
use thread_pool_pro.Buffer.Index.{exponent-lt, at-put_ne, slot_of-ne}
use thread_pool_pro.Buffer.Growth.{at-grow}
use thread_pool_pro.Deque.{
  Memory, buffer, OwnerPc, ThiefPc, OwnerMove, load_bottom, load_top, fits, grows, write, publish,
  pop_none, pop_load, lower, above, last, below, win, lose, restore, restore_won, take,
}
use thread_pool_pro.Deque.Span.{weight, span, span-cong, span-extend, span-drop}
use thread_pool_pro.Deque.Invariant.Defs.{owner_hand, queued, Core, Inv, IsClear}
use thread_pool_pro.Deque.Invariant.Owner.{Core-owner}
use thread_pool_pro.Deque.Invariant.Bystanders.{ThiefAgrees-owner}

-- The tasks that the queue, the owner and its callers have of `x`, less the thieves' share.
abbrev pub owned : ℕ → Memory → OwnerPc → ℕ
owned x m p = count x m.returned + owner_hand x m p + queued x m p

module _ (x : ℕ) where
  -- The limit is written in another way.
  same_limit :
      (m : Memory) {hi hi' : ℕ}
      → hi' ≡ hi
      → span x (at (buffer m)) m.top (hi' - m.top) ≡ span x (at (buffer m)) m.top (hi - m.top)
  same_limit m e = ap (λ hi. span x (at (buffer m)) m.top (hi - m.top)) e

  -- A move of the owner changes what is owned by what it makes visible.
  pub owned-owner :
      {m m' : Memory} {p p' : OwnerPc} (th : ℕ → ThiefPc)
      → OwnerMove m p m' p'
      → Core m p
      → IsClear m th p
      → owned x m' p' + count x m.pushed ≡ owned x m p + count x m'.pushed
  owned-owner th (load_bottom task) c q = refl
  owned-owner th load_top c q = refl
  owned-owner th (fits e) c q = refl
  owned-owner {m} th (grows {b} {t} e) c q = omega (
    arith,
    span-cong x (at (update m.bufs (m.active + 1) (grow (buffer m) b t) (m.active + 1)))
        (at (buffer m)) m.top (m.bottom - m.top)
        λ j lo hi. ground (
          arith,
          at-grow c.sized (exponent-lt c.sized (q e)) b t j c.owner.2 (omega (arith, c.owner.1))
              (omega (arith, c.owner.0)),
        ),
  )
  owned-owner {m} th (write {task} {b}) c q = omega (
    arith,
    span-cong x (at (update m.bufs m.active (put (buffer m) b (some task)) m.active))
        (at (buffer m)) m.top (m.bottom - m.top)
        λ j lo hi. ground (
          arith,
          at-put_ne (buffer m) b j (some task) (λ d.
              slot_of-ne c.sized j b (omega (arith, c.owner.0)) (omega (arith, c.owner.1)) (sym d)),
        ),
  )
  owned-owner {m} th (publish {task} {b}) c q = omega (
    arith,
    same_limit m {hi = b + 1} {hi' = size_of (b + 1)} (omega arith),
    span-extend x (at (buffer m)) m.top b (omega (arith, c.order, c.owner.0)),
    same_limit m (c.owner.0),
    ap (weight x) c.owner.2,
  )
  owned-owner th (pop_none e) c q = refl
  owned-owner {m} th (pop_load e) c q = refl
  owned-owner {m} th (lower {b}) c q = omega (arith, same_limit m c.owner)
  owned-owner {m} th (above {b} h) c q = refl
  owned-owner th (last e) c q = refl
  owned-owner {m} th (below {b} h) c q =
      omega (arith, span-extend x (at (buffer m)) m.top b (omega arith), same_limit m c.owner)
  owned-owner {m} th (win {b} e) c q = omega (
    arith,
    span-drop x (at (buffer m)) m.top (b + 1) (omega arith),
    ap (λ lo. span x (at (buffer m)) lo (b + 1 - lo)) next,
    ap (λ i. weight x (at (buffer m) i)) e,
  )
    where
      next : size_of (b + 1) ≡ m.top + 1
      next = omega (arith, c.small)
  owned-owner th (lose e) c q = refl
  owned-owner {m} th (restore {b}) c q =
      omega (arith, same_limit m {hi = b + 1} {hi' = size_of (b + 1)} (omega (arith, c.small)))
  owned-owner {m} th (restore_won {b}) c q =
      omega (arith, same_limit m {hi = b + 1} {hi' = size_of (b + 1)} (omega (arith, c.small)))
  owned-owner {m} th (take {b} {task} e) c q = omega (arith, ap (weight x) e)

-- Every move of the owner that meets its condition keeps the invariant.
pub Inv-owner :
    {n : ℕ} {m m' : Memory} {p p' : OwnerPc} (th : ℕ → ThiefPc)
    → OwnerMove m p m' p'
    → IsClear m th p
    → Inv n m p th
    → Inv n m' p' th
Inv-owner th mv clear v = record {
  core = Core-owner th mv v.core clear;
  thieves = λ i. ThiefAgrees-owner th mv v.core clear i (v.thieves i);
  account = λ x. omega (arith, v.account x, owned-owner x th mv v.core clear);
}
