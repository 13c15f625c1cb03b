-- ===== src/Deque/Invariant/Thieves.antt =====
-- A move of a thief keeps the invariant.
use thread_pool_pro.Base.{
  ℕ, ◌+◌, ◌-◌, ◌≤◌, ◌<◌, ◌≡◌, refl, sym, ap, ◌∙◌, subst, List, ◌∷◌, arith, update, count,
  sum_below-update, ℕ_discrete,
}
use thread_pool_pro.Buffer.{size_of, at}
use thread_pool_pro.Deque.{
  Memory, buffer, OwnerPc, push_bottom, push_top, push_room, push_stored, pop_bottom, pop_stored,
  pop_last, pop_lost, pop_won, pop_take, ThiefPc, ThiefMove, load_top, nothing, load_bottom,
  load_buffer, win, lose, take,
}
use thread_pool_pro.Deque.Span.{weight, span, span-drop}
use thread_pool_pro.Deque.Invariant.Defs.{
  limit, OwnerAgrees, ThiefAgrees, owner_hand, thief_hand, queued, Core, Inv,
}
use thread_pool_pro.Deque.Invariant.Bystanders.{same_slots, top_moved}

module _ (m : Memory) (top' : ℕ) (returned : List ℕ) where
  -- The memory after a thief's move.
  abbrev after : Memory
  after = record m { top = top'; returned = returned }

  OwnerAgrees-top :
      (p : OwnerPc) → m.top ≤ top' → top' ≤ limit m p → OwnerAgrees m p → OwnerAgrees after p
  OwnerAgrees-top OwnerPc.idle lo hi a = tt
  OwnerAgrees-top (push_bottom task b) lo hi a = a
  OwnerAgrees-top (push_top task b t) lo hi a = (a.0, omega (arith, a.1), a.2)
  OwnerAgrees-top (push_room task b) lo hi a = (a.0, omega (arith, a.1))
  OwnerAgrees-top (push_stored task b) lo hi a = (a.0, omega (arith, a.1), a.2)
  OwnerAgrees-top (pop_bottom b) lo hi a = a
  OwnerAgrees-top (pop_stored b) lo hi a = a
  OwnerAgrees-top (pop_last b) lo hi a = (a.0, omega (arith, a.1))
  OwnerAgrees-top (pop_lost b) lo hi a = (a.0, omega (arith, a.1))
  OwnerAgrees-top (pop_won b) lo hi a = (a.0, omega (arith, a.1), a.2)
  OwnerAgrees-top (pop_take b) lo hi a = a

  Core-top : {p : OwnerPc} → m.top ≤ top' → top' ≤ limit m p → Core m p → Core after p
  Core-top {p} lo hi c = record {
    exponent = c.exponent;
    sized = c.sized;
    order = hi;
    small = c.small;
    room = omega (arith, c.room);
    full = λ i l h. c.full i (omega arith) h;
    owner = OwnerAgrees-top p lo hi c.owner;
  }

pub Core-thief :
    {m m' : Memory} {p : OwnerPc} {tp tp' : ThiefPc}
    → ThiefMove m tp m' tp'
    → Core m p
    → ThiefAgrees m (limit m p) tp
    → Core m' p
Core-thief load_top c a = c
Core-thief (nothing h) c a = c
Core-thief (load_bottom h) c a = c
Core-thief load_buffer c a = c
Core-thief {m} (win {t} e) c a =
    Core-top m (size_of (t + 1)) m.returned (omega (arith, a.1 (sym e), c.small))
      (omega (arith, a.1 (sym e), c.small)) c
Core-thief (lose e) c a = c
Core-thief {m} (take {task = task} e) c a =
    Core-top m m.top (task ∷ m.returned) (omega arith) c.order c

-- The indices below the lowered `bottomIndex_` are below the limit.
bottom-le-limit : (m : Memory) (p : OwnerPc) → OwnerAgrees m p → m.bottom ≤ limit m p
bottom-le-limit m (pop_stored b) a = omega arith
bottom-le-limit m (pop_last b) a = omega (arith, a.0)
bottom-le-limit m (pop_lost b) a = omega (arith, a.0)
bottom-le-limit m (pop_won b) a = omega (arith, a.0)
bottom-le-limit m _ a = omega arith

-- What the thief that moves knows afterwards.
ThiefAgrees-mover :
    {m m' : Memory} {p : OwnerPc} {tp tp' : ThiefPc}
    → ThiefMove m tp m' tp'
    → Core m p
    → ThiefAgrees m (limit m p) tp
    → ThiefAgrees m' (limit m' p) tp'
ThiefAgrees-mover load_top c a = omega arith
ThiefAgrees-mover (nothing h) c a = tt
ThiefAgrees-mover {m} {p} (load_bottom h) c a = (a, λ e. omega (arith, bottom-le-limit m p c.owner))
ThiefAgrees-mover load_buffer c a = (a.0, a.1, omega arith, λ e. refl)
ThiefAgrees-mover {m} {p} (win {t} {k} e) c a =
    let (task, held) = c.full t (omega arith) (a.1 (sym e)) in
    (a.2, refl, (task, a.3 (sym e) ∙ held))
ThiefAgrees-mover (lose e) c a = tt
ThiefAgrees-mover (take e) c a = tt

-- What another thief knows stays true.
ThiefAgrees-other :
    {m m' : Memory} {p : OwnerPc} {tp tp' : ThiefPc} (other : ThiefPc)
    → ThiefMove m tp m' tp'
    → Core m p
    → ThiefAgrees m (limit m p) tp
    → ThiefAgrees m (limit m p) other
    → ThiefAgrees m' (limit m' p) other
ThiefAgrees-other o load_top c a b = b
ThiefAgrees-other o (nothing h) c a b = b
ThiefAgrees-other o (load_bottom h) c a b = b
ThiefAgrees-other o load_buffer c a b = b
ThiefAgrees-other {m} {p} o (win {t} e) c a b =
    top_moved m (limit m p) (limit m p) (size_of (t + 1)) (omega (arith, a.1 (sym e), c.small)) o b
ThiefAgrees-other o (lose e) c a b = b
ThiefAgrees-other {m} o (take {task = task} e) c a b =
    same_slots m m.bottom (task ∷ m.returned) m.pushed (λ h. h) o b

pub ThiefAgrees-thief :
    {m m' : Memory} {p : OwnerPc} {tp' : ThiefPc} (th : ℕ → ThiefPc) (i : ℕ)
    → ThiefMove m (th i) m' tp'
    → Core m p
    → ((j : ℕ) → ThiefAgrees m (limit m p) (th j))
    → (j : ℕ) → ThiefAgrees m' (limit m' p) (update th i tp' j)
ThiefAgrees-thief {m'} {p} {tp'} th i mv c a j = elim (ℕ_discrete i j) [
  | yes e ↦
      let here : update th i tp' j ≡ tp' = ground arith in
      subst (ThiefAgrees m' (limit m' p)) (sym here) (ThiefAgrees-mover mv c (a i))
  | no e ↦
      let there : update th i tp' j ≡ th j = ground arith in
      subst (ThiefAgrees m' (limit m' p)) (sym there) (ThiefAgrees-other (th j) mv c (a i) (a j))
]

-- A thief's move trades what is queued for what it has in hand, and that for what is returned.
owned-thief :
    (x : ℕ) {m m' : Memory} {p : OwnerPc} {tp tp' : ThiefPc}
    → ThiefMove m tp m' tp'
    → Core m p
    → ThiefAgrees m (limit m p) tp
    → count x m'.returned + owner_hand x m' p + thief_hand x tp' + queued x m' p + count x m.pushed
      ≡ count x m.returned + owner_hand x m p + thief_hand x tp + queued x m p + count x m'.pushed
owned-thief x load_top c a = refl
owned-thief x (nothing h) c a = refl
owned-thief x (load_bottom h) c a = refl
owned-thief x load_buffer c a = refl
owned-thief x {m} {p} (win {t} {k} e) c a = omega (
  arith,
  span-drop x (at (buffer m)) m.top (limit m p) (omega (arith, a.1 (sym e))),
  ap (λ lo. span x (at (buffer m)) lo (limit m p - lo)) next,
  ap (weight x) (a.3 (sym e)),
  ap (λ i. weight x (at (buffer m) i)) e,
)
  where
    next : size_of (t + 1) ≡ m.top + 1
    next = omega (arith, a.1 (sym e), c.small)
owned-thief x (lose e) c a = refl
owned-thief x (take e) c a = omega (arith, ap (weight x) (sym a.1 ∙ e))

-- Every move of a thief keeps the invariant.
pub Inv-thief :
    {n : ℕ} {m m' : Memory} {p : OwnerPc} {tp' : ThiefPc} (th : ℕ → ThiefPc) (i : ℕ)
    → i < n
    → ThiefMove m (th i) m' tp'
    → Inv n m p th
    → Inv n m' p (update th i tp')
Inv-thief {n} {tp'} th i below mv v = record {
  core = Core-thief mv v.core (v.thieves i);
  thieves = ThiefAgrees-thief th i mv v.core v.thieves;
  account = λ x. omega (
    arith,
    v.account x,
    owned-thief x mv v.core (v.thieves i),
    sum_below-update (thief_hand x) n th i tp' below,
  );
}
