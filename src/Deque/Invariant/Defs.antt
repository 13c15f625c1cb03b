-- ===== src/Deque/Invariant/Defs.antt =====
-- The invariant of the machine, and the condition under which a step keeps it.
use thread_pool_pro.Base.{
  ℕ, ◌+◌, ◌-◌, ◌*◌, ◌^◌, ◌≤◌, ◌<◌, ◌≡◌, ◌≢◌, true, Option, some, count, sum_below,
}
use thread_pool_pro.Buffer.{Buffer, IsSized, at, slot_of}
use thread_pool_pro.Deque.{
  Memory, buffer, is_full, OwnerPc, push_bottom, push_top, push_room, push_stored, pop_bottom,
  pop_stored, pop_last, pop_lost, pop_won, pop_take, ThiefPc, seen_top, seen_bottom, seen_buffer,
  won,
}
use thread_pool_pro.Deque.Span.{weight, span}

-- One past the last index that still belongs to the queue. While the owner has lowered
-- `bottomIndex_` and has not yet decided, the index that it reaches for still does.
abbrev limit_of : ℕ → OwnerPc → ℕ
limit_of bottom (pop_stored b) = b + 1
limit_of bottom (pop_last b) = b + 1
limit_of bottom (pop_lost b) = b + 1
limit_of bottom (pop_won b) = b + 1
limit_of bottom _ = bottom

abbrev pub limit : Memory → OwnerPc → ℕ
limit m p = limit_of m.bottom p

abbrev pub capacity : Memory → ℕ
capacity m = (buffer m).capacity

-- The slot of index `i` holds a task.
abbrev pub Holds : Memory → ℕ → Type 0
Holds m i = (task : ℕ) × (at (buffer m) i ≡ some task)

-- What the owner's locals say about the shared memory.
abbrev pub OwnerAgrees : Memory → OwnerPc → Type 0
OwnerAgrees m OwnerPc.idle = Unit {0}
OwnerAgrees m (push_bottom task b) = b ≡ m.bottom
OwnerAgrees m (push_top task b t) = (b ≡ m.bottom) × (t ≤ m.top) × (b ≤ t + capacity m)
OwnerAgrees m (push_room task b) = (b ≡ m.bottom) × (b < m.top + capacity m)
OwnerAgrees m (push_stored task b) =
    (b ≡ m.bottom) × (b < m.top + capacity m) × (at (buffer m) b ≡ some task)
OwnerAgrees m (pop_bottom b) = m.bottom ≡ b + 1
OwnerAgrees m (pop_stored b) = m.bottom ≡ b
OwnerAgrees m (pop_last b) = (m.bottom ≡ b) × (b ≤ m.top)
OwnerAgrees m (pop_lost b) = (m.bottom ≡ b) × (m.top ≡ b + 1)
OwnerAgrees m (pop_won b) = (m.bottom ≡ b) × (m.top ≡ b + 1) × Holds m b
OwnerAgrees m (pop_take b) = Holds m b

-- What a thief's locals say, with the limit of the queue as `hi`.
abbrev pub ThiefAgrees : Memory → ℕ → ThiefPc → Type 0
ThiefAgrees m hi ThiefPc.idle = Unit {0}
ThiefAgrees m hi (seen_top t) = t ≤ m.top
ThiefAgrees m hi (seen_bottom t) = (t ≤ m.top) × (t ≡ m.top → t < hi)
ThiefAgrees m hi (seen_buffer t k) =
    (t ≤ m.top)
    × (t ≡ m.top → t < hi)
    × (k ≤ m.active)
    × (t ≡ m.top → at (m.bufs k) t ≡ at (buffer m) t)
ThiefAgrees m hi (won t k claim) =
    (k ≤ m.active) × (at (m.bufs k) t ≡ claim) × ((task : ℕ) × (claim ≡ some task))

-- The task between a claim and its return.
abbrev hand_of : ℕ → Buffer → OwnerPc → ℕ
hand_of x d (pop_won b) = weight x (at d b)
hand_of x d (pop_take b) = weight x (at d b)
hand_of x d _ = 0

abbrev pub owner_hand : ℕ → Memory → OwnerPc → ℕ
owner_hand x m p = hand_of x (buffer m) p

abbrev pub thief_hand : ℕ → ThiefPc → ℕ
thief_hand x (won t k claim) = weight x claim
thief_hand x _ = 0

abbrev pub queued : ℕ → Memory → OwnerPc → ℕ
queued x m p = span x (at (buffer m)) m.top (limit m p - m.top)

-- The part of the invariant that speaks of the memory and the owner.
pub record Core (m : Memory) (p : OwnerPc) : Type 0 where
  pub exponent : ℕ
  pub sized : IsSized exponent (buffer m)
  pub order : m.top ≤ limit m p
  pub small : limit m p < 2 ^ 64
  pub room : limit m p ≤ m.top + capacity m
  pub full : (i : ℕ) → m.top ≤ i → i < limit m p → Holds m i
  pub owner : OwnerAgrees m p

pub record Inv (n : ℕ) (m : Memory) (p : OwnerPc) (th : ℕ → ThiefPc) : Type 0 where
  pub core : Core m p
  pub open core use *
  pub thieves : (i : ℕ) → ThiefAgrees m (limit m p) (th i)
  pub account :
      (x : ℕ)
      → count x m.returned + owner_hand x m p + sum_below (thief_hand x) n th + queued x m p
        ≡ count x m.pushed

-- When the owner may move: no thief is between its exchange and its read of the slot that a push
-- is about to write, the indices do not run past 2 ^ 64, and a larger buffer can be allocated.
abbrev pub IsClear : Memory → (ℕ → ThiefPc) → OwnerPc → Type 0
IsClear m th (push_top task b t) = is_full b t (buffer m) ≡ true → capacity m * 2 < 2 ^ 64
IsClear m th (push_room task b) =
    (i t k : ℕ) (claim : Option ℕ)
    → th i ≡ won t k claim
    → k ≡ m.active
    → slot_of (buffer m) t ≢ slot_of (buffer m) b
IsClear m th (push_stored task b) = b + 1 < 2 ^ 64
IsClear m th _ = Unit {0}
