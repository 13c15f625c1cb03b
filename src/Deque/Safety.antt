-- ===== src/Deque/Safety.antt =====
-- What holds of every interleaving in which no push overwrites a slot that a thief has yet to read.
use thread_pool_pro.Base.{
  ℕ, ◌+◌, ◌-◌, ◌^◌, ◌≤◌, ◌<◌, ◌≡◌, refl, Option, some, arith, count, update, sum_below-zero, subst,
  Bool-cases, inl, inr, dec_lt, ℕ_discrete, ◌∙◌, ap,
}
use thread_pool_pro.Buffer.{make, at}
use thread_pool_pro.Buffer.Index.{make-IsSized}
use thread_pool_pro.Deque.{
  Memory, buffer, is_full, OwnerPc, push_bottom, push_top, push_room, push_stored, pop_bottom,
  pop_stored, pop_last, pop_lost, pop_won, pop_take, ThiefPc, seen_top, seen_bottom, seen_buffer,
  won, OwnerMove, ThiefMove, System, init,
}
use thread_pool_pro.Deque.Span.{span, span-none}
use thread_pool_pro.Deque.Invariant.{
  ThiefAgrees, OwnerAgrees, owner_hand, Inv, IsClear, thief_hand, queued, limit, Inv-owner,
  Inv-thief,
}

-- The states that `n` thieves and the owner reach while every move of the owner meets `IsClear`.
pub data SafeReach (n k : ℕ) : System → Type 0 where
  start : SafeReach n k (init (2 ^ k))
  owner_moves :
      {s : System} {m : Memory} {p : OwnerPc}
      → SafeReach n k s
      → IsClear s.mem s.thief s.owner
      → OwnerMove s.mem s.owner m p
      → SafeReach n k (record s { mem = m; owner = p })
  thief_moves :
      {s : System} (i : ℕ) {m : Memory} {p : ThiefPc}
      → SafeReach n k s
      → i < n
      → ThiefMove s.mem (s.thief i) m p
      → SafeReach n k (record s { mem = m; thief = update s.thief i p })

init-Inv : (n k : ℕ) → k < 64 → Inv n (init (2 ^ k)).mem (init (2 ^ k)).owner (init (2 ^ k)).thief
unfolding init make
init-Inv n k h = record {
  core = record {
    exponent = k;
    sized = unfold make in make-IsSized k h;
    order = omega arith;
    small = omega arith;
    room = omega arith;
    full = λ i lo hi. absurd (omega arith);
    owner = tt;
  };
  thieves = λ i. tt;
  account = λ x. omega (
    arith,
    span-none x (at (make (2 ^ k))) 0,
    sum_below-zero (thief_hand x) n (λ _. ThiefPc.idle) (λ i. refl),
  );
}

pub SafeReach-Inv : {n k : ℕ} {s : System} → k < 64 → SafeReach n k s → Inv n s.mem s.owner s.thief
SafeReach-Inv {n} {k} h start = init-Inv n k h
SafeReach-Inv h (owner_moves {s} r clear mv) = Inv-owner s.thief mv clear (SafeReach-Inv h r)
SafeReach-Inv h (thief_moves {s} i r below mv) = Inv-thief s.thief i below mv (SafeReach-Inv h r)

module _ {n k : ℕ} {s : System} (small : k < 64) (r : SafeReach n k s) where
  inv : Inv n s.mem s.owner s.thief
  inv = SafeReach-Inv small r

  -- With any number of thieves and a first buffer of 2 ^ k slots, k < 64, in every interleaving in
  -- which each move of the owner meets `IsClear`: no task has been returned more often than pushed.
  pub no_duplicates : (x : ℕ) → count x s.mem.returned ≤ count x s.mem.pushed
  no_duplicates x = omega (arith, inv.account x)

  -- With any number of thieves and a first buffer of 2 ^ k slots, k < 64, in every interleaving in
  -- which each move of the owner meets `IsClear`: while nobody is in the middle of an operation, each
  -- task that was pushed has been returned or stands in the queue, as often as it was pushed.
  pub nothing_lost :
      s.owner ≡ OwnerPc.idle
      → ((i : ℕ) → s.thief i ≡ ThiefPc.idle)
      → (x : ℕ)
      → count x s.mem.returned + span x (at (buffer s.mem)) s.mem.top (s.mem.bottom - s.mem.top)
        ≡ count x s.mem.pushed
  nothing_lost quiet still x = omega (
    arith,
    inv.account x,
    sum_below-zero (thief_hand x) n s.thief (λ i. ap (thief_hand x) (still i)),
    ap (owner_hand x s.mem) quiet,
    ap (queued x s.mem) quiet,
  )

  -- Under the same conditions as `nothing_lost`, but at every moment: a thief that has won its
  -- exchange reads from its slot the task that stood there at the exchange, and not a null pointer.
  pub thief_reads_claim :
      (i t j : ℕ) (claim : Option ℕ)
      → s.thief i ≡ won t j claim
      → (at (s.mem.bufs j) t ≡ claim) × ((task : ℕ) × (claim ≡ some task))
  thief_reads_claim i t j claim e =
      let a : ThiefAgrees s.mem (limit s.mem s.owner) (won t j claim) =
        subst (ThiefAgrees s.mem (limit s.mem s.owner)) e (inv.thieves i) in
      (a.1, a.2)

  -- The owner never reads a null slot.
  pub owner_reads_task :
      (b : ℕ) → s.owner ≡ pop_take b → (task : ℕ) × (at (buffer s.mem) b ≡ some task)
  owner_reads_task b e = subst (OwnerAgrees s.mem) e inv.owner

  -- Under the same conditions as `nothing_lost`, but at every moment: when `pushBottom` has loaded
  -- both indices, `bottom - top` does not wrap, is at most the capacity, and `bottom` is a word.
  pub push_distance :
      (task b t : ℕ)
      → s.owner ≡ push_top task b t
      → (t ≤ b) × (b - t ≤ (buffer s.mem).capacity) × (b < 2 ^ 64)
  push_distance task b t e =
      let a : OwnerAgrees s.mem (push_top task b t) = subst (OwnerAgrees s.mem) e inv.owner in
      let hi : limit s.mem s.owner ≡ s.mem.bottom = ap (limit s.mem) e in
      (
        omega (arith, a.0, a.1, inv.order, hi),
        omega (arith, a.2),
        omega (arith, a.0, inv.small, hi),
      )

-- The owner always has a next access: no operation of the owner waits for a thief.
owner_step_of :
    (m : Memory) (p : OwnerPc)
    → OwnerAgrees m p
    → (m' : Memory) × (p' : OwnerPc) × OwnerMove m p m' p'
owner_step_of m OwnerPc.idle a = (_, _, OwnerMove.load_bottom 0)
owner_step_of m (push_bottom task b) a = (_, _, OwnerMove.load_top)
owner_step_of m (push_top task b t) a = elim (Bool-cases (is_full b t (buffer m))) [
  | inl e ↦ (_, _, OwnerMove.grows e)
  | inr e ↦ (_, _, OwnerMove.fits e)
]
owner_step_of m (push_room task b) a = (_, _, OwnerMove.write)
owner_step_of m (push_stored task b) a = (_, _, OwnerMove.publish)
owner_step_of m (pop_bottom b) a = (_, _, OwnerMove.lower)
owner_step_of m (pop_stored b) a = elim (dec_lt b m.top) [
  | yes h ↦ (_, _, OwnerMove.above h)
  | no h ↦ elim (ℕ_discrete m.top b) [
    | yes e ↦ (_, _, OwnerMove.last e)
    | no e ↦ (_, _, OwnerMove.below (omega arith))
  ]
]
owner_step_of m (pop_last b) a = elim (ℕ_discrete m.top b) [
  | yes e ↦ (_, _, OwnerMove.win e)
  | no e ↦ (_, _, OwnerMove.lose e)
]
owner_step_of m (pop_lost b) a = (_, _, OwnerMove.restore)
owner_step_of m (pop_won b) a = (_, _, OwnerMove.restore_won)
owner_step_of m (pop_take b) a = (_, _, OwnerMove.take a.1)

thief_step_of :
    (m : Memory) (hi : ℕ) (p : ThiefPc)
    → ThiefAgrees m hi p
    → (m' : Memory) × (p' : ThiefPc) × ThiefMove m p m' p'
thief_step_of m hi ThiefPc.idle a = (_, _, ThiefMove.load_top)
thief_step_of m hi (seen_top t) a = elim (dec_lt t m.bottom) [
  | yes h ↦ (_, _, ThiefMove.load_bottom h)
  | no h ↦ (_, _, ThiefMove.nothing (omega arith))
]
thief_step_of m hi (seen_bottom t) a = (_, _, ThiefMove.load_buffer)
thief_step_of m hi (seen_buffer t k) a = elim (ℕ_discrete m.top t) [
  | yes e ↦ (_, _, ThiefMove.win e)
  | no e ↦ (_, _, ThiefMove.lose e)
]
thief_step_of m hi (won t k claim) a = (_, _, ThiefMove.take (a.1 ∙ a.2.1))

-- Under the same conditions as `nothing_lost`, but at every moment: the owner has a next access, and
-- so has each thief, so that no operation waits for another thread or reads a null slot.
pub never_stuck :
    {n k : ℕ} {s : System}
    → k < 64
    → SafeReach n k s
    → (i : ℕ)
    → ((m : Memory) × (p : OwnerPc) × OwnerMove s.mem s.owner m p)
      × ((m : Memory) × (p : ThiefPc) × ThiefMove s.mem (s.thief i) m p)
never_stuck {s} h r i =
    let v = SafeReach-Inv h r in
    (owner_step_of s.mem s.owner v.owner, thief_step_of s.mem _ (s.thief i) (v.thieves i))
