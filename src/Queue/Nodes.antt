-- ===== src/Queue/Nodes.antt =====
-- Which node stands where: every live slot points to a node of its own that holds a task, and the
-- free list names the recycled nodes.
use thread_pool_pro.Base.{
  ℕ, ◌+◌, ◌^◌, ◌≤◌, ◌<◌, ◌≡◌, ◌≢◌, ◌∙◌, ◌⊎◌, refl, ap, sym, none, some, List, arith, length, count,
  update, ℕ_discrete, dec_lt,
}
use thread_pool_pro.Buffer.{IsSized, at, make}
use thread_pool_pro.Buffer.Index.{make-IsSized}
use thread_pool_pro.Queue.{
  Node, unallocated, holds, recycled, Queue, task_free_list_capacity, create,
}
use thread_pool_pro.Queue.Contents.{task_of}

abbrev pub is_recycled : Node → ℕ
is_recycled recycled = 1
is_recycled _ = 0

-- The index `i` is live, and its slot points to a node with a task.
abbrev pub Points : Queue → ℕ → Type 0
Points q i = (x : ℕ) × (t : ℕ) × (at q.buffer i ≡ some x) × (q.nodes x ≡ holds t)

pub record IsQueue (q : Queue) : Type 0 where
  pub exponent : ℕ
  pub sized : IsSized exponent q.buffer
  pub order : q.top ≤ q.bottom
  pub small : q.bottom < 2 ^ 64
  pub room : q.bottom ≤ q.top + q.buffer.capacity
  pub live : (i : ℕ) → q.top ≤ i → i < q.bottom → Points q i
  pub apart : (i j : ℕ) → q.top ≤ i → i < j → j < q.bottom → at q.buffer i ≢ at q.buffer j
  pub owned :
      (x t : ℕ)
      → q.nodes x ≡ holds t
      → (i : ℕ) × (q.top ≤ i) × (i < q.bottom) × (at q.buffer i ≡ some x)
  pub chain : (x : ℕ) → count x q.free ≡ is_recycled (q.nodes x)
  pub counted : q.free_count ≡ length q.free
  pub few : length q.free ≤ task_free_list_capacity
  pub fresh : (x : ℕ) → q.next ≤ x → q.nodes x ≡ unallocated

pub create-IsQueue : (k : ℕ) → k < 64 → IsQueue (create (2 ^ k))
unfolding create
create-IsQueue k h = record {
  exponent = k;
  sized = unfold make in make-IsSized k h;
  order = omega arith;
  small = omega arith;
  room = omega arith;
  live = λ i a b. absurd (omega arith);
  apart = λ i j a b c. absurd (omega arith);
  owned = λ x t e. absurd (ground arith);
  chain = λ x. refl;
  counted = refl;
  few = omega arith;
  fresh = λ x a. refl;
}

-- The index `i` is the first or the last of the live ones, and `lo` and `hi` bound the others.
abbrev pub Cuts : Queue → (i lo hi : ℕ) → Type 0
Cuts q i lo hi =
    ((lo ≡ q.top + 1) × (hi ≡ q.bottom) × (i ≡ q.top))
    ⊎ ((lo ≡ q.top) × (hi ≡ i) × (q.bottom ≡ i + 1))

module _ (q : Queue) (x : ℕ) where
  -- The queue without one index, whose node `x` becomes `n`.
  abbrev pub removed : (lo hi : ℕ) → Node → List ℕ → ℕ → Queue
  removed lo hi n free free_count = record q {
    top = lo;
    bottom = hi;
    nodes = update q.nodes x n;
    free = free;
    free_count = free_count;
  }

  -- No other live index points to the node.
  pub lone :
      IsQueue q
      → (i j : ℕ) → at q.buffer i ≡ some x
      → q.top ≤ i
      → i < q.bottom
      → q.top ≤ j
      → j < q.bottom
      → at q.buffer j ≡ some x
      → j ≡ i
  lone v i j e a b c d g = elim (dec_lt i j) [
    | yes p ↦ absurd (v.apart i j a p d (e ∙ sym g))
    | no p ↦ elim (dec_lt j i) [
      | yes r ↦ absurd (v.apart j i c r b (g ∙ sym e))
      | no r ↦ omega arith
    ]
  ]

  pub removed-IsQueue :
      (i lo hi t : ℕ) (n : Node) (free : List ℕ)
      → IsQueue q
      → q.top ≤ i
      → i < q.bottom
      → Cuts q i lo hi
      → at q.buffer i ≡ some x
      → q.nodes x ≡ holds t
      → task_of n ≡ none
      → ((y : ℕ) → count y free ≡ is_recycled (update q.nodes x n y))
      → length free ≤ task_free_list_capacity
      → IsQueue (removed lo hi n free (length free))
  removed-IsQueue i lo hi t n free v a b cut e g nt ch fw = record {
    exponent = v.exponent;
    sized = v.sized;
    order = ground (arith, v.order);
    small = ground (arith, v.small);
    room = ground (arith, v.room);
    live = λ j c d.
        let (y, u, p, h) = v.live j (ground arith) (ground arith) in
        (
          y,
          u,
          p,
          elim (ℕ_discrete x y) [
            | yes k ↦ absurd (
                ground
                  (arith, lone v i j e a b (ground arith) (ground arith) (p ∙ ap some (sym k))))
            | no k ↦ ground (arith, h)
          ],
        );
    apart = λ j k c d f. v.apart j k (ground arith) d (ground arith);
    owned = λ y u h. elim (ℕ_discrete x y) [
      | yes k ↦ absurd (ground (arith, h))
      | no k ↦
          let (j, c, d, p) = v.owned y u (ground (arith, h)) in
          let d' : j ≢ i = λ m. ground (arith, p, e, ap (at q.buffer) m) in
          (j, ground arith, ground arith, p)
    ];
    chain = ch;
    counted = refl;
    few = fw;
    fresh = λ y h. elim (ℕ_discrete x y) [
      | yes k ↦ absurd (ground (arith, v.fresh x (omega arith)))
      | no k ↦ ground (arith, v.fresh y h)
    ];
  }
