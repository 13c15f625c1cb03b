-- ===== src/Queue/Placing.antt =====
-- The placing of a task at the bottom of a queue with room: the node and the slot.
use thread_pool_pro.Base.{
  ℕ, suc, ◌+◌, ◌-◌, ◌^◌, ◌≤◌, ◌<◌, ◌≡◌, ◌∙◌, refl, ap, sym, subst, none, some, List, [], ◌∷◌, ◌++◌,
  arith, length, count, update, ℕ_discrete, dec_lt,
}
use thread_pool_pro.Buffer.{at, put}
use thread_pool_pro.Buffer.Index.{put-IsSized, at-put_self, at-put_ne, slot_of-ne, capacity-put}
use thread_pool_pro.Queue.{unallocated, holds, Queue, task_free_list_capacity, acquire_node, place}
use thread_pool_pro.Queue.Contents.{
  task_of, task_in, cell, listed, contents, listed-cong, listed-last,
}
use thread_pool_pro.Queue.Nodes.{is_recycled, IsQueue}

module _ (q : Queue) (x t : ℕ) where
  -- The queue with the task `t` in node `x` at the bottom.
  abbrev pub added : List ℕ → ℕ → Queue
  added free next = record q {
    bottom = q.bottom + 1;
    buffer = put q.buffer q.bottom (some x);
    nodes = update q.nodes x (holds t);
    free = free;
    free_count = length free;
    next = next;
  }

  kept :
      IsQueue q
      → q.bottom < q.top + q.buffer.capacity
      → (j : ℕ) → q.top ≤ j
      → j < q.bottom
      → at (put q.buffer q.bottom (some x)) j ≡ at q.buffer j
  kept v space j a b =
      at-put_ne q.buffer q.bottom j (some x)
        (λ e. slot_of-ne v.sized j q.bottom b (omega arith) (sym e))

  added-IsQueue :
      (free : List ℕ) (next : ℕ)
      → IsQueue q
      → q.bottom < q.top + q.buffer.capacity
      → q.bottom + 1 < 2 ^ 64
      → task_of (q.nodes x) ≡ none
      → ((y : ℕ) → count y free ≡ is_recycled (update q.nodes x (holds t) y))
      → length free ≤ task_free_list_capacity
      → ((y : ℕ) → next ≤ y → update q.nodes x (holds t) y ≡ unallocated)
      → IsQueue (added free next)
  added-IsQueue free next v space small nt ch fw fr = record {
    exponent = v.exponent;
    sized = put-IsSized v.sized q.bottom (some x);
    order = omega (arith, v.order);
    small = small;
    room = omega (arith, capacity-put q.buffer q.bottom (some x));
    live = λ j a b. elim (dec_lt j q.bottom) [
      | yes c ↦ let (y, u, p, h) = v.live j a c in (y, u, kept v space j a c ∙ p, ground (arith, h))
      | no c ↦
          let e : q.bottom ≡ j = omega arith in
          (
            x,
            t,
            ap (at (put q.buffer q.bottom (some x))) (sym e)
                ∙ at-put_self q.buffer q.bottom (some x),
            ground arith,
          )
    ];
    apart = λ j k a b c e. elim (dec_lt k q.bottom) [
      | yes d ↦
          v.apart j k a b d
            (sym (kept v space j a (omega arith)) ∙ e ∙ kept v space k (omega arith) d)
      | no d ↦
          let (y, u, p, h) = v.live j a (omega arith) in
          let m : q.bottom ≡ k = omega arith in
          ground (
            arith,
            p,
            h,
            kept v space j a (omega arith),
            ap (at (put q.buffer q.bottom (some x))) m,
            at-put_self q.buffer q.bottom (some x),
          )
    ];
    owned = λ y u h. elim (ℕ_discrete x y) [
      | yes k ↦ (q.bottom, v.order, omega arith, at-put_self q.buffer q.bottom (some x) ∙ ap some k)
      | no k ↦
          let (j, a, b, p) = v.owned y u (ground (arith, h)) in
          (j, a, omega arith, kept v space j a b ∙ p)
    ];
    chain = ch;
    counted = refl;
    few = fw;
    fresh = fr;
  }

  added-contents :
      (free : List ℕ) (next : ℕ)
      → IsQueue q
      → q.bottom < q.top + q.buffer.capacity
      → task_of (q.nodes x) ≡ none
      → contents (added free next) ≡ contents q ++ t ∷ []
  unfolding contents
  added-contents free next v space nt =
      ap (λ n. listed (cell (added free next)) n q.top) (omega (arith, v.order))
      ∙ listed-last (cell (added free next)) (q.bottom - q.top) q.top t (
          ap (task_in (update q.nodes x (holds t))) (
            ap (at (put q.buffer q.bottom (some x))) (omega (arith, v.order))
            ∙ at-put_self q.buffer q.bottom (some x))
          ∙ ground arith)
      ∙ ap (λ ts. ts ++ t ∷ [])
          (listed-cong (cell (added free next)) (cell q) (q.bottom - q.top) q.top λ j a b.
            let (y, u, p, h) = v.live j a (omega arith) in
            ap (task_in (update q.nodes x (holds t))) (kept v space j a (omega arith) ∙ p)
            ∙ ground (arith, h, p))

-- What a push brings about.
abbrev pub Pushed : Queue → ℕ → Queue → Type 0
Pushed q t q' = IsQueue q' × (contents q' ≡ contents q ++ t ∷ [])

module _ (q : Queue) (t : ℕ) where
  added-Pushed :
      (x : ℕ) (free : List ℕ) (next : ℕ)
      → IsQueue q
      → q.bottom < q.top + q.buffer.capacity
      → q.bottom + 1 < 2 ^ 64
      → task_of (q.nodes x) ≡ none
      → ((y : ℕ) → count y free ≡ is_recycled (update q.nodes x (holds t) y))
      → length free ≤ task_free_list_capacity
      → ((y : ℕ) → next ≤ y → update q.nodes x (holds t) y ≡ unallocated)
      → place q t ≡ added q x t free next
      → Pushed q t (place q t)
  added-Pushed x free next v space small nt ch fw fr e = subst (Pushed q t) (sym e) (
    added-IsQueue q x t free next v space small nt ch fw fr,
    added-contents q x t free next v space nt,
  )

  -- A new node is allocated, or the head of the free list is taken.
  pub place_by :
      (free : List ℕ)
      → q.free ≡ free
      → IsQueue q
      → q.bottom < q.top + q.buffer.capacity
      → q.bottom + 1 < 2 ^ 64
      → Pushed q t (place q t)
  place_by [] e v space small =
      let new = v.fresh q.next (omega arith) in
      added-Pushed q.next [] (suc q.next) v space small (ap task_of new)
        (λ y. elim (ℕ_discrete q.next y) [
          | yes k ↦ ground arith
          | no k ↦ ground (arith, v.chain y, ap (count y) e)
        ])
        (omega arith) (λ y h. ground (arith, v.fresh y (omega arith)))
        (unfold place acquire_node in ground (arith, e, v.counted))
  place_by (x ∷ rest) e v space small =
      let old = v.chain x in
      added-Pushed x rest q.next v space small (ground (arith, old, ap (count x) e))
        (λ y. elim (ℕ_discrete x y) [
          | yes k ↦ ground (arith, old, ap (count x) e)
          | no k ↦ ground (arith, v.chain y, ap (count y) e)
        ])
        (omega (arith, v.few, ap length e))
        (λ y h. elim (ℕ_discrete x y) [
          | yes k ↦ absurd (ground (arith, old, ap (count x) e, v.fresh x (omega arith)))
          | no k ↦ ground (arith, v.fresh y h)
        ])
        (unfold place acquire_node in ground (arith, e, v.counted, v.few, ap length e))
