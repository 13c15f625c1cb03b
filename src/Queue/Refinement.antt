-- ===== src/Queue/Refinement.antt =====
-- The queue as a list: a pop takes its last task, a steal its first.
use thread_pool_pro.Base.{
  ℕ, suc, ◌+◌, ◌-◌, ◌≤◌, ◌<◌, ◌≡◌, ◌≢◌, ◌∙◌, inl, inr, refl, ap, sym, subst, none, some, List, [],
  ◌∷◌, ◌++◌, Bool-cases, arith, length, count, update, ℕ_discrete, dec_lt, leb,
}
use thread_pool_pro.Buffer.{at}
use thread_pool_pro.Queue.{
  Node, unallocated, holds, recycled, Queue, task_free_list_capacity, set_node, release_node, Taken,
  nothing, got, take_own, take_other, pop_bottom, steal, size,
}
use thread_pool_pro.Queue.Contents.{
  task_of, cell, listed, contents, listed-cong, listed-last, listed-first, listed-length,
}
use thread_pool_pro.Queue.Nodes.{is_recycled, IsQueue, Cuts, removed, lone, removed-IsQueue}

-- The queue with other indices.
abbrev ranged : Queue → ℕ → ℕ → Queue
ranged q lo hi = record q { top = lo; bottom = hi }

-- What the removal of one task leaves.
abbrev Left : Queue → ℕ → ℕ → Queue → Type 0
Left q lo hi q' = IsQueue q' × (contents q' ≡ listed (cell q) (hi - lo) lo)

module _ (q : Queue) (x i lo hi t : ℕ) (v : IsQueue q) where
  removed-Left :
      (n : Node) (free : List ℕ)
      → q.top ≤ i
      → i < q.bottom
      → Cuts q i lo hi
      → at q.buffer i ≡ some x
      → q.nodes x ≡ holds t
      → task_of n ≡ none
      → ((y : ℕ) → count y free ≡ is_recycled (update q.nodes x n y))
      → length free ≤ task_free_list_capacity
      → Left q lo hi (removed q x lo hi n free (length free))
  unfolding contents
  removed-Left n free a b cut e g nt ch fw = (
    removed-IsQueue q x i lo hi t n free v a b cut e g nt ch fw,
    listed-cong (cell (removed q x lo hi n free (length free))) (cell q) (hi - lo) lo λ j c d.
        let (y, u, p, h) = v.live j (ground arith) (ground arith) in
        let away : j ≢ i = λ m. ground arith in
        let apart : x ≢ y =
          λ k. away (lone q x v i j e a b (ground arith) (ground arith) (p ∙ ap some (sym k))) in
        ground (arith, p, h, apart),
  )

  -- `delete`, by a thief.
  deleted-Left :
      q.top ≤ i
      → i < q.bottom
      → Cuts q i lo hi
      → at q.buffer i ≡ some x
      → q.nodes x ≡ holds t
      → Left q lo hi (set_node (ranged q lo hi) x unallocated)
  deleted-Left a b cut e g =
      subst (λ c. Left q lo hi (removed q x lo hi unallocated q.free c)) (sym v.counted)
        (removed-Left unallocated q.free a b cut e g refl
          (λ y. elim (ℕ_discrete x y) [
            | yes k ↦ ground (arith, v.chain x, g)
            | no k ↦ ground (arith, v.chain y)
          ])
          v.few)

  -- `releaseNode`, by the owner.
  released-Left :
      q.top ≤ i
      → i < q.bottom
      → Cuts q i lo hi
      → at q.buffer i ≡ some x
      → q.nodes x ≡ holds t
      → Left q lo hi (release_node (ranged q lo hi) x)
  unfolding release_node
  released-Left a b cut e g = elim (Bool-cases (leb task_free_list_capacity q.free_count)) [
    | inl f ↦ subst (Left q lo hi) (ground (arith, f)) (deleted-Left a b cut e g)
    | inr f ↦
        let same : removed q x lo hi recycled (x ∷ q.free) (length (x ∷ q.free))
            ≡ release_node (ranged q lo hi) x =
          ground (arith, f, v.counted, v.few) in
        subst (Left q lo hi) same (
          removed-Left recycled (x ∷ q.free) a b cut e g refl
            (λ y. elim (ℕ_discrete x y) [
              | yes k ↦ ground (arith, v.chain x, g)
              | no k ↦ ground (arith, v.chain y)
            ])
            (ground (arith, f, v.counted)))
  ]

-- An end that takes the task at the index `i` and leaves the indices from `lo` below `hi`.
abbrev Takes : Queue → ℕ → ℕ → ℕ → Taken → Type 0
Takes q i lo hi r = (t : ℕ) × (q' : Queue) × (r ≡ got t q') × (cell q i ≡ some t) × Left q lo hi q'

module _ (q : Queue) (i lo hi : ℕ) (v : IsQueue q) (a : q.top ≤ i) (b : i < q.bottom)
    (cut : Cuts q i lo hi) where
  take_own_lem : Takes q i lo hi (take_own (ranged q lo hi) i)
  unfolding take_own
  take_own_lem =
      let (x, t, e, g) = v.live i a b in
      (
        t,
        release_node (ranged q lo hi) x,
        ground (arith, e, g),
        ground (arith, e, g),
        released-Left q x i lo hi t v a b cut e g,
      )

  take_other_lem : Takes q i lo hi (take_other (ranged q lo hi) i)
  unfolding take_other
  take_other_lem =
      let (x, t, e, g) = v.live i a b in
      (
        t,
        set_node (ranged q lo hi) x unallocated,
        ground (arith, e, g),
        ground (arith, e, g),
        deleted-Left q x i lo hi t v a b cut e g,
      )

-- What `steal` may do: nothing to an empty queue, or take the first task.
pub data Steals (q : Queue) : Taken → Type 0 where
  none_left : contents q ≡ [] → Steals q (nothing q)
  first_taken :
      (t : ℕ) (q' : Queue) → IsQueue q' → contents q ≡ t ∷ contents q' → Steals q (got t q')

-- What `popBottom` may do: nothing to an empty queue, or take the last task.
pub data Pops (q : Queue) : Taken → Type 0 where
  none_left : contents q ≡ [] → Pops q (nothing q)
  last_taken :
      (t : ℕ) (q' : Queue) → IsQueue q' → contents q ≡ contents q' ++ t ∷ [] → Pops q (got t q')

-- A queue without live indices is empty.
empty-contents : (q : Queue) → q.bottom ≤ q.top → contents q ≡ []
unfolding contents listed
empty-contents q h =
    let none_live : q.bottom - q.top ≡ 0 = omega arith in
    ap (λ n. listed (cell q) n q.top) none_live

first_of :
    (q : Queue) {r : Taken} → q.top < q.bottom → Takes q q.top (q.top + 1) q.bottom r → Steals q r
unfolding contents
first_of q p (t, q', e, c, (w, k)) = subst (Steals q) (sym e) (
    first_taken t q' w (
      ap (λ n. listed (cell q) n q.top) (omega arith)
      ∙ listed-first (cell q) (q.bottom - (q.top + 1)) q.top t c
      ∙ ap (λ ts. t ∷ ts) (sym k)))

last_of :
    (q : Queue) (i n lo hi : ℕ) {r : Taken}
    → q.bottom ≡ q.top + suc n
    → i ≡ q.top + n
    → Takes q i lo hi r
    → listed (cell q) (hi - lo) lo ≡ listed (cell q) n q.top
    → Pops q r
unfolding contents
last_of q i n lo hi p h (t, q', e, c, (w, k)) same = subst (Pops q) (sym e) (
    last_taken t q' w (
      ap (λ m. listed (cell q) m q.top) (omega arith)
      ∙ listed-last (cell q) n q.top t (ap (cell q) (sym h) ∙ c)
      ∙ ap (λ ts. ts ++ t ∷ []) (sym (k ∙ same))))

-- On a well-formed queue, `steal` does nothing if the queue is empty, and otherwise takes the first
-- task and leaves a well-formed queue that holds the others.
pub steal_lem : (q : Queue) → IsQueue q → Steals q (steal q)
unfolding steal
steal_lem q v = elim (dec_lt q.top q.bottom) [
  | yes p ↦
      let took =
        take_other_lem q q.top (q.top + 1) q.bottom v (omega arith) p (inl (refl, refl, refl)) in
      subst (Steals q) (ground (arith, v.small)) (first_of q p took)
  | no p ↦ subst (Steals q) (ground arith) (none_left (empty-contents q (omega arith)))
]

-- On a well-formed queue, `popBottom` does nothing if the queue is empty, and otherwise takes the
-- last task and leaves a well-formed queue that holds the others.
pub pop_bottom_lem : (q : Queue) → IsQueue q → Pops q (pop_bottom q)
unfolding pop_bottom listed
pop_bottom_lem q v = elim (dec_lt q.top q.bottom) [
  | yes p ↦ elim (ℕ_discrete q.top (q.bottom - 1)) [
    | yes m ↦
        let took =
          take_own_lem q (q.bottom - 1) (q.top + 1) q.bottom v (omega arith) (omega arith)
            (inl (refl, refl, sym m)) in
        let none_live : q.bottom - (q.top + 1) ≡ 0 = omega arith in
        subst (Pops q) (ground (arith, v.small)) (
          last_of q (q.bottom - 1) 0 (q.top + 1) q.bottom (omega arith) (omega arith) took
            (ap (λ n. listed (cell q) n (q.top + 1)) none_live))
    | no m ↦
        let took =
          take_own_lem q (q.bottom - 1) q.top (q.bottom - 1) v (omega arith) (omega arith)
            (inr (refl, refl, omega arith)) in
        subst (Pops q) (ground (arith, v.small)) (
          last_of q (q.bottom - 1) (q.bottom - 1 - q.top) q.top (q.bottom - 1) (omega arith)
            (omega arith) took refl)
  ]
  | no p ↦
      subst (Pops q) (ground (arith, v.order, v.small)) (none_left (empty-contents q (omega arith)))
]

-- `size` is the number of tasks in a well-formed queue.
pub size_lem : (q : Queue) → IsQueue q → size q ≡ length (contents q)
unfolding size contents
size_lem q v =
    let all : length (listed (cell q) (q.bottom - q.top) q.top) ≡ q.bottom - q.top =
      listed-length (cell q) (q.bottom - q.top) q.top λ j a b.
        let (x, t, e, g) = v.live j a (omega (arith, v.order)) in (t, ground (arith, e, g)) in
    ground (arith, all, v.small, v.order)
