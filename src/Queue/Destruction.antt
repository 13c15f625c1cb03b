-- ===== src/Queue/Destruction.antt =====
-- WorkStealingQueue::~WorkStealingQueue gives back every node.
use thread_pool_pro.Base.{
  ℕ, zero, suc, ◌+◌, ◌-◌, ◌≤◌, ◌<◌, ◌≡◌, ◌∙◌, ◌⊎◌, inl, inr, refl, ap, some, Option-cases, List, [],
  ◌∷◌, arith, count, update, ℕ_discrete,
}
use thread_pool_pro.Buffer.{Buffer, at}
use thread_pool_pro.Queue.{
  Node, unallocated, holds, recycled, Queue, delete_tasks, delete_free, destroy,
}
use thread_pool_pro.Queue.Nodes.{is_recycled, IsQueue}

Node-cases : (n : Node) → (n ≡ unallocated) ⊎ ((t : ℕ) × (n ≡ holds t)) ⊎ (n ≡ recycled)
Node-cases unallocated = inl refl
Node-cases (holds t) = inr (inl (t, refl))
Node-cases recycled = inr (inr refl)

module _ (b : Buffer) (y : ℕ) where
  delete_tasks-unallocated :
      (n i : ℕ) (nodes : ℕ → Node)
      → nodes y ≡ unallocated
      → delete_tasks b nodes n i y ≡ unallocated
  unfolding delete_tasks
  delete_tasks-unallocated zero i nodes h = h
  delete_tasks-unallocated (suc n) i nodes h = elim (Option-cases (at b i)) [
    | inl e ↦ ground (arith, e, delete_tasks-unallocated n (i + 1) nodes h)
    | inr (x, e) ↦
        let after =
          delete_tasks-unallocated n (i + 1) (update nodes x unallocated) (ground (arith, h)) in
        ground (arith, e, after)
  ]

  delete_tasks-hit :
      (n i : ℕ) (nodes : ℕ → Node) (j : ℕ)
      → i ≤ j
      → j < i + n
      → at b j ≡ some y
      → delete_tasks b nodes n i y ≡ unallocated
  unfolding delete_tasks
  delete_tasks-hit zero i nodes j lo hi h = absurd (omega arith)
  delete_tasks-hit (suc n) i nodes j lo hi h = elim (ℕ_discrete i j) [
    | yes k ↦
        let after =
          delete_tasks-unallocated n (i + 1) (update nodes y unallocated) (ground arith) in
        ground (arith, ap (at b) k ∙ h, after)
    | no k ↦ elim (Option-cases (at b i)) [
      | inl e ↦ ground (arith, e, delete_tasks-hit n (i + 1) nodes j (omega arith) (omega arith) h)
      | inr (x, e) ↦
          let after =
            delete_tasks-hit n (i + 1) (update nodes x unallocated) j (omega arith) (omega arith)
              h in
          ground (arith, e, after)
    ]
  ]

delete_free-unallocated :
    (xs : List ℕ) (nodes : ℕ → Node) (y : ℕ)
    → nodes y ≡ unallocated
    → delete_free xs nodes y ≡ unallocated
unfolding delete_free
delete_free-unallocated [] nodes y h = h
delete_free-unallocated (x ∷ xs) nodes y h =
    delete_free-unallocated xs (update nodes x unallocated) y (ground (arith, h))

delete_free-hit :
    (xs : List ℕ) (nodes : ℕ → Node) (y : ℕ) → 0 < count y xs → delete_free xs nodes y ≡ unallocated
unfolding delete_free
delete_free-hit [] nodes y h = absurd (omega arith)
delete_free-hit (x ∷ xs) nodes y h = elim (ℕ_discrete x y) [
  | yes k ↦ delete_free-unallocated xs (update nodes x unallocated) y (ground arith)
  | no k ↦ delete_free-hit xs (update nodes x unallocated) y (ground (arith, h))
]

-- The destructor of a well-formed queue frees every node: those of the tasks that are still queued,
-- and those on the free list.
pub destroy_lem : (q : Queue) → IsQueue q → (y : ℕ) → destroy q y ≡ unallocated
unfolding destroy
destroy_lem q v y = elim (Node-cases (q.nodes y)) [
  | inl e ↦
      delete_free-unallocated q.free _ y
        (delete_tasks-unallocated q.buffer y (q.bottom - q.top) q.top q.nodes e)
  | inr (inl (t, e)) ↦
      let (i, a, b, h) = v.owned y t e in
      delete_free-unallocated q.free _ y (
        delete_tasks-hit q.buffer y (q.bottom - q.top) q.top q.nodes i a (omega (arith, v.order)) h)
  | inr (inr e) ↦ delete_free-hit q.free _ y (omega (arith, v.chain y, ap is_recycled e))
]
