-- ===== src/Queue/Limits.antt =====
-- How far the indices and the capacity of a queue go with its owner's operations.
use thread_pool_pro.Base.{
  ℕ, suc, ◌+◌, ◌-◌, ◌*◌, ◌^◌, ◌≤◌, ◌<◌, ◌≡◌, refl, ap, subst, inl, inr, Bool-cases, dec_lt,
  ℕ_discrete, some, List, [], ◌∷◌, arith,
}
use thread_pool_pro.Buffer.Index.{capacity-put, exponent-lt}
use thread_pool_pro.Buffer.Growth.{capacity-grow}
use thread_pool_pro.Deque.{is_full}
use thread_pool_pro.Queue.{
  Queue, acquire_node, make_room, place, push_bottom, release_node, pop_bottom, take_own, Taken,
  nothing, got, invalid,
}
use thread_pool_pro.Queue.Nodes.{IsQueue}

-- After `n` pushes to a queue that began with at most 1024 slots.
abbrev pub Within : ℕ → Queue → Type 0
Within n q = (q.bottom ≤ n) × (q.buffer.capacity ≤ 1024 + 2 * n)

acquire_node-kept :
    (q : Queue) (t : ℕ) (free : List ℕ)
    → q.free ≡ free
    → ((acquire_node q t).0.bottom ≡ q.bottom) × ((acquire_node q t).0.buffer ≡ q.buffer)
unfolding acquire_node
acquire_node-kept q t [] e = ground (arith, e)
acquire_node-kept q t (x ∷ rest) e = ground (arith, e)

place-Within :
    (q : Queue) (t n : ℕ)
    → q.bottom + 1 < 2 ^ 64
    → q.bottom ≤ n
    → q.buffer.capacity ≤ 1024 + 2 * suc n
    → Within (suc n) (place q t)
unfolding place
place-Within q t n small b c =
    let k = acquire_node-kept q t q.free refl in
    let q' = (acquire_node q t).0 in
    (
      omega (arith, k.0),
      omega (
        arith,
        capacity-put q'.buffer q'.bottom (some (acquire_node q t).1),
        ap (λ b. b.capacity) k.1,
      ),
    )

make_room-Within :
    (q : Queue) (n : ℕ)
    → IsQueue q
    → q.buffer.capacity * 2 < 2 ^ 64
    → Within n q
    → ((make_room q).bottom ≡ q.bottom) × ((make_room q).buffer.capacity ≤ 1024 + 2 * suc n)
unfolding make_room is_full
make_room-Within q n v big w = elim (Bool-cases (is_full q.bottom q.top q.buffer)) [
  | inl e ↦
      let wide = capacity-grow v.sized (exponent-lt v.sized big) q.bottom q.top in
      ground (arith, e, v.order, v.small, wide)
  | inr e ↦ ground (arith, e)
]

pub push_bottom-Within :
    (q : Queue) (t n : ℕ) → IsQueue q → n < 2 ^ 32 → Within n q → Within (suc n) (push_bottom q t)
unfolding push_bottom
push_bottom-Within q t n v small w =
    let r = make_room-Within q n v (omega arith) w in
    place-Within (make_room q) t n (omega (arith, r.0)) (omega (arith, r.0)) r.1

-- What a queue is left with by the end of a pop.
abbrev pub Kept : ℕ → Taken → Type 0
Kept n (nothing q) = Within n q
Kept n (got t q) = Within n q
Kept n invalid = Unit {0}

release_node-Within : (q : Queue) (x n : ℕ) → Within n q → Within n (release_node q x)
unfolding release_node
release_node-Within q x n w = ground arith

module _ (q : Queue) (lo hi i n : ℕ) (v : IsQueue q) (a : q.top ≤ i) (b : i < q.bottom) (h : hi ≤ n)
    (c : q.buffer.capacity ≤ 1024 + 2 * n) where
  take_own-Kept : Kept n (take_own (record q { top = lo; bottom = hi }) i)
  unfolding take_own
  take_own-Kept =
      let (x, t, e, g) = v.live i a b in
      let left = record q { top = lo; bottom = hi } in
      let ends : got t (release_node left x) ≡ take_own left i = ground (arith, e, g) in
      subst (Kept n) ends (release_node-Within left x n (h, c))

pub pop_bottom-Kept : (q : Queue) (n : ℕ) → IsQueue q → Within n q → Kept n (pop_bottom q)
unfolding pop_bottom
pop_bottom-Kept q n v w = elim (dec_lt q.top q.bottom) [
  | yes p ↦ elim (ℕ_discrete q.top (q.bottom - 1)) [
    | yes m ↦ subst (Kept n) (ground (arith, v.small)) (
        take_own-Kept q (q.top + 1) q.bottom (q.bottom - 1) n v (omega arith) (omega arith) w.0 w.1)
    | no m ↦ subst (Kept n) (ground (arith, v.small)) (
        take_own-Kept q q.top (q.bottom - 1) (q.bottom - 1) n v (omega arith) (omega arith)
          (omega arith) w.1)
  ]
  | no p ↦
      let ends : nothing q ≡ pop_bottom q = ground (arith, v.order, v.small) in
      subst (Kept n) ends w
]
