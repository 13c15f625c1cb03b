-- ===== src/Queue/Growing.antt =====
-- A push: the growth of the buffer, and the placing of the task.
use thread_pool_pro.Base.{
  ℕ, suc, ◌+◌, ◌-◌, ◌*◌, ◌^◌, ◌≤◌, ◌<◌, ◌≡◌, ◌∙◌, refl, ap, sym, subst, [], ◌∷◌, ◌++◌, false,
  Bool-cases, inl, inr, arith,
}
use thread_pool_pro.Buffer.{at, grow}
use thread_pool_pro.Buffer.Index.{exponent-lt, capacity_pos, two_pow-le}
use thread_pool_pro.Buffer.Growth.{grow-IsSized, at-grow, capacity-grow}
use thread_pool_pro.Deque.{is_full}
use thread_pool_pro.Queue.{Queue, make_room, push_bottom}
use thread_pool_pro.Queue.Contents.{task_in, cell, contents, listed-cong}
use thread_pool_pro.Queue.Nodes.{IsQueue}
use thread_pool_pro.Queue.Placing.{place_by}

-- What making room brings about.
abbrev Roomy : Queue → Queue → Type 0
Roomy q q' =
    IsQueue q'
    × (contents q' ≡ contents q)
    × (q'.bottom < q'.top + q'.buffer.capacity)
    × (q'.bottom ≡ q.bottom)

module _ (q : Queue) (v : IsQueue q) where
  fits-Roomy : is_full q.bottom q.top q.buffer ≡ false → Roomy q q
  unfolding is_full
  fits-Roomy e =
      let two = two_pow-le v.exponent v.sized.small in
      (
        v,
        refl,
        ground (arith, e, two, v.sized.power, capacity_pos v.sized, v.order, v.small, v.room),
        refl,
      )

  abbrev grown : Queue
  grown = record q { buffer = grow q.buffer q.bottom q.top; retired = q.retired ++ q.buffer ∷ [] }

  grown-Roomy : q.buffer.capacity * 2 < 2 ^ 64 → Roomy q grown
  unfolding contents
  grown-Roomy big =
      let k = exponent-lt v.sized big in
      let wide = capacity-grow v.sized k q.bottom q.top in
      let same : (j : ℕ) → q.top ≤ j → j < q.bottom → at grown.buffer j ≡ at q.buffer j =
        λ j a b. at-grow v.sized k q.bottom q.top j v.room a b in
      (
        record {
          exponent = suc v.exponent;
          sized = grow-IsSized v.sized k q.bottom q.top;
          order = v.order;
          small = v.small;
          room = omega (arith, wide, v.room);
          live = λ i a b. let (x, t, p, h) = v.live i a b in (x, t, same i a b ∙ p, h);
          apart = λ i j a b c e.
              v.apart i j a b c (sym (same i a (omega arith)) ∙ e ∙ same j (omega arith) c);
          owned = λ x t h. let (i, a, b, p) = v.owned x t h in (i, a, b, same i a b ∙ p);
          chain = v.chain;
          counted = v.counted;
          few = v.few;
          fresh = v.fresh;
        },
        listed-cong (cell grown) (cell q) (q.bottom - q.top) q.top
            (λ j a b. ap (task_in q.nodes) (same j a (omega (arith, v.order)))),
        omega (arith, wide, v.room, capacity_pos v.sized),
        refl,
      )

  make_room-Roomy : q.buffer.capacity * 2 < 2 ^ 64 → Roomy q (make_room q)
  unfolding make_room
  make_room-Roomy big = elim (Bool-cases (is_full q.bottom q.top q.buffer)) [
    | inl e ↦ subst (Roomy q) (ground (arith, e)) (grown-Roomy big)
    | inr e ↦ subst (Roomy q) (ground (arith, e)) (fits-Roomy e)
  ]

-- A push to a well-formed queue whose buffer can double and whose index has not reached the end
-- leaves a well-formed queue, and puts its task last.
pub push_bottom_lem :
    (q : Queue) (t : ℕ)
    → IsQueue q
    → q.buffer.capacity * 2 < 2 ^ 64
    → q.bottom + 1 < 2 ^ 64
    → IsQueue (push_bottom q t) × (contents (push_bottom q t) ≡ contents q ++ t ∷ [])
unfolding push_bottom
push_bottom_lem q t v big small =
    let r = make_room-Roomy q v big in
    let p = place_by (make_room q) t (make_room q).free refl r.0 r.2 (omega (arith, r.3)) in
    (p.0, p.1 ∙ ap (λ ts. ts ++ t ∷ []) r.1)
