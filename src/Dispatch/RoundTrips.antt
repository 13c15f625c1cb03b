-- ===== src/Dispatch/RoundTrips.antt =====
-- A task that is submitted, and the search after it.
use thread_pool_pro.Base.{
  ℕ, ◌<◌, ◌≡◌, ◌≢◌, ◌∙◌, refl, ap, sym, subst, Option, some, List, [], ◌∷◌, ◌++◌, arith, is_that,
  update, ℕ_discrete,
}
use thread_pool_pro.Pool.{running}
use thread_pool_pro.Queue.{Queue, push_bottom, pop_bottom, Taken}
use thread_pool_pro.Queue.Contents.{contents}
use thread_pool_pro.Queue.Nodes.{IsQueue}
use thread_pool_pro.Queue.Growing.{push_bottom_lem}
use thread_pool_pro.Queue.Refinement.{Pops, pop_bottom_lem}
use thread_pool_pro.Dispatch.{
  Store, Fetched, took, settle, fetch_task, fetch_task_external, submit, enqueue_task,
  announce_task,
}
use thread_pool_pro.Dispatch.Stores.{IsStore, held, AllEmpty, AllEmpty-held}
use thread_pool_pro.Dispatch.Scans.{Searched, found_none, found}
use thread_pool_pro.Dispatch.Fetching.{fetch_task_external_lem}
use thread_pool_pro.Dispatch.Submitting.{HasRoom, accepted_lem}

took_only :
    (s : Store) {None : Type 0} {f : Fetched} (t : ℕ)
    → ((x : ℕ) → held x s ≡ is_that x t)
    → (None → held t s ≡ 0)
    → Searched s None f
    → (z : Store) × (f ≡ took t z) × ((x : ℕ) → held x z ≡ 0)
took_only s t h e (found_none a) = absurd (ground (arith, h t, e a))
took_only s t h e (found u z w k) = elim (ℕ_discrete u t) [
  | yes m ↦ (z, ap (λ v. took v z) m, λ x. ground (arith, h x, k x, m))
  | no m ↦ absurd (ground (arith, h u, k u))
]

-- A well-formed running store without tasks, with room: what `submit` puts in, by a worker or by
-- another thread, the next `fetchTaskExternal` takes out, and leaves no task.
pub submit-fetch_task_external :
    (caller : Option ℕ) (t r : ℕ) (s : Store)
    → IsStore s
    → HasRoom caller s
    → s.run_state ≡ running
    → AllEmpty s
    → r < s.workers
    → (s' : Store) × (z : Store) × (submit caller t s ≡ some s')
      × (fetch_task_external r s' ≡ took t z)
      × ((x : ℕ) → held x z ≡ 0)
unfolding submit
submit-fetch_task_external caller t r s w h run empty b =
    let s' = announce_task (enqueue_task caller t s) in
    let a = accepted_lem caller t s w h in
    let only : (x : ℕ) → held x s' ≡ is_that x t =
      λ x. omega (arith, a.holds x, AllEmpty-held s empty x) in
    let got_it =
      took_only s' t only (λ e. AllEmpty-held s' e t)
        (fetch_task_external_lem s' r a.valid (omega (arith, a.workers))) in
    (s', got_it.0, ground (arith, run), got_it.1, got_it.2)

append-nonempty : (ts : List ℕ) (t : ℕ) → ts ++ t ∷ [] ≢ []
append-nonempty [] t e = ground arith
append-nonempty (u ∷ ts) t e = ground arith

append-injective : (xs ys : List ℕ) (a b : ℕ) → xs ++ a ∷ [] ≡ ys ++ b ∷ [] → (xs ≡ ys) × (a ≡ b)
append-injective [] [] a b e = (refl, ground arith)
append-injective [] (y ∷ ys) a b e = absurd (append-nonempty ys b (sym (ground arith)))
append-injective (x ∷ xs) [] a b e = absurd (append-nonempty xs a (ground arith))
append-injective (x ∷ xs) (y ∷ ys) a b e =
    let r = append-injective xs ys a b (ground arith) in (ground (arith, r.0), r.1)

settle-last :
    (s : Store) (v t : ℕ) {r : Taken} (ts : List ℕ)
    → contents (s.queues v) ≡ ts ++ t ∷ []
    → Pops (s.queues v) r
    → (q : Queue) × (settle s v r ≡ took t (record s { queues = update s.queues v q }))
      × (contents q ≡ ts)
settle-last s v t ts e (Pops.none_left a) = absurd (append-nonempty ts t (sym e ∙ a))
settle-last s v t ts e (Pops.last_taken u q k c) =
    let same = append-injective ts (contents q) t u (sym e ∙ c) in
    (q, ap (λ x. took x (record s { queues = update s.queues v q })) (sym same.1), sym same.0)

fetch_task-own :
    (index r : ℕ) (s : Store) {t : ℕ} {z : Store}
    → settle s index (pop_bottom (s.queues index)) ≡ took t z
    → fetch_task index r s ≡ took t z
unfolding fetch_task
fetch_task-own index r s e = simp (e)

-- A running well-formed store with room: a worker whose submit is followed by its own `fetchTask` gets
-- that very task back, and its queue holds what it held before.
pub submit-fetch_task :
    (index t r : ℕ) (s : Store)
    → IsStore s
    → HasRoom (some index) s
    → s.run_state ≡ running
    → (s' : Store) × (z : Store) × (submit (some index) t s ≡ some s')
      × (fetch_task index r s' ≡ took t z)
      × (contents (z.queues index) ≡ contents (s.queues index))
unfolding submit announce_task enqueue_task
submit-fetch_task index t r s w (b, big, small) run =
    let s' = announce_task (enqueue_task (some index) t s) in
    let q = push_bottom (s.queues index) t in
    let pushed = push_bottom_lem (s.queues index) t (w.queue index b) big small in
    let here : s'.queues index ≡ q = ground arith in
    let own =
      settle-last s' index t (contents (s.queues index)) (ap contents here ∙ pushed.1)
        (pop_bottom_lem (s'.queues index) (subst IsQueue (sym here) pushed.0)) in
    let z = record s' { queues = update s'.queues index own.0 } in
    (s', z, ground (arith, run), fetch_task-own index r s' own.1, ground (arith, own.2))
