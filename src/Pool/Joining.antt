-- ===== src/Pool/Joining.antt =====
-- `ThreadPool::shutdown` as a whole call, with the wait for the workers, and the destructor that
-- calls it.
use thread_pool_pro.Base.{
  ℕ, ◌≡◌, ◌≢◌, inl, inr, refl, subst, ◌↔◌, Bool, true, false, Option, none, some, List, [], ◌∷◌,
  arith, count, ◌==◌, if◌then◌else◌, ℕ_discrete,
}
use thread_pool_pro.Pool.{
  running, Shared, ShutdownMode, finish_tasks, is_running, is_running_iff, request_shutdown,
}

-- What the loop over `workers_` does: the threads on which it waits, in order, whether it sets
-- `selfDetachRequested_`, and the `marketThread_` pointers that it leaves.
pub record Joined : Type 0 where
  pub waited : List ℕ
  pub self_detach : Bool
  pub threads : List (Option ℕ)

abbrev pub skip : Joined → Joined
skip j = record j { threads = none ∷ j.threads }

abbrev pub detach_self : Joined → Joined
detach_self j = record { waited = j.waited; self_detach = true; threads = none ∷ j.threads }

abbrev pub wait_for : ℕ → Joined → Joined
wait_for thread j = record {
  waited = thread ∷ j.waited;
  self_detach = j.self_detach;
  threads = none ∷ j.threads;
}

-- The loop, called by the thread `caller`; `marketThread_` names a thread by its id.
unfoldable pub join_workers : ℕ → List (Option ℕ) → Joined
join_workers caller [] = record { waited = []; self_detach = false; threads = [] }
join_workers caller (none ∷ threads) = skip (join_workers caller threads)
join_workers caller (some thread ∷ threads) =
    let rest = join_workers caller threads in
    if thread == caller then detach_self rest else wait_for thread rest

-- How the call ends: without having waited, or with the state that it has requested.
pub data Stopped : Type 0 where
  already : Stopped
  stopped : Shared → Joined → Stopped

-- `ThreadPool::shutdown`
unfoldable pub shutdown : ShutdownMode → ℕ → List (Option ℕ) → Shared → Stopped
shutdown mode caller threads s =
    if is_running s.run_state
    then stopped (request_shutdown mode s) (join_workers caller threads)
    else already

-- `ThreadPool::~ThreadPool`
unfoldable pub destroy_pool : ℕ → List (Option ℕ) → Shared → Stopped
destroy_pool caller threads s = shutdown finish_tasks caller threads s

abbrev pub leased : List (Option ℕ) → List ℕ
leased [] = []
leased (none ∷ threads) = leased threads
leased (some thread ∷ threads) = thread ∷ leased threads

abbrev pub AllGone : List (Option ℕ) → Type 0
AllGone [] = Unit {0}
AllGone (none ∷ threads) = AllGone threads
AllGone (some thread ∷ threads) = ⊥

-- What the loop has to do with the leased threads.
pub record Joins (caller : ℕ) (threads : List (Option ℕ)) (j : Joined) : Type 0 where
  pub others :
      (thread : ℕ) → thread ≢ caller → count thread j.waited ≡ count thread (leased threads)
  pub never_self : count caller j.waited ≡ 0
  pub detaches : (j.self_detach ≡ false) ↔ (count caller (leased threads) ≡ 0)
  pub gone : AllGone j.threads

own_thread :
    (caller thread : ℕ) (threads : List (Option ℕ)) (rest : Joined)
    → thread ≡ caller
    → Joins caller threads rest
    → Joins caller (some thread ∷ threads) (detach_self rest)
own_thread caller thread threads rest e j = record {
  others = λ t d. ground (arith, e, d, j.others t d);
  never_self = j.never_self;
  detaches = (λ f. absurd (ground arith), λ f. absurd (ground (arith, e, f)));
  gone = j.gone;
}

other_thread :
    (caller thread : ℕ) (threads : List (Option ℕ)) (rest : Joined)
    → thread ≢ caller
    → Joins caller threads rest
    → Joins caller (some thread ∷ threads) (wait_for thread rest)
other_thread caller thread threads rest d j = record {
  others = λ t e. ground (arith, j.others t e);
  never_self = ground (arith, d, j.never_self);
  detaches = (λ f. ground (arith, d, j.detaches.0 f), λ f. j.detaches.1 (ground (arith, d, f)));
  gone = j.gone;
}

join_workers-Joins :
    (caller : ℕ) (threads : List (Option ℕ)) → Joins caller threads (join_workers caller threads)
unfolding join_workers
join_workers-Joins caller [] = record {
  others = λ t d. refl;
  never_self = refl;
  detaches = (λ e. refl, λ e. refl);
  gone = tt;
}
join_workers-Joins caller (none ∷ threads) =
    let j = join_workers-Joins caller threads in
    record { others = j.others; never_self = j.never_self; detaches = j.detaches; gone = j.gone }
join_workers-Joins caller (some thread ∷ threads) =
    let rest = join_workers caller threads in
    let j = join_workers-Joins caller threads in
    elim (ℕ_discrete thread caller) [
      | yes e ↦
          subst (Joins caller (some thread ∷ threads)) (ground (arith, e))
            (own_thread caller thread threads rest e j)
      | no d ↦
          subst (Joins caller (some thread ∷ threads)) (ground (arith, d))
            (other_thread caller thread threads rest d j)
    ]

-- How `shutdown` ends.
pub data Stops (mode : ShutdownMode) (caller : ℕ) (threads : List (Option ℕ)) (s : Shared)
    : Stopped → Type 0 where
  first :
      s.run_state ≡ running
      → (j : Joined) → Joins caller threads j
      → Stops mode caller threads s (stopped (request_shutdown mode s) j)
  later : s.run_state ≢ running → Stops mode caller threads s already

-- `shutdown`, by any thread and also from the destructor: on a running pool it waits for each
-- leased thread other than the caller as often as it is leased and never for the caller, sets the
-- flag exactly when the caller is one of them, and leaves no thread leased. When the pool is not
-- running, it waits for no thread, and nor does the destructor, whoever has still to wait for
-- them.
pub shutdown_lem :
    (mode : ShutdownMode) (caller : ℕ) (threads : List (Option ℕ)) (s : Shared)
    → Stops mode caller threads s (shutdown mode caller threads s)
      × Stops finish_tasks caller threads s (destroy_pool caller threads s)
unfolding shutdown destroy_pool
shutdown_lem mode caller threads s =
    let j = join_workers-Joins caller threads in
    elim (is_running_iff s.run_state) [
      | inl (e, r) ↦ (
        subst (Stops mode caller threads s) (ground (arith, e))
            (first r (join_workers caller threads) j),
        subst (Stops finish_tasks caller threads s) (ground (arith, e))
            (first r (join_workers caller threads) j),
      )
      | inr (e, r) ↦ (
        subst (Stops mode caller threads s) (ground (arith, e)) (later r),
        subst (Stops finish_tasks caller threads s) (ground (arith, e)) (later r),
      )
    ]
