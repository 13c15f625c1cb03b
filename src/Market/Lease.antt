-- ===== src/Market/Lease.antt =====
-- ThreadMarket::lease and returnToIdle: every thread is in one place.
use thread_pool_pro.Base.{
  ℕ, zero, suc, ◌+◌, ◌-◌, ◌≤◌, ◌≡◌, refl, ap, ◌⊎◌, inr, List, [], ◌∷◌, ◌++◌, arith, length,
  length-append, count, count-append, ltb, leb, if◌then◌else◌, ◌&&◌,
}
use thread_pool_pro.Market.{Market, take_idle, spawn, lease, return_to_idle, instance_new}

take_idle-count :
    (n t : ℕ) (idle out : List ℕ)
    → count t (take_idle n idle out).0 + count t (take_idle n idle out).1
      ≡ count t out + count t idle
unfolding take_idle
take_idle-count n t [] out = refl
take_idle-count n t (x ∷ idle) out =
    ground (arith, take_idle-count n t idle (out ++ x ∷ []), count-append t out (x ∷ []))

take_idle-length :
    (n : ℕ) (idle out : List ℕ)
    → length out ≤ n
    → (length (take_idle n idle out).0 ≤ n)
      × (length (take_idle n idle out).0 + length (take_idle n idle out).1
          ≡ length out + length idle)
      × ((length (take_idle n idle out).0 ≡ n) ⊎ (length (take_idle n idle out).1 ≡ 0))
unfolding take_idle
take_idle-length n [] out h = (h, refl, inr refl)
take_idle-length n (x ∷ idle) out h =
    ground (arith, take_idle-length n idle (out ++ x ∷ []), length-append out (x ∷ []))

-- The numbers from `lo`, `n` of them, each once.
abbrev pub in_range : ℕ → ℕ → ℕ → ℕ
in_range t lo n = if leb lo t && ltb t (lo + n) then 1 else 0

spawn_lem :
    (n next t : ℕ) (out : List ℕ)
    → (count t (spawn n next out).0 ≡ count t out + in_range t next n)
      × (length (spawn n next out).0 ≡ length out + n)
      × ((spawn n next out).1 ≡ next + n)
unfolding spawn
spawn_lem zero next t out = ground arith
spawn_lem (suc n) next t out = ground (
  arith,
  spawn_lem n (next + 1) t (out ++ next ∷ []),
  count-append t out (next ∷ []),
  length-append out (next ∷ []),
)

-- What one call of `lease` does: it hands out as many threads as were asked for, spawns only what
-- the idle threads do not cover, and takes every other thread from the idle ones.
pub lease_lem :
    (n t : ℕ) (m : Market)
    → (length (lease n m).0 ≡ n)
      × ((lease n m).1.spawned ≡ m.spawned + (n - length m.idle))
      × (length (lease n m).1.idle ≡ length m.idle - n)
      × (count t (lease n m).0 + count t (lease n m).1.idle
          ≡ count t m.idle + in_range t m.spawned (n - length m.idle))
unfolding lease
lease_lem n t m = (
  omega (arith, size.0, made.1),
  omega (arith, size.0, size.1, size.2, made.2),
  omega (arith, size.0, size.1, size.2),
  omega (arith, made.0, take_idle-count n t m.idle [], ap (in_range t m.spawned) short),
)
  where
    found : List ℕ
    found = (take_idle n m.idle []).0

    size :
        (length found ≤ n)
        × (length found + length (take_idle n m.idle []).1 ≡ length m.idle)
        × ((length found ≡ n) ⊎ (length (take_idle n m.idle []).1 ≡ 0))
    size = let t = take_idle-length n m.idle [] (omega arith) in (t.0, omega (arith, t.1), t.2)

    made :
        (count t (spawn (n - length found) m.spawned found).0
          ≡ count t found + in_range t m.spawned (n - length found))
        × (length (spawn (n - length found) m.spawned found).0 ≡ length found + (n - length found))
        × ((spawn (n - length found) m.spawned found).1 ≡ m.spawned + (n - length found))
    made = spawn_lem (n - length found) m.spawned t found

    short : n - length found ≡ n - length m.idle
    short = omega (arith, size.0, size.1, size.2)

-- The market and the threads that are leased out, after any sequence of leases and returns; a
-- thread returns itself, so it is one of those that are leased out.
pub data Use : Market → List ℕ → Type 0 where
  fresh : Use instance_new []
  leases :
      {m : Market} {held : List ℕ} (n : ℕ) → Use m held → Use (lease n m).1 ((lease n m).0 ++ held)
  returns :
      {m : Market} {held : List ℕ} (before : List ℕ) (t : ℕ) (others : List ℕ)
      → held ≡ before ++ t ∷ others
      → Use m held
      → Use (return_to_idle t m) (before ++ others)

-- After any sequence of leases and returns, each thread that was spawned is in one place: idle, or
-- leased out once.
pub one_place :
    {m : Market} {held : List ℕ}
    → Use m held
    → (t : ℕ) → count t m.idle + count t held ≡ (if ltb t m.spawned then 1 else 0)
unfolding return_to_idle
one_place fresh t = ground arith
one_place (leases {m} {held} n u) t =
    ground (arith, one_place u t, lease_lem n t m, count-append t (lease n m).0 held)
one_place (returns {m} {held} before x others e u) t = ground (
  arith,
  one_place u t,
  ap (count t) e,
  count-append t before (x ∷ others),
  count-append t before others,
)
