-- ===== src/Park/Wakeups.antt =====
-- With `notify_all` alone, no waiter sleeps on while its predicate holds.
use thread_pool_pro.Base.{
  ℕ, ◌+◌, ◌^◌, ◌≤◌, ◌<◌, ◌≡◌, ◌⊎◌, inl, inr, refl, subst, Bool, true, false, arith, update,
  ℕ_discrete,
}
use thread_pool_pro.Fetch.{u32}
use thread_pool_pro.Park.{
  Shared, WaiterPc, loaded, entering, blocked, WaiterMove, WakerPc, changed, bumped, System,
  notified, Step, waiter_step, change, weaken, bump, notify_all, notify_one, Reach, start, later,
}

-- Some waker stands at `p`.
abbrev pub Some : (ℕ → WakerPc) → WakerPc → Type 0
Some waker p = (i : ℕ) × (waker i ≡ p)

-- What the waiter's observed token says, where the token is `token` and its predicate `now`.
abbrev Safe : ℕ → Bool → (ℕ → WakerPc) → WaiterPc → Type 0
Safe token now waker (loaded o) = o ≤ token
Safe token now waker (entering o) = (o ≤ token) × (now ≡ true → Some waker changed ⊎ (o < token))
Safe token now waker (blocked o) =
    (o ≤ token) × (now ≡ true → Some waker changed ⊎ ((o < token) × Some waker bumped))
Safe token now waker _ = Unit {0}

module _ (token : ℕ) (now : Bool) (waker : ℕ → WakerPc) where
  Safe-move :
      {s : Shared} {p q : WaiterPc}
      → s.token ≡ token
      → WaiterMove s now p q
      → Safe token now waker p
      → Safe token now waker q
  Safe-move e WaiterMove.load h = omega (arith, e)
  Safe-move e (WaiterMove.recheck_miss {o} f) h = (h, λ g. absurd (ground arith))
  Safe-move e (WaiterMove.block {o} f) h =
      (h.0, λ g. elim (h.1 g) [ inl c ↦ inl c | inr c ↦ absurd (omega (arith, c, e, f)) ])
  Safe-move e (WaiterMove.spin_hit f) h = tt
  Safe-move e (WaiterMove.spin_miss f) h = tt
  Safe-move e WaiterMove.spin_over h = tt
  Safe-move e (WaiterMove.yield_hit f) h = tt
  Safe-move e (WaiterMove.yield_miss f) h = tt
  Safe-move e WaiterMove.yield_over h = tt
  Safe-move e (WaiterMove.check_hit f) h = tt
  Safe-move e (WaiterMove.check_miss f) h = tt
  Safe-move e (WaiterMove.recheck_hit f) h = tt
  Safe-move e (WaiterMove.pass f) h = tt
  Safe-move e WaiterMove.again h = tt

  -- A waker changes what a predicate reads.
  Safe-change :
      (after : Bool) (i : ℕ) (p : WaiterPc)
      → Safe token now waker p
      → Safe token after (update waker i changed) p
  Safe-change after i (loaded o) h = h
  Safe-change after i (entering o) h = (h.0, λ g. inl (i, ground arith))
  Safe-change after i (blocked o) h = (h.0, λ g. inl (i, ground arith))
  Safe-change after i _ h = tt

  Safe-weaken :
      (after : Bool) (p : WaiterPc)
      → (after ≡ true → now ≡ true)
      → Safe token now waker p
      → Safe token after waker p
  Safe-weaken after (loaded o) f h = h
  Safe-weaken after (entering o) f h = (h.0, λ g. h.1 (f g))
  Safe-weaken after (blocked o) f h = (h.0, λ g. h.1 (f g))
  Safe-weaken after _ f h = tt

  -- A waker bumps the token.
  Safe-bump :
      (i : ℕ) (p : WaiterPc)
      → Safe token now waker p
      → Safe (token + 1) now (update waker i bumped) p
  Safe-bump i (loaded o) h = omega arith
  Safe-bump i (entering o) h = (omega arith, λ g. inr (omega arith))
  Safe-bump i (blocked o) h = (omega arith, λ g. inr (omega arith, (i, ground arith)))
  Safe-bump i _ h = tt

  -- A waker notifies all waiters.
  Safe-notify :
      (i : ℕ) (p : WaiterPc)
      → waker i ≡ bumped
      → Safe token now waker p
      → Safe token now (update waker i WakerPc.idle) (notified p)
  Safe-notify i (loaded o) e h = h
  Safe-notify i (entering o) e h =
      (h.0, λ g. elim (h.1 g) [ inl c ↦ inl (c.0, ground (arith, c.1)) | inr c ↦ inr c ])
  Safe-notify i (blocked o) e h =
      (h.0, λ g. elim (h.1 g) [ inl c ↦ inl (c.0, ground (arith, c.1)) | inr c ↦ inr c.0 ])
  Safe-notify i _ e h = tt

abbrev SafeFor : System → ℕ → Type 0
SafeFor y w = Safe y.shared.token (y.shared.holds w) y.waker (y.waiter w)

record Inv (y : System) : Type 0 where
  counted : y.shared.token ≡ y.shared.bumps
  safe : (w : ℕ) → SafeFor y w

Step-bumps : {ones : Bool} {y z : System} → Step ones y z → y.shared.bumps ≤ z.shared.bumps
Step-bumps (waiter_step i mv) = omega arith
Step-bumps (change i holds e) = omega arith
Step-bumps (weaken holds f) = omega arith
Step-bumps (bump i e) = omega arith
Step-bumps (notify_all i e) = omega arith
Step-bumps (notify_one i w o e) = omega arith

Step-Inv : {y z : System} → Step false y z → z.shared.bumps < 2 ^ 32 → Inv y → Inv z
Step-Inv {y} (waiter_step i {p} mv) few v = record {
  counted = v.counted;
  safe = λ w. elim (ℕ_discrete i w) [
    | yes k ↦
        let here : p ≡ update y.waiter i p w = ground (arith, k) in
        let s = Safe-move y.shared.token (y.shared.holds i) y.waker refl mv (v.safe i) in
        subst (Safe y.shared.token (y.shared.holds w) y.waker) here
          (subst (λ n. Safe y.shared.token (y.shared.holds n) y.waker p) k s)
    | no k ↦
        let there : y.waiter w ≡ update y.waiter i p w = ground (arith, k) in
        subst (Safe y.shared.token (y.shared.holds w) y.waker) there (v.safe w)
  ];
}
Step-Inv {y} (change i holds e) few v = record {
  counted = v.counted;
  safe = λ w.
      Safe-change y.shared.token (y.shared.holds w) y.waker (holds w) i (y.waiter w) (v.safe w);
}
Step-Inv {y} (weaken holds f) few v = record {
  counted = v.counted;
  safe = λ w.
      Safe-weaken y.shared.token (y.shared.holds w) y.waker (holds w) (y.waiter w) (f w) (v.safe w);
}
Step-Inv {y} (bump i e) few v =
    let next : y.shared.token + 1 ≡ u32 (y.shared.token + 1) = omega (arith, v.counted) in
    record {
      counted = omega (arith, v.counted);
      safe = λ w.
          subst (λ t. Safe t (y.shared.holds w) (update y.waker i bumped) (y.waiter w)) next
            (Safe-bump y.shared.token (y.shared.holds w) y.waker i (y.waiter w) (v.safe w));
    }
Step-Inv {y} (notify_all i e) few v = record {
  counted = v.counted;
  safe = λ w. Safe-notify y.shared.token (y.shared.holds w) y.waker i (y.waiter w) e (v.safe w);
}
Step-Inv (notify_one i w o e) few v = absurd (ground (arith, o))

Reach-Inv : {y : System} → Reach false y → y.shared.bumps < 2 ^ 32 → Inv y
Reach-Inv start few = record { counted = refl; safe = λ w. tt }
Reach-Inv (later {y} r st) few = Step-Inv st few (Reach-Inv r (omega (arith, Step-bumps st)))

-- With any number of waiters, each with a predicate of its own, and of wakers that all call
-- `notify_all`, while the token has been bumped fewer than 2 ^ 32 times: if a waiter is blocked
-- though its predicate holds, some waker has still to notify. No wake-up is lost.
pub no_lost_wakeup :
    {y : System} (w o : ℕ)
    → Reach false y
    → y.shared.bumps < 2 ^ 32
    → y.waiter w ≡ blocked o
    → y.shared.holds w ≡ true
    → Some y.waker changed ⊎ Some y.waker bumped
no_lost_wakeup {y} w o r few asleep now =
    let s : Safe y.shared.token (y.shared.holds w) y.waker (blocked o) =
      subst (Safe y.shared.token (y.shared.holds w) y.waker) asleep ((Reach-Inv r few).safe w) in
    elim (s.1 now) [ inl c ↦ inl c | inr c ↦ inr c.1 ]
