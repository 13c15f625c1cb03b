-- ===== src/Park/WakeOne.antt =====
-- What `notify_one` does where waiters of different kinds share the token, as the idle workers and
-- the callers of `waitIdle` do: `submit` calls it through `wakeOne`.
use thread_pool_pro.Base.{
  ℕ, zero, suc, ◌≡◌, ◌≢◌, ◌∙◌, refl, sym, ap, subst, Bool, false, arith, update,
}
use thread_pool_pro.Park.{
  Shared, WaiterPc, spinning, yielding, checking, loading, loaded, entering, blocked, WaiterMove,
  System, waiter_step, init, Reach, later,
}

-- Only waiter `i` differs, and it stands at `p`.
abbrev pub Moved : System → ℕ → WaiterPc → System → Type 0
Moved y i p z =
    (z.shared ≡ y.shared)
    × (z.waker ≡ y.waker)
    × (z.waiter i ≡ p)
    × ((j : ℕ) → j ≢ i → z.waiter j ≡ y.waiter j)

moves :
    {ones : Bool} {y : System} {p q : WaiterPc} (i : ℕ)
    → Reach ones y
    → y.waiter i ≡ p
    → WaiterMove y.shared (y.shared.holds i) p q
    → Reach ones (record y { waiter = update y.waiter i q })
moves {y} {q} i r e mv =
    later r (waiter_step i (subst (λ p. WaiterMove y.shared (y.shared.holds i) p q) (sym e) mv))

update_self : {A : Type 0} (f : ℕ → A) (i : ℕ) (a : A) → update f i a i ≡ a
update_self f i a = ground arith

-- A waiter whose predicate does not hold stops spinning.
spins_out :
    {ones : Bool} (k : ℕ) (y : System) (i : ℕ)
    → Reach ones y
    → y.waiter i ≡ spinning k
    → y.shared.holds i ≡ false
    → (z : System) × Reach ones z × Moved y i (yielding 0) z
spins_out zero y i r e f = (
  _,
  moves i r e WaiterMove.spin_over,
  (refl, refl, update_self y.waiter i (yielding 0), λ j d. ground arith),
)
spins_out (suc k) y i r e f =
    let (z, reach, (a, b, c, d)) =
      spins_out k (record y { waiter = update y.waiter i (spinning k) }) i
        (moves i r e (WaiterMove.spin_miss f)) (update_self y.waiter i (spinning k)) f in
    (z, reach, (a, b, c, λ j h. d j h ∙ ground arith))

-- It then goes to sleep.
falls_asleep :
    {ones : Bool} (y : System) (i : ℕ)
    → Reach ones y
    → y.waiter i ≡ yielding 0
    → y.shared.holds i ≡ false
    → (z : System) × Reach ones z × Moved y i (blocked y.shared.token) z
falls_asleep y i r e f =
    let t = y.shared.token in
    let w1 = update y.waiter i checking in
    let w2 = update w1 i loading in
    let w3 = update w2 i (loaded t) in
    let w4 = update w3 i (entering t) in
    let r1 = moves i r e WaiterMove.yield_over in
    let r2 = moves i r1 (update_self y.waiter i checking) (WaiterMove.check_miss f) in
    let r3 = moves i r2 (update_self w1 i loading) WaiterMove.load in
    let r4 = moves i r3 (update_self w2 i (loaded t)) (WaiterMove.recheck_miss f) in
    let r5 = moves i r4 (update_self w3 i (entering t)) (WaiterMove.block refl) in
    (_, r5, (refl, refl, update_self w4 i (blocked t), λ j d. ground arith))

pub sleeps :
    {ones : Bool} (k : ℕ) (y : System) (i : ℕ)
    → Reach ones y
    → y.waiter i ≡ spinning k
    → y.shared.holds i ≡ false
    → (z : System) × Reach ones z × Moved y i (blocked y.shared.token) z
sleeps k y i r e f =
    let (x, rx, (a, b, c, d)) = spins_out k y i r e f in
    let (z, rz, (a', b', c', d')) = falls_asleep x i rx c (ap (λ (s : Shared). s.holds i) a ∙ f) in
    (z, rz, (a' ∙ a, b' ∙ b, c' ∙ ap (λ (s : Shared). blocked s.token) a, λ j h. d' j h ∙ d j h))

-- What is so when two waiters are asleep and no waker is active.
abbrev Asleep : ℕ → ℕ → System → Type 0
Asleep i j y =
    (y.shared ≡ init.shared)
    × (y.waker ≡ init.waker)
    × (y.waiter i ≡ blocked 0)
    × (y.waiter j ≡ blocked 0)
