-- ===== src/Examples/Parking.antt =====
-- Waiters that sleep on the token.
use thread_pool_pro.Base.{ℕ, ◌⊎◌, refl, true, false, arith, ap, update, ◌<◌, ◌^◌}
use thread_pool_pro.Park.{
  Shared, WaiterPc, WakerPc, System, change, init, Reach, start, later, wait_spin_iterations,
}
use thread_pool_pro.Park.Wakeups.{Some, no_lost_wakeup}
use thread_pool_pro.Park.WakeOne.{Moved, sleeps}

-- Waiter 0 sleeps.
asleep_one : (y : System) × Reach false y × Moved init 0 (WaiterPc.blocked 0) y
asleep_one = sleeps wait_spin_iterations init 0 start refl refl

-- Then its predicate comes to hold.
abbrev changed : System
changed = record {
  shared = record (asleep_one.0.shared) { holds = λ w. true };
  waiter = asleep_one.0.waiter;
  waker = update asleep_one.0.waker 0 WakerPc.changed;
}

changed-Reach : Reach false changed
changed-Reach =
    later asleep_one.1 (change 0 (λ w. true) (ap (λ (f : ℕ → WakerPc). f 0) asleep_one.2.1))

few_bumps : changed.shared.bumps < 2 ^ 32
few_bumps = omega (arith, ap (λ (s : Shared). s.bumps) asleep_one.2.0)

no_lost_wakeup_example : Some changed.waker WakerPc.changed ⊎ Some changed.waker WakerPc.bumped
no_lost_wakeup_example = no_lost_wakeup 0 0 changed-Reach few_bumps asleep_one.2.2 refl
