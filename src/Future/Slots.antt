-- ===== src/Future/Slots.antt =====
-- What the flag and the slots of the shared state hold, and what the caller has seen of them.
use thread_pool_pro.Base.{ℕ, ◌≡◌, ◌≢◌, ap, ◌⊎◌, inl, inr, Option, none, some, arith}
use thread_pool_pro.Future.{
  Outcome, returns, throws, ResultState, ClosurePc, queued, stored, published, dropped, FuturePc,
  woken, leaving, ClosureMove, run, publish, drop, FutureMove, get, wake, rethrow, move_value,
  destroy,
}

-- The slots hold the outcome `o`.
abbrev pub Stores : Option ℕ → Option ℕ → Outcome → Type 0
Stores exception value (returns v) = (exception ≡ none) × (value ≡ some v)
Stores exception value (throws e) = exception ≡ some e

-- What the flag and the slots hold by the time the closure has come so far.
abbrev pub Filled : ℕ → Option ℕ → Option ℕ → ClosurePc → Type 0
Filled ready exception value queued = (ready ≡ 0) × (exception ≡ none) × (value ≡ none)
Filled ready exception value (stored o) = (ready ≡ 0) × Stores exception value o
Filled ready exception value (published o) = Stores exception value o
Filled ready exception value (ClosurePc.deleting o) = Stores exception value o
Filled ready exception value (ClosurePc.done o) = Stores exception value o
Filled ready exception value dropped = ready ≡ 0

abbrev pub FilledState : ResultState → ClosurePc → Type 0
FilledState s c = Filled s.ready s.exception s.value c

-- The closure has published `o`.
abbrev pub Published : ClosurePc → Outcome → Type 0
Published c o = (c ≡ published o) ⊎ (c ≡ ClosurePc.deleting o) ⊎ (c ≡ ClosurePc.done o)

abbrev pub HasRun : ClosurePc → Type 0
HasRun (published o) = Unit {0}
HasRun (ClosurePc.deleting o) = Unit {0}
HasRun (ClosurePc.done o) = Unit {0}
HasRun _ = ⊥

-- What the caller has seen.
abbrev pub Seen : ClosurePc → FuturePc → Type 0
Seen c woken = HasRun c
Seen c (leaving (some o)) = Published c o
Seen c (FuturePc.deleting (some o)) = Published c o
Seen c (FuturePc.done (some o)) = Published c o
Seen c _ = Unit {0}

Published-closure :
    {s s' : ResultState} {c c' : ClosurePc} (o : Outcome)
    → ClosureMove s c s' c'
    → Published c o
    → Published c' o
Published-closure o (run x) h = ground arith
Published-closure o publish h = ground arith
Published-closure o (ClosureMove.release_last e) h = ground arith
Published-closure o (ClosureMove.release e) h = ground arith
Published-closure o ClosureMove.delete_this h = ground arith
Published-closure o drop h = ground arith

HasRun-closure :
    {s s' : ResultState} {c c' : ClosurePc} → ClosureMove s c s' c' → HasRun c → HasRun c'
HasRun-closure (run x) h = absurd h
HasRun-closure publish h = tt
HasRun-closure (ClosureMove.release_last e) h = tt
HasRun-closure (ClosureMove.release e) h = tt
HasRun-closure ClosureMove.delete_this h = tt
HasRun-closure drop h = absurd h

pub Seen-closure :
    {s s' : ResultState} {c c' : ClosurePc} (f : FuturePc)
    → ClosureMove s c s' c'
    → Seen c f
    → Seen c' f
Seen-closure woken mv h = HasRun-closure mv h
Seen-closure (leaving (some o)) mv h = Published-closure o mv h
Seen-closure (FuturePc.deleting (some o)) mv h = Published-closure o mv h
Seen-closure (FuturePc.done (some o)) mv h = Published-closure o mv h
Seen-closure _ mv h = tt

pub Filled-closure :
    {s s' : ResultState} {c c' : ClosurePc}
    → ClosureMove s c s' c'
    → FilledState s c
    → FilledState s' c'
Filled-closure (run (returns v)) h = ground arith
Filled-closure (run (throws e)) h = ground arith
Filled-closure (publish {o = returns v}) h = ground arith
Filled-closure (publish {o = throws e}) h = ground arith
Filled-closure (ClosureMove.release_last {o = returns v} e) h = ground arith
Filled-closure (ClosureMove.release_last {o = throws x} e) h = ground arith
Filled-closure (ClosureMove.release {o = returns v} e) h = ground arith
Filled-closure (ClosureMove.release {o = throws x} e) h = ground arith
Filled-closure (ClosureMove.delete_this {o = returns v}) h = ground arith
Filled-closure (ClosureMove.delete_this {o = throws x}) h = ground arith
Filled-closure drop h = h.0

-- A future's move leaves the slots alone.
pub Filled-future :
    {s s' : ResultState} {f f' : FuturePc} (c : ClosurePc)
    → FutureMove s f s' f'
    → FilledState s c
    → FilledState s' c
Filled-future c get h = h
Filled-future c (wake e) h = h
Filled-future c (rethrow e) h = h
Filled-future c (move_value e g) h = h
Filled-future c destroy h = h
Filled-future c (FutureMove.release_last e) h = h
Filled-future c (FutureMove.release e) h = h
Filled-future c FutureMove.delete_this h = h

-- The flag is up only after a closure that has run.
ready-HasRun : (s : ResultState) (c : ClosurePc) → FilledState s c → s.ready ≢ 0 → HasRun c
ready-HasRun s queued a h = absurd (h a.0)
ready-HasRun s (stored o) a h = absurd (h a.0)
ready-HasRun s dropped a h = absurd (h a)
ready-HasRun s (published o) a h = tt
ready-HasRun s (ClosurePc.deleting o) a h = tt
ready-HasRun s (ClosurePc.done o) a h = tt

-- The slots determine the outcome.
Stores-returns :
    (exception value : Option ℕ) (o : Outcome) (v : ℕ)
    → Stores exception value o
    → exception ≡ none
    → value ≡ some v
    → o ≡ returns v
Stores-returns exception value (returns w) v a e h = ground arith
Stores-returns exception value (throws x) v a e h = cc

Stores-throws :
    (exception value : Option ℕ) (o : Outcome) (x : ℕ)
    → Stores exception value o
    → exception ≡ some x
    → o ≡ throws x
Stores-throws exception value (returns w) x a e = cc (a.0)
Stores-throws exception value (throws y) x a e = ground arith

-- A closure that has run has published what the slots hold.
HasRun-Published :
    (s : ResultState) (c : ClosurePc) (o : Outcome)
    → HasRun c
    → FilledState s c
    → ((x : Outcome) → Stores s.exception s.value x → x ≡ o)
    → Published c o
HasRun-Published s queued o r a f = absurd r
HasRun-Published s (stored x) o r a f = absurd r
HasRun-Published s dropped o r a f = absurd r
HasRun-Published s (published x) o r a f = inl (ap published (f x a))
HasRun-Published s (ClosurePc.deleting x) o r a f = inr (inl (ap ClosurePc.deleting (f x a)))
HasRun-Published s (ClosurePc.done x) o r a f = inr (inr (ap ClosurePc.done (f x a)))

pub Seen-future :
    {s s' : ResultState} {f f' : FuturePc} (c : ClosurePc)
    → FutureMove s f s' f'
    → FilledState s c
    → Seen c f
    → Seen c f'
Seen-future c get a h = tt
Seen-future {s} c (wake e) a h = ready-HasRun s c a e
Seen-future {s} c (rethrow {e} q) a h =
    HasRun-Published s c (throws e) h a (λ x y. Stores-throws s.exception s.value x e y q)
Seen-future {s} c (move_value {v} e g) a h =
    HasRun-Published s c (returns v) h a (λ x y. Stores-returns s.exception s.value x v y e g)
Seen-future c destroy a h = tt
Seen-future c (FutureMove.release_last {r = none} e) a h = tt
Seen-future c (FutureMove.release_last {r = some o} e) a h = h
Seen-future c (FutureMove.release {r = none} e) a h = tt
Seen-future c (FutureMove.release {r = some o} e) a h = h
Seen-future c (FutureMove.delete_this {r = none}) a h = tt
Seen-future c (FutureMove.delete_this {r = some o}) a h = h
