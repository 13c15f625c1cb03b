-- ===== src/Market/Handshake/Jobs.antt =====
-- What each move of the thread, or of a pool, does to the jobs.
use thread_pool_pro.Base.{
  ℕ, suc, ◌+◌, ◌-◌, ◌*◌, ◌≤◌, ◌<◌, ◌≡◌, ◌∙◌, refl, ap, subst, ◌⊎◌, inl, inr, Bool, true, false,
  some, arith, count, if◌then◌else◌, ◌==◌,
}
use thread_pool_pro.Deque.Span.{weight}
use thread_pool_pro.Market.Handshake.{
  Thread, LoopPc, waiting, woken, working, listed, LoopMove, ClientPc, away, leased, loaded,
  assigned, done, ClientMove,
}
use thread_pool_pro.Market.Handshake.Ownership.{holds, Owned}

-- 1 while a job that was handed over has not been run.
abbrev pub unrun : Bool → LoopPc → ℕ
unrun false p = 0
unrun true waiting = 1
unrun true woken = 1
unrun true working = 1
unrun true listed = 1
unrun true _ = 0

-- The jobs named `x` that the loop, or a pool, has still to get run.
abbrev pub in_loop : ℕ → Thread → LoopPc → ℕ
in_loop x s p = unrun s.has_work p * weight x s.job

abbrev pub in_client : ℕ → ClientPc → ℕ
in_client x (loaded t) = if t == x then 1 else 0
in_client x _ = 0

-- The job `t` of a pool is in the thread's hands, or has been run.
abbrev pub InHand : ℕ → Thread → LoopPc → Type 0
InHand t s p = (0 < count t s.ran) ⊎ ((unrun s.has_work p ≡ 1) × (s.job ≡ some t))

abbrev pub ClientOk : Thread → LoopPc → ClientPc → Type 0
ClientOk s p (loaded t) = s.job ≡ some t
ClientOk s p (assigned t) = InHand t s p
ClientOk s p (done t) = 0 < count t s.ran
ClientOk s p _ = Unit {0}

abbrev pub Ready : Thread → LoopPc → Type 0
Ready s p = unrun s.has_work p ≡ 1 → (t : ℕ) × (s.job ≡ some t)

InHand-loop :
    {s s' : Thread} {p p' : LoopPc} (held t : ℕ)
    → LoopMove s p s' p'
    → Owned s p held
    → InHand t s p
    → InHand t s' p'
InHand-loop held t (LoopMove.wake e) o (inl h) = inl h
InHand-loop held t (LoopMove.wake e) o (inr h) = inr (ground arith, h.1)
InHand-loop held t (LoopMove.stop e) o h = absurd (ground arith)
InHand-loop held t (LoopMove.go_on e) o (inl h) = inl h
InHand-loop held t (LoopMove.go_on e) o (inr h) = inr (ground arith, h.1)
InHand-loop held t (LoopMove.execute {task} e) o (inl h) = inl (ground arith)
InHand-loop held t (LoopMove.execute {task} e) o (inr h) = inl (ground arith)
InHand-loop held t LoopMove.clear o (inl h) = inl h
InHand-loop held t LoopMove.clear o (inr h) = absurd (ground arith)
InHand-loop held t LoopMove.flip o (inl h) = inl h
InHand-loop held t LoopMove.flip o (inr h) = absurd (ground arith)
InHand-loop held t LoopMove.return_to_idle o (inl h) = inl h
InHand-loop held t LoopMove.return_to_idle o (inr h) = absurd (ground arith)
InHand-loop held t LoopMove.notify o (inl h) = inl h
InHand-loop held t LoopMove.notify o (inr h) = inr (ground arith, h.1)

done-loop :
    {s s' : Thread} {p p' : LoopPc} (t : ℕ)
    → LoopMove s p s' p'
    → 0 < count t s.ran
    → 0 < count t s'.ran
done-loop t (LoopMove.execute e) h = ground arith
done-loop t mv h = h

job-loop :
    {s s' : Thread} {p p' : LoopPc} (held : ℕ)
    → LoopMove s p s' p'
    → Owned s p (suc held)
    → s'.job ≡ s.job
job-loop held LoopMove.clear o = absurd (ground arith)
job-loop held mv o = refl

-- A move of the loop.
pub ClientOk-loop :
    {s s' : Thread} {p p' : LoopPc} (held : ℕ) (c : ClientPc)
    → LoopMove s p s' p'
    → holds c ≤ held
    → Owned s p held
    → ClientOk s p c
    → ClientOk s' p' c
ClientOk-loop {s} {p} held (loaded t) mv g o h =
    let some_held : held ≡ suc (held - 1) = omega arith in
    job-loop (held - 1) mv (subst (Owned s p) some_held o) ∙ h
ClientOk-loop held (assigned t) mv g o h = InHand-loop held t mv o h
ClientOk-loop held (done t) mv g o h = done-loop t mv h
ClientOk-loop held _ mv g o h = tt

-- A move of another pool, which may be about to assign.
pub ClientOk-other :
    {s s' : Thread} {q q' : ClientPc} (p : LoopPc) (held : ℕ) (c : ClientPc)
    → ClientMove s q s' q'
    → holds c + holds q ≤ held
    → Owned s p held
    → ClientOk s p c
    → ClientOk s' p c
ClientOk-other p held (loaded u) (ClientMove.load t) g o h = absurd (ground arith)
ClientOk-other p held (assigned u) (ClientMove.load t) g o (inl h) = inl h
ClientOk-other p held (assigned u) (ClientMove.load t) g o (inr h) = absurd (ground arith)
ClientOk-other p held (loaded u) ClientMove.publish g o h = h
ClientOk-other p held (assigned u) ClientMove.publish g o (inl h) = inl h
ClientOk-other p held (assigned u) ClientMove.publish g o (inr h) = inr (ground arith, h.1)
ClientOk-other p held (loaded u) (ClientMove.lease e) g o h = h
ClientOk-other p held (assigned u) (ClientMove.lease e) g o h = h
ClientOk-other p held (loaded u) (ClientMove.wait_done e) g o h = h
ClientOk-other p held (assigned u) (ClientMove.wait_done e) g o h = h
ClientOk-other p held (loaded u) ClientMove.leave g o h = h
ClientOk-other p held (assigned u) ClientMove.leave g o h = h
ClientOk-other p held (done u) (ClientMove.lease e) g o h = h
ClientOk-other p held (done u) mv g o h = h
ClientOk-other p held away mv g o h = tt
ClientOk-other p held leased mv g o h = tt

-- The move of the pool itself.
pub ClientOk-own :
    {s s' : Thread} {c c' : ClientPc} (p : LoopPc) (others : ℕ)
    → ClientMove s c s' c'
    → Owned s p (holds c + others)
    → ClientOk s p c
    → ClientOk s' p c'
ClientOk-own p others (ClientMove.lease e) o h = tt
ClientOk-own p others (ClientMove.load t) o h = refl
ClientOk-own p others ClientMove.publish o h = inr (ground arith, h)
ClientOk-own p others (ClientMove.wait_done e) o (inl h) = h
ClientOk-own p others (ClientMove.wait_done e) o (inr h) = absurd (ground arith)
ClientOk-own p others ClientMove.leave o h = tt

pub Ready-loop :
    {s s' : Thread} {p p' : LoopPc} (held : ℕ)
    → LoopMove s p s' p'
    → Owned s p held
    → Ready s p
    → Ready s' p'
Ready-loop held (LoopMove.wake e) o r = λ h. r (ground arith)
Ready-loop held (LoopMove.stop e) o r = absurd (ground arith)
Ready-loop held (LoopMove.go_on e) o r = λ h. r (ground arith)
Ready-loop held (LoopMove.execute e) o r = λ h. absurd (ground arith)
Ready-loop held LoopMove.clear o r = λ h. absurd (ground arith)
Ready-loop held LoopMove.flip o r = λ h. absurd (ground arith)
Ready-loop held LoopMove.return_to_idle o r = λ h. absurd (ground arith)
Ready-loop held LoopMove.notify o r = λ h. r (ground arith)

pub Ready-client :
    {s s' : Thread} {c c' : ClientPc} (p : LoopPc)
    → ClientMove s c s' c'
    → ClientOk s p c
    → Ready s p
    → Ready s' p
Ready-client p (ClientMove.lease e) k r = r
Ready-client p (ClientMove.load t) k r = λ h. (t, refl)
Ready-client p (ClientMove.publish {task}) k r = λ h. (task, k)
Ready-client p (ClientMove.wait_done e) k r = r
Ready-client p ClientMove.leave k r = r

-- The account of the jobs named `x`, where one pool has the share `c` and the others `rest`.
abbrev pub Account : ℕ → Thread → LoopPc → ℕ → Type 0
Account x s p rest = count x s.assigned ≡ count x s.ran + rest + in_loop x s p

pub Account-loop :
    {s s' : Thread} {p p' : LoopPc} (x held rest : ℕ)
    → LoopMove s p s' p'
    → Owned s p held
    → Account x s p rest
    → Account x s' p' rest
Account-loop x held rest (LoopMove.wake e) o a = ground arith
Account-loop x held rest (LoopMove.stop e) o a = absurd (ground arith)
Account-loop x held rest (LoopMove.go_on e) o a = ground arith
Account-loop x held rest (LoopMove.execute {task} e) o a = ground (arith, ap (weight x) e)
Account-loop x held rest LoopMove.clear o a = ground arith
Account-loop x held rest LoopMove.flip o a = ground arith
Account-loop x held rest LoopMove.return_to_idle o a = ground arith
Account-loop x held rest LoopMove.notify o a = ground arith

pub Account-client :
    {s s' : Thread} {c c' : ClientPc} (x : ℕ) (p : LoopPc) (others rest : ℕ)
    → ClientMove s c s' c'
    → Owned s p (holds c + others)
    → ClientOk s p c
    → Account x s p (in_client x c + rest)
    → Account x s' p (in_client x c' + rest)
Account-client x p others rest (ClientMove.lease e) o k a = a
Account-client x p others rest (ClientMove.load t) o k a = ground arith
Account-client x p others rest (ClientMove.publish {task}) o k a = ground (arith, ap (weight x) k)
Account-client x p others rest (ClientMove.wait_done e) o k a = a
Account-client x p others rest ClientMove.leave o k a = a
