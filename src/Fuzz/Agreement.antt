-- ===== src/Fuzz/Agreement.antt =====
-- The harness on every input: the queue agrees with its shadow, round by round.
use thread_pool_pro.Base.{
  ℕ, suc, ◌+◌, ◌%◌, ◌^◌, ◌≤◌, ◌<◌, ◌≡◌, ◌∙◌, refl, ap, sym, subst, inl, inr, Bool-cases, true, List,
  [], ◌∷◌, ◌++◌, arith, length, ◌==◌,
}
use thread_pool_pro.Queue.{Queue, create, pop_bottom, Taken}
use thread_pool_pro.Queue.Contents.{contents, listed}
use thread_pool_pro.Queue.Nodes.{IsQueue, create-IsQueue}
use thread_pool_pro.Queue.Growing.{push_bottom_lem}
use thread_pool_pro.Queue.Refinement.{size_lem}
use thread_pool_pro.Queue.Limits.{Within, push_bottom-Within}
use thread_pool_pro.Fuzz.{
  capacity, Harness, Outcome, done, aborted, run, push_round, check_run, pop_round, round, rounds,
  drain, finish, start, returns,
}
use thread_pool_pro.Fuzz.Shadow.{in_order, Fresh, Fresh-update, Pop, found_none, took, Pop-queue}

record Agrees (h : Harness) : Type 0 where
  valid : IsQueue h.queue
  same : contents h.queue ≡ in_order h.shadow
  within : Within h.next_id h.queue
  fresh : Fresh h.counts h.next_id h.shadow

push_round-Agrees : (h : Harness) → h.next_id < 2 ^ 32 → Agrees h → Agrees (push_round h)
unfolding push_round
push_round-Agrees h small g =
    let p =
      push_bottom_lem h.queue h.next_id g.valid (omega (arith, g.within))
        (omega (arith, g.within)) in
    record {
      valid = p.0;
      same = p.1 ∙ ap (λ ts. ts ++ h.next_id ∷ []) g.same;
      within = push_bottom-Within h.queue h.next_id h.next_id g.valid small g.within;
      fresh = (
        omega arith,
        ground arith,
        Fresh-update h.counts h.next_id h.next_id h.next_id 0 h.shadow (omega arith) (omega arith)
            g.fresh,
      );
    }

-- A round ends, in agreement, with at most one id more.
abbrev Goes : ℕ → Outcome Harness → Type 0
Goes n (done h) = Agrees h × (h.next_id ≤ n)
Goes n aborted = ⊥

pop_round-Goes :
    (h : Harness) {shadow : List ℕ} {r : Taken}
    → Pop h.next_id shadow r
    → pop_bottom h.queue ≡ r
    → Fresh h.counts h.next_id shadow
    → h.shadow ≡ shadow
    → Goes h.next_id (pop_round h shadow)
unfolding pop_round check_run
pop_round-Goes h (found_none q v w c) e f s =
    let ends : done (record h { queue = q }) ≡ pop_round h [] = ground (arith, e) in
    subst (Goes h.next_id) ends (
      record {
        valid = v;
        same = c ∙ ap in_order (sym s);
        within = w;
        fresh = subst (Fresh h.counts h.next_id) (sym s) f;
      },
      omega arith,
    )
pop_round-Goes h (took id shadow q v w c) e (below, never, f) s =
    let next : Harness = record {
      queue = q;
      shadow = shadow;
      counts = run h.counts id;
      next_id = h.next_id;
    } in
    let ends : done next ≡ pop_round h (id ∷ shadow) = ground (arith, e, never) in
    subst (Goes h.next_id) ends (
      record {
        valid = v;
        same = c;
        within = w;
        fresh =
            Fresh-update h.counts id h.next_id id (h.counts id + 1) shadow (omega arith)
              (omega arith) f;
      },
      omega arith,
    )

Goes-mono : (m n : ℕ) (o : Outcome Harness) → m ≤ n → Goes m o → Goes n o
Goes-mono m n (done h) k (g, l) = (g, omega arith)
Goes-mono m n aborted k g = g

round-Goes :
    (h : Harness) (byte : ℕ) → h.next_id < 2 ^ 31 → Agrees h → Goes (suc h.next_id) (round h byte)
unfolding round
round-Goes h byte small g = elim (Bool-cases (byte % 3 == 0)) [
  | inl e ↦
      let ends : pop_round h h.shadow ≡ round h byte = ground (arith, e) in
      subst (Goes (suc h.next_id)) ends (
        Goes-mono h.next_id (suc h.next_id) (pop_round h h.shadow) (omega arith) (
          pop_round-Goes h (Pop-queue h.next_id h.queue h.shadow g.valid g.same g.within) refl
            g.fresh refl))
  | inr e ↦
      let ends : done (push_round h) ≡ round h byte = ground (arith, e) in
      subst (Goes (suc h.next_id)) ends
        (push_round-Agrees h (omega arith) g, unfold push_round in omega arith)
]

rounds_after :
    (h : Harness) (byte : ℕ) (bytes : List ℕ) (n : ℕ) (o : Outcome Harness)
    → round h byte ≡ o
    → Goes (suc h.next_id) o
    → ((h' : Harness) → Agrees h' → h'.next_id ≤ suc h.next_id → Goes n (rounds h' bytes))
    → Goes n (rounds h (byte ∷ bytes))
unfolding rounds
rounds_after h byte bytes n (done h') e (g, l) rest =
    let ends : rounds h' bytes ≡ rounds h (byte ∷ bytes) = ground (arith, e) in
    subst (Goes n) ends (rest h' g l)
rounds_after h byte bytes n aborted e g rest = absurd g

rounds-Goes :
    (h : Harness) (bytes : List ℕ) (n : ℕ)
    → h.next_id + length bytes ≤ n
    → n < 2 ^ 31
    → Agrees h
    → Goes n (rounds h bytes)
unfolding rounds
rounds-Goes h [] n k small g = (g, omega arith)
rounds-Goes h (byte ∷ bytes) n k small g =
    rounds_after h byte bytes n (round h byte) refl (round-Goes h byte (omega arith) g)
      (λ h' g' l. rounds-Goes h' bytes n (omega arith) small g')

drain_after :
    (n : ℕ) (counts : ℕ → ℕ) (q : Queue) (id : ℕ) (shadow : List ℕ) {r : Taken}
    → Pop n (id ∷ shadow) r
    → pop_bottom q ≡ r
    → Fresh counts n (id ∷ shadow)
    → ((q' : Queue)
        → IsQueue q'
        → contents q' ≡ in_order shadow
        → Within n q'
        → Fresh (run counts id) n shadow
        → (q'' : Queue) × (drain q' (run counts id) shadow ≡ done q''))
    → (q' : Queue) × (drain q counts (id ∷ shadow) ≡ done q')
unfolding drain
drain_after n counts q id shadow (took _ _ q' v w c) e (below, never, f) rest =
    let fresh = Fresh-update counts id n id (counts id + 1) shadow (omega arith) (omega arith) f in
    let (q'', ends) = rest q' v c w fresh in (q'', ground (arith, e, never, ends))

-- The loop at the end finds every id that is left, and the queue empty.
drain-done :
    (n : ℕ) (counts : ℕ → ℕ) (q : Queue) (shadow : List ℕ)
    → IsQueue q
    → contents q ≡ in_order shadow
    → Within n q
    → Fresh counts n shadow
    → (q' : Queue) × (drain q counts shadow ≡ done q')
unfolding drain
drain-done n counts q [] v e w f = (q, ground (arith, size_lem q v ∙ ap length e))
drain-done n counts q (id ∷ shadow) v e w f =
    drain_after n counts q id shadow (Pop-queue n q (id ∷ shadow) v e w) refl f
      (λ q' v' e' w' f'. drain-done n (run counts id) q' shadow v' e' w' f')

finish-true : (n : ℕ) (o : Outcome Harness) → Goes n o → finish o ≡ true
finish-true n (done h) (g, l) =
    let (q, e) = drain-done h.next_id h.counts h.queue h.shadow g.valid g.same g.within g.fresh in
    ground (arith, e)
finish-true n aborted g = absurd g

capacity-power : (i : ℕ) → (k : ℕ) × (k < 11) × (capacity i ≡ 2 ^ k)
unfolding capacity
capacity-power i = elim (Bool-cases (i == 0)) [
  | inl a ↦ (0, omega arith, ground (arith, a))
  | inr a ↦ elim (Bool-cases (i == 1)) [
    | inl b ↦ (1, omega arith, ground (arith, a, b))
    | inr b ↦ elim (Bool-cases (i == 2)) [
      | inl c ↦ (2, omega arith, ground (arith, a, b, c))
      | inr c ↦ (10, omega arith, ground (arith, a, b, c))
    ]
  ]
]

start-Agrees : (byte : ℕ) → Agrees (start byte)
unfolding start
start-Agrees byte =
    let (k, small, power) = capacity-power (byte % 4) in
    record {
      valid = subst (λ c. IsQueue (create c)) (sym power) (create-IsQueue k (omega arith));
      same = unfold contents listed create in refl;
      within = unfold create capacity in ground arith;
      fresh = tt;
    }

-- The harness, which compares every pop with its shadow and every count with one, aborts on no input
-- of fewer than 2 ^ 31 bytes.
pub returns_lem : (bytes : List ℕ) → length bytes < 2 ^ 31 → returns bytes ≡ true
unfolding returns
returns_lem [] h = refl
returns_lem (byte ∷ bytes) h = finish-true (length bytes) (rounds (start byte) bytes) (
    rounds-Goes (start byte) bytes (length bytes) (unfold start in omega arith) (omega arith)
      (start-Agrees byte))
