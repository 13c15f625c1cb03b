-- ===== src/Fuzz/Shadow.antt =====
-- The shadow of the harness, and what a pop of a queue brings that agrees with it.
use thread_pool_pro.Base.{
  ℕ, ◌≤◌, ◌<◌, ◌≡◌, ◌∙◌, refl, ap, sym, subst, List, [], ◌∷◌, ◌++◌, arith, length, length-append,
  update,
}
use thread_pool_pro.Queue.{Queue, pop_bottom, Taken, nothing, got}
use thread_pool_pro.Queue.Contents.{contents}
use thread_pool_pro.Queue.Nodes.{IsQueue}
use thread_pool_pro.Queue.Refinement.{Pops, pop_bottom_lem}
use thread_pool_pro.Queue.Limits.{Within, Kept, pop_bottom-Kept}

-- The shadow from its front to its back.
abbrev pub in_order : List ℕ → List ℕ
in_order [] = []
in_order (id ∷ shadow) = in_order shadow ++ id ∷ []

-- The ids grow from the front to the back, below `n`, and none of them has been run.
abbrev pub Fresh : (ℕ → ℕ) → ℕ → List ℕ → Type 0
Fresh counts n [] = Unit {0}
Fresh counts n (id ∷ shadow) = (id < n) × (counts id ≡ 0) × Fresh counts id shadow

pub Fresh-update :
    (counts : ℕ → ℕ) (n m id c : ℕ) (shadow : List ℕ)
    → n ≤ m
    → n ≤ id
    → Fresh counts n shadow
    → Fresh (update counts id c) m shadow
Fresh-update counts n m id c [] a b f = tt
Fresh-update counts n m id c (x ∷ shadow) a b (p, q, r) =
    (omega arith, ground arith, Fresh-update counts x x id c shadow (omega arith) (omega arith) r)

-- Two lists with one more at their ends.
last-eq : (s t : List ℕ) (x y : ℕ) → s ++ x ∷ [] ≡ t ++ y ∷ [] → (s ≡ t) × (x ≡ y)
last-eq [] [] x y e = (refl, ground arith)
last-eq [] (b ∷ t) x y e = absurd (omega (arith, ap length e, length-append t (y ∷ [])))
last-eq (a ∷ s) [] x y e = absurd (omega (arith, ap length e, length-append s (x ∷ [])))
last-eq (a ∷ s) (b ∷ t) x y e =
    let (p, q) = last-eq s t x y (ground (arith, e)) in (ground (arith, e, p), q)

snoc-ne : (s : List ℕ) (x : ℕ) → s ++ x ∷ [] ≡ [] → ⊥
snoc-ne s x e = omega (arith, ap length e, length-append s (x ∷ []))

-- What a pop of a queue brings that agrees with a shadow.
pub data Pop (n : ℕ) : List ℕ → Taken → Type 0 where
  found_none : (q : Queue) → IsQueue q → Within n q → contents q ≡ [] → Pop n [] (nothing q)
  took :
      (id : ℕ) (shadow : List ℕ) (q : Queue)
      → IsQueue q
      → Within n q
      → contents q ≡ in_order shadow
      → Pop n (id ∷ shadow) (got id q)

Pop-of :
    (n : ℕ) (q : Queue) (shadow : List ℕ) {r : Taken}
    → IsQueue q
    → contents q ≡ in_order shadow
    → Pops q r
    → Kept n r
    → Pop n shadow r
Pop-of n q [] v e (Pops.none_left p) k = found_none q v k p
Pop-of n q (id ∷ shadow) v e (Pops.none_left p) k =
    absurd (snoc-ne (in_order shadow) id (sym e ∙ p))
Pop-of n q [] v e (Pops.last_taken t q' w c) k = absurd (snoc-ne (contents q') t (sym c ∙ e))
Pop-of n q (id ∷ shadow) v e (Pops.last_taken t q' w c) k =
    let (same, top) = last-eq (contents q') (in_order shadow) t id (sym c ∙ e) in
    subst (λ x. Pop n (id ∷ shadow) (got x q')) (sym top) (took id shadow q' w k same)

pub Pop-queue :
    (n : ℕ) (q : Queue) (shadow : List ℕ)
    → IsQueue q
    → contents q ≡ in_order shadow
    → Within n q
    → Pop n shadow (pop_bottom q)
Pop-queue n q shadow v e w = Pop-of n q shadow v e (pop_bottom_lem q v) (pop_bottom-Kept q n v w)
