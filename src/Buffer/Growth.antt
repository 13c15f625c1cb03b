-- ===== src/Buffer/Growth.antt =====
-- Buffer::grow: the larger buffer holds the live range, at the same logical indices.
use native.Mathlib.Nat.{pow-suc}
use thread_pool_pro.Base.{
  ℕ, zero, suc, ◌+◌, ◌-◌, ◌*◌, ◌^◌, ◌≤◌, ◌<◌, ◌≡◌, ◌∙◌, refl, sym, subst, Option, arith, ℕ_discrete,
}
use thread_pool_pro.Buffer.{Buffer, IsSized, size_of, make, at, put, copy_range, grow}
use thread_pool_pro.Buffer.Index.{
  two_pow-le, make-IsSized, put-IsSized, slot_of-ne, at-put_self, at-put_ne,
}

copy_range-IsSized :
    (old : Buffer) (n i : ℕ) {k : ℕ} (new : Buffer)
    → IsSized k new
    → IsSized k (copy_range old n i new)
unfolding copy_range
copy_range-IsSized old zero i new s = s
copy_range-IsSized old (suc n) i new s =
    copy_range-IsSized old n (i + 1) (put new i (at old i)) (put-IsSized s i (at old i))

double : {k : ℕ} {b : Buffer} → IsSized k b → k < 63 → size_of (b.capacity * 2) ≡ 2 ^ suc k
double {k} s h = omega (arith, s.power, pow-suc 2 k, two_pow-le (suc k) (omega arith))

pub grow-IsSized :
    {k : ℕ} {b : Buffer}
    → IsSized k b
    → k < 63
    → (bottom top : ℕ) → IsSized (suc k) (grow b bottom top)
unfolding grow
grow-IsSized {k} {b} s h bottom top =
    copy_range-IsSized b (bottom - top) top _ (rw (double s h) (make-IsSized (suc k) (omega arith)))

-- Indices outside the copied window of slots keep what the target held.
copy_range_other :
    (old : Buffer) (n i j : ℕ) (new : Buffer) {k : ℕ}
    → IsSized k new
    → j < i
    → i + n ≤ j + new.capacity
    → at (copy_range old n i new) j ≡ at new j
unfolding copy_range
copy_range_other old zero i j new s h l = refl
copy_range_other old (suc n) i j new s h l =
    copy_range_other old n (i + 1) j (put new i (at old i)) (put-IsSized s i (at old i))
      (omega arith) (room (at old i))
    ∙ at-put_ne new i j (at old i) (λ e. slot_of-ne s j i h (omega arith) (sym e))
  where
    room : (p : Option ℕ) → i + 1 + n ≤ j + (put new i p).capacity
    room p = unfold put in omega arith

copy_range_lem :
    (old : Buffer) (n i j : ℕ) (new : Buffer) {k : ℕ}
    → IsSized k new
    → n ≤ new.capacity
    → i ≤ j
    → j < i + n
    → at (copy_range old n i new) j ≡ at old j
unfolding copy_range
copy_range_lem old zero i j new s fit h l = absurd (omega arith)
copy_range_lem old (suc n) i j new s fit h l = elim (ℕ_discrete i j) [
  | yes e ↦ subst (λ t. at (copy_range old (suc n) i new) t ≡ at old t) e here
  | no e ↦
      copy_range_lem old n (i + 1) j (put new i (at old i)) (put-IsSized s i (at old i)) (room 0)
        (omega arith) (omega arith)
]
  where
    room : (d : ℕ) → n ≤ (put new i (at old i)).capacity
    room d = unfold put in omega arith

    here : at (copy_range old (suc n) i new) i ≡ at old i
    here =
        copy_range_other old n (i + 1) i (put new i (at old i)) (put-IsSized s i (at old i))
          (omega arith) (unfold put in omega arith)
        ∙ at-put_self new i (at old i)

-- In a buffer of 2 ^ k slots, k < 63, a live range that fits the buffer is found in the grown buffer
-- at the same indices.
pub at-grow :
    {k : ℕ} {b : Buffer}
    → IsSized k b
    → k < 63
    → (bottom top i : ℕ) → bottom ≤ top + b.capacity
    → top ≤ i
    → i < bottom
    → at (grow b bottom top) i ≡ at b i
unfolding grow
at-grow {k} {b} s h bottom top i fit lo hi =
    copy_range_lem b (bottom - top) top i _ {k = suc k}
      (rw (double s h) (make-IsSized (suc k) (omega arith)))
      (unfold make in omega (arith, double s h, s.power, pow-suc 2 k)) lo (omega arith)

pub capacity-grow :
    {k : ℕ} {b : Buffer}
    → IsSized k b
    → k < 63
    → (bottom top : ℕ) → (grow b bottom top).capacity ≡ b.capacity * 2
capacity-grow {k} s h bottom top =
    omega (arith, (grow-IsSized s h bottom top).power, s.power, pow-suc 2 k)
