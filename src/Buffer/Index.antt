-- ===== src/Buffer/Index.antt =====
-- Buffer::at: masking is reduction modulo the capacity, and a write is seen at its own index only.
use Prim.Native.Nat.{bit_and}
use native.Mathlib.Nat.{mod-lt, pow-le-pow_right}
use thread_pool_pro.Base.{
  ℕ, ◌+◌, ◌*◌, ◌%◌, ◌^◌, ◌≤◌, ◌<◌, ◌≡◌, ◌≢◌, ◌∙◌, refl, ap, sym, Option, arith, bit_and-mask,
  pow_two_pos, mod-ne, dec_lt,
}
use thread_pool_pro.Buffer.{Buffer, IsSized, make, slot_of, at, put}

pub two_pow-le : (k : ℕ) → k < 64 → 2 ^ k ≤ 2 ^ 63
two_pow-le k h = pow-le-pow_right {n = 2} (omega arith) {i = k} {j = 63} (omega arith)

pub make-IsSized : (k : ℕ) → k < 64 → IsSized k (make (2 ^ k))
unfolding make
make-IsSized k h = record {
  small = h;
  power = refl;
  ones = omega (arith, two_pow-le k h, pow_two_pos k);
}

module _ {k : ℕ} {b : Buffer} (s : IsSized k b) where
  pub capacity_pos : 0 < b.capacity
  capacity_pos = omega (arith, s.power, pow_two_pos k)

  pub slot_of-mod : (i : ℕ) → slot_of b i ≡ i % b.capacity
  unfolding slot_of
  slot_of-mod i = ap (bit_and i) s.ones ∙ bit_and-mask k i ∙ ap (λ m. i % m) (sym s.power)

  -- No index leaves the array.
  pub slot_of-lt : (i : ℕ) → slot_of b i < b.capacity
  slot_of-lt i = omega (arith, slot_of-mod i, mod-lt i capacity_pos)

  -- Indices in one window of `capacity` have slots of their own.
  pub slot_of-ne : (i j : ℕ) → i < j → j < i + b.capacity → slot_of b i ≢ slot_of b j
  slot_of-ne i j h l e = mod-ne i j b.capacity h l (sym (slot_of-mod i) ∙ e ∙ slot_of-mod j)

  pub put-IsSized : (i : ℕ) (p : Option ℕ) → IsSized k (put b i p)
  unfolding put
  put-IsSized i p = record { small = s.small; power = s.power; ones = s.ones }

pub at-put_self : (b : Buffer) (i : ℕ) (p : Option ℕ) → at (put b i p) i ≡ p
unfolding at put
at-put_self b i p = ground arith

pub at-put_ne :
    (b : Buffer) (i j : ℕ) (p : Option ℕ) → slot_of b i ≢ slot_of b j → at (put b i p) j ≡ at b j
unfolding at put
at-put_ne b i j p h = ground arith

pub capacity-put : (b : Buffer) (i : ℕ) (p : Option ℕ) → (put b i p).capacity ≡ b.capacity
unfolding put
capacity-put b i p = refl

-- Whether a buffer can double within `std::size_t`.
pub exponent-lt : {k : ℕ} {b : Buffer} → IsSized k b → b.capacity * 2 < 2 ^ 64 → k < 63
exponent-lt {k} s h = elim (dec_lt k 63) [
  | yes p ↦ p
  | no p ↦
      let e : k ≡ 63 = omega (arith, s.small) in absurd (omega (arith, s.power, ap (λ j. 2 ^ j) e))
]
