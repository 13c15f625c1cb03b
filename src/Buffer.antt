-- ===== src/Buffer.antt =====
-- include/ThreadPoolPro/Detail/Buffer.h and src/ThreadPoolPro/Detail/Buffer.cpp: the circular array
-- of task pointers behind the work-stealing queue. A pointer is the address of a node, and `none`
-- is `nullptr`; the slots past the capacity are never reached, as the index is masked.
pub mod Index
pub mod Growth
use Prim.Native.Nat.{bit_and}
use thread_pool_pro.Base.{ℕ, zero, suc, ◌+◌, ◌-◌, ◌*◌, ◌%◌, ◌^◌, ◌<◌, ◌≡◌, Option, none, update}

-- A value of `std::size_t`.
abbrev pub size_of : ℕ → ℕ
size_of n = n % 2 ^ 64

-- `struct Buffer`
pub record Buffer : Type 0 where
  pub capacity : ℕ
  pub mask : ℕ
  pub slots : ℕ → Option ℕ

-- `Buffer::Buffer`: `std::make_unique<Task*[]>` makes every slot null.
unfoldable pub make : ℕ → Buffer
make capacity = record {
  capacity = capacity;
  mask = size_of (capacity + 2 ^ 64 - 1);
  slots = λ _. none;
}

-- What the constructor asserts, with a bound that keeps `capacity` a `std::size_t`.
pub record IsSized (k : ℕ) (b : Buffer) : Type 0 where
  pub small : k < 64
  pub power : b.capacity ≡ 2 ^ k
  pub ones : b.mask ≡ 2 ^ k - 1

-- The slot that `Buffer::at` refers to.
unfoldable pub slot_of : Buffer → ℕ → ℕ
slot_of b index = bit_and index b.mask

-- `Buffer::at`, read.
unfoldable pub at : Buffer → ℕ → Option ℕ
unfolding slot_of
at b index = b.slots (slot_of b index)

-- `Buffer::at`, written through the reference.
unfoldable pub put : Buffer → ℕ → Option ℕ → Buffer
unfolding slot_of
put b index p = record b { slots = update b.slots (slot_of b index) p }

-- The loop of `Buffer::grow` over the indices from `i`, `rounds` of them.
unfoldable pub copy_range : Buffer → ℕ → ℕ → Buffer → Buffer
unfolding put at
copy_range old zero i new = new
copy_range old (suc rounds) i new = copy_range old rounds (i + 1) (put new i (at old i))

-- `Buffer::grow`
unfoldable pub grow : Buffer → ℕ → ℕ → Buffer
unfolding copy_range make
grow b bottom top = copy_range b (bottom - top) top (make (size_of (b.capacity * 2)))
