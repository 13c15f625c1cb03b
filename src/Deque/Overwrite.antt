-- ===== src/Deque/Overwrite.antt =====
-- What the condition of `Deque.Safety` excludes: `steal` reads its slot after its exchange, when the
-- owner may already write there.
use thread_pool_pro.Base.{ℕ, ◌≡◌, ◌≢◌, refl, arith, count, update}
use thread_pool_pro.Buffer.{make, at, put, slot_of}
use thread_pool_pro.Deque.{
  Memory, is_full, OwnerPc, ThiefPc, OwnerMove, ThiefMove, System, owner_step, thief_step, init,
  Reach, start, later,
}

-- The history extended by an access of the owner, or of the only thief.
infixl 20 ◌▸◌ ◌▹◌
abbrev ◌▸◌ :
    {s : System} {m : Memory} {p : OwnerPc}
    → Reach 1 1 s
    → OwnerMove s.mem s.owner m p
    → Reach 1 1 (record s { mem = m; owner = p })
r ▸ mv = later r (owner_step mv)

abbrev ◌▹◌ :
    {s : System} {m : Memory} {p : ThiefPc}
    → Reach 1 1 s
    → ThiefMove s.mem (s.thief 0) m p
    → Reach 1 1 (record s { mem = m; thief = update s.thief 0 p })
r ▹ mv = later r (thief_step 0 (omega arith) mv)

-- With one slot and one thief, two pushes of different tasks and the interleaving below end with
-- everybody idle, the first task returned to nobody and the second returned twice.
pub lost_and_duplicated :
    (x y : ℕ)
    → x ≢ y
    → (s : System) × Reach 1 1 s
      × (s.owner ≡ OwnerPc.idle)
      × (s.thief 0 ≡ ThiefPc.idle)
      × (count x s.mem.pushed ≡ 1)
      × (count y s.mem.pushed ≡ 1)
      × (count x s.mem.returned ≡ 0)
      × (count y s.mem.returned ≡ 2)
unfolding init make at put slot_of is_full
lost_and_duplicated x y h = (
  _,
  start
      ▸ OwnerMove.load_bottom x
      ▸ OwnerMove.load_top
      ▸ OwnerMove.fits refl
      ▸ OwnerMove.write
      ▸ OwnerMove.publish
      ▹ ThiefMove.load_top
      ▹ ThiefMove.load_bottom (omega arith)
      ▹ ThiefMove.load_buffer
      ▹ ThiefMove.win refl
      ▸ OwnerMove.load_bottom y
      ▸ OwnerMove.load_top
      ▸ OwnerMove.fits refl
      ▸ OwnerMove.write
      ▸ OwnerMove.publish
      ▹ ThiefMove.take {task = y} refl
      ▸ OwnerMove.pop_load (omega arith)
      ▸ OwnerMove.lower
      ▸ OwnerMove.last refl
      ▸ OwnerMove.win refl
      ▸ OwnerMove.restore_won
      ▸ OwnerMove.take {task = y} refl,
  refl,
  refl,
  ground arith,
  ground arith,
  ground arith,
  ground arith,
)
