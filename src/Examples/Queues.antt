-- ===== src/Examples/Queues.antt =====
-- A queue with one slot and one thief: one push, then a thief that claims the task.
use thread_pool_pro.Base.{◌+◌, ◌-◌, ◌≤◌, ◌≡◌, refl, arith, count}
use thread_pool_pro.Buffer.{make, at, put, slot_of}
use thread_pool_pro.Deque.{buffer, is_full, OwnerMove, ThiefMove, System, init}
use thread_pool_pro.Deque.Span.{span}
use thread_pool_pro.Deque.Safety.{
  SafeReach, start, owner_moves, thief_moves, no_duplicates, nothing_lost,
}

abbrev Run : Type 0
Run = (s : System) × SafeReach 1 0 s

abbrev pushing : Run
unfolding init make
pushing = (_, owner_moves (owner_moves start tt (OwnerMove.load_bottom 7)) tt OwnerMove.load_top)

abbrev pushed : Run
unfolding init make is_full put slot_of
pushed = (
  _,
  owner_moves
      (owner_moves (owner_moves pushing.1 (λ e. absurd (ground arith)) (OwnerMove.fits refl))
        (λ i t k claim e. absurd (ground arith)) OwnerMove.write)
      (omega arith) OwnerMove.publish,
)

abbrev claimed : Run
unfolding init make is_full put slot_of at
claimed = (
  _,
  thief_moves 0
      (thief_moves 0
        (thief_moves 0 (thief_moves 0 pushed.1 (omega arith) ThiefMove.load_top) (omega arith)
          (ThiefMove.load_bottom (omega arith)))
        (omega arith) ThiefMove.load_buffer)
      (omega arith) (ThiefMove.win refl),
)

no_duplicates_example : count 7 claimed.0.mem.returned ≤ count 7 claimed.0.mem.pushed
no_duplicates_example = no_duplicates (omega arith) claimed.1 7

nothing_lost_example :
    count 7 pushed.0.mem.returned
      + span 7 (at (buffer pushed.0.mem)) pushed.0.mem.top (pushed.0.mem.bottom - pushed.0.mem.top)
    ≡ count 7 pushed.0.mem.pushed
unfolding pushed
nothing_lost_example = nothing_lost (omega arith) pushed.1 refl (λ i. refl) 7
