-- ===== src/Examples/Fuzzing.antt =====
-- Runs of the fuzzing harness.
use thread_pool_pro.Base.{◌≡◌, true, [], ◌∷◌, arith}
use thread_pool_pro.Fuzz.{returns}
use thread_pool_pro.Fuzz.Agreement.{returns_lem}

-- Two pushes, three pops and a push, into a queue that begins with one slot.
returns_lem_example : returns (0 ∷ 1 ∷ 2 ∷ 3 ∷ 3 ∷ 3 ∷ 1 ∷ []) ≡ true
returns_lem_example = returns_lem (0 ∷ 1 ∷ 2 ∷ 3 ∷ 3 ∷ 3 ∷ 1 ∷ []) (omega arith)
