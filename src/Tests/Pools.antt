-- ===== src/Tests/Pools.antt =====
-- The pool of utility/memory_manager.hpp after two allocations and a release.
use sc_platform.Prelude.{◌+◌, ◌≡◌, [], ◌∷◌, arith}
use sc_platform.Pool.{Pool, allocate, free, count, released, Reached, fresh, took, gave}
use sc_platform.Pool.Exclusive.{Reached-once}

-- The second transaction is held, the first is free.
abbrev used : Pool
used = record { free_list = 0 ∷ []; created = 2 }

used-Reached : Reached used (1 ∷ [])
unfolding allocate free released count
used-Reached = gave (took (took fresh)) 0 (omega arith)

Reached-once_example : count 1 (1 ∷ []) + count 1 (0 ∷ []) ≡ 1
Reached-once_example = Reached-once used (1 ∷ []) used-Reached 1
