-- ===== src/Pool/Exclusive.antt =====
-- No transaction of utility/memory_manager.hpp is handed out twice or lost.
use sc_platform.Prelude.{ℕ, ◌+◌, ◌<◌, ◌≡◌, Bool, List, [], ◌∷◌, arith, ltb, ◌==◌, if◌then◌else◌}
use sc_platform.Pool.{
  Pool, allocate, allocate_from, free, released, count, Reached, fresh, took, gave,
}

-- Every object that was created is once among the held or the free ones, and nothing else is there.
abbrev pub IsPartition : Pool → List ℕ → Type 0
IsPartition p held =
    (x : ℕ) → count x held + count x p.free_list ≡ (if ltb x p.created then 1 else 0)

count-released :
    (x t : ℕ) (held : List ℕ)
    → 0 < count t held
    → count x (released t held) + (if t == x then 1 else 0) ≡ count x held
unfolding released count
count-released x t [] h = absurd (omega arith)
count-released x t (y ∷ ys) h = ground (arith, count-released x t ys)

allocate-IsPartition :
    (ts : List ℕ) (n : ℕ) (held : List ℕ)
    → IsPartition (record { free_list = ts; created = n }) held
    → IsPartition (allocate_from ts n).1 ((allocate_from ts n).0 ∷ held)
unfolding allocate_from count
allocate-IsPartition [] n held h x = ground (arith, h x)
allocate-IsPartition (t ∷ ts) n held h x = ground (arith, h x)

free-IsPartition :
    (p : Pool) (held : List ℕ) (t : ℕ)
    → 0 < count t held
    → IsPartition p held
    → IsPartition (free t p) (released t held)
unfolding free count
free-IsPartition p held t h before x = ground (arith, before x, count-released x t held h)

-- Every object that the pool has created is exactly once either held by a client or free, however the
-- clients allocate and release, if they release only what they hold.
pub Reached-once :
    (p : Pool) (held : List ℕ)
    → Reached p held
    → (x : ℕ) → count x held + count x p.free_list ≡ (if ltb x p.created then 1 else 0)
unfolding allocate free
Reached-once _ _ fresh x = unfold count in ground arith
Reached-once _ _ (took {p} {held} r) x =
    allocate-IsPartition p.free_list p.created held (Reached-once p held r) x
Reached-once _ _ (gave {p} {held} r t h) x = free-IsPartition p held t h (Reached-once p held r) x

most_once :
    (x : ℕ) (held rest : List ℕ) (b : Bool)
    → count x (x ∷ held) + count x rest ≡ (if b then 1 else 0)
    → count x held ≡ 0
unfolding count
most_once x held rest b one = ground (arith, one)

-- A transaction that is allocated is not held by any client.
pub allocate-exclusive : (p : Pool) (held : List ℕ) → Reached p held → count (allocate p).0 held ≡ 0
allocate-exclusive p held r =
    let one = Reached-once _ _ (took r) (allocate p).0 in most_once (allocate p).0 held _ _ one
