-- ===== src/Pool.antt =====
-- utility/memory_manager.hpp: `Memory_manager`, the pool of transactions. An object is its number in the order in
-- which the objects are created.
pub mod Exclusive
use sc_platform.Prelude.{ℕ, ◌+◌, ◌<◌, Bool, Option, List, [], ◌∷◌, ◌==◌, if◌then◌else◌}
use sc_platform.Common.{Payload, Command, incomplete_response}

pub record Pool : Type 0 where
  pub free_list : List ℕ
  pub created : ℕ

abbrev pub empty_pool : Pool
empty_pool = record { free_list = []; created = 0 }

unfoldable pub allocate_from : List ℕ → ℕ → ℕ × Pool
allocate_from [] n = (n, record { free_list = []; created = n + 1 })
allocate_from (t ∷ ts) n = (t, record { free_list = ts; created = n })

unfoldable pub allocate : Pool → ℕ × Pool
unfolding allocate_from
allocate p = allocate_from p.free_list p.created

unfoldable pub free : ℕ → Pool → Pool
free t p = record p { free_list = t ∷ p.free_list }

-- What `set` makes of a transaction; whether there are byte enables is all that the model keeps of them.
pub set_payload : Command → ℕ → Option (List ℕ) → ℕ → ℕ → Bool → Payload
set_payload command address data_ptr data_length streaming_width byte_enabled = record {
  command = command;
  address = address;
  bytes = data_ptr;
  data_length = data_length;
  streaming_width = streaming_width;
  byte_enabled = byte_enabled;
  response = incomplete_response;
}

-- The transactions that the clients hold after one is released, whose reference count has become 0.
unfoldable pub released : ℕ → List ℕ → List ℕ
released t [] = []
released t (x ∷ xs) = if x == t then xs else x ∷ released t xs

-- How often a number is in a list.
unfoldable pub count : ℕ → List ℕ → ℕ
count x [] = 0
count x (y ∷ ys) = count x ys + (if y == x then 1 else 0)

-- The pools that clients reach who only release what they hold, with what they hold.
pub data Reached : Pool → List ℕ → Type 0 where
  fresh : Reached empty_pool []
  took :
      {p : Pool} {held : List ℕ} → Reached p held → Reached (allocate p).1 ((allocate p).0 ∷ held)
  gave :
      {p : Pool} {held : List ℕ}
      → Reached p held
      → (t : ℕ) → 0 < count t held
      → Reached (free t p) (released t held)
