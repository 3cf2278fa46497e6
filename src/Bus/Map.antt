-- ===== src/Bus/Map.antt =====
-- The address map of a bus: `Address_map` of bus/memory_map.hpp, a std::map whose keys descend, and
-- `Memory_map::get_address_map` of bus/memory_map.cpp, which fills it.
use Prim.Native.String.{String}
use sc_platform.Prelude.{
  ℕ, ◌<◌, ◌≤◌, ◌^◌, ◌≡◌, refl, List, [], ◌∷◌, Option, none, some, arith, ltb, leb, ◌==◌,
  if◌then◌else◌,
}

pub record TargetInfo : Type 0 where
  pub port : ℕ
  pub base : ℕ
  pub last : ℕ
  pub size : ℕ
  pub irq : ℕ
  pub name : String
  pub kind : String

abbrev pub AddressMap : Type 0
AddressMap = List (ℕ × TargetInfo)

-- `map[ key ] = info`, in a map whose keys descend.
unfoldable pub assign : ℕ → TargetInfo → AddressMap → AddressMap
assign key info [] = (key, info) ∷ []
assign key info ((k, i) ∷ m) =
    if k == key
    then (key, info) ∷ m
    else if ltb k key
    then (key, info) ∷ (k, i) ∷ m
    else (k, i) ∷ assign key info m

-- The first entry whose key does not come before `key`, that is, does not exceed it.
unfoldable pub lower_bound : ℕ → AddressMap → Option (ℕ × TargetInfo)
lower_bound key [] = none
lower_bound key ((k, i) ∷ m) = if leb k key then some (k, i) else lower_bound key m

-- The entries of an origin's target map, in the order of the names, go in under their base address.
unfoldable pub fill : List TargetInfo → AddressMap → AddressMap
unfolding assign
fill [] m = m
fill (t ∷ ts) m = fill ts (assign t.base t m)

unfoldable pub get_address_map : List TargetInfo → AddressMap
unfolding fill
get_address_map targets = fill targets []

-- Every key is below `n`, keys descend, and an entry stands under its own base.
abbrev pub Below : ℕ → AddressMap → Type 0
Below n [] = Unit {0}
Below n ((k, i) ∷ m) = (k < n) × (k ≡ i.base) × Below k m

Below-mono : (m n : ℕ) (l : AddressMap) → m ≤ n → Below m l → Below n l
Below-mono m n [] h b = tt
Below-mono m n ((k, i) ∷ l) h b = (omega arith, b.1, b.2)

pub assign-Below :
    (n : ℕ) (t : TargetInfo) (m : AddressMap) → t.base < n → Below n m → Below n (assign t.base t m)
unfolding assign
assign-Below n t [] h b = (h, refl, tt)
assign-Below n t ((k, i) ∷ m) h b = ground (arith, assign-Below k t m)

abbrev pub IsAddress : List TargetInfo → Type 0
IsAddress [] = Unit {0}
IsAddress (t ∷ ts) = (t.base < 2 ^ 64) × IsAddress ts

fill-Below :
    (ts : List TargetInfo) (m : AddressMap)
    → IsAddress ts
    → Below (2 ^ 64) m
    → Below (2 ^ 64) (fill ts m)
unfolding fill
fill-Below [] m a b = b
fill-Below (t ∷ ts) m a b = fill-Below ts (assign t.base t m) a.1 (assign-Below (2 ^ 64) t m a.0 b)

-- The map that a bus starts from has descending keys, and an entry stands under its own base.
pub get_address_map-Below :
    (ts : List TargetInfo) → IsAddress ts → Below (2 ^ 64) (get_address_map ts)
unfolding get_address_map
get_address_map-Below ts a = fill-Below ts [] a tt
