-- ===== src/Cpu/Dmi.antt =====
-- `Cpu_module::invalidate_direct_mem_ptr` of cpu/cpu.cpp, and the search of its table in `transport`.
pub mod Invalidation
use sc_platform.Prelude.{
  ℕ, zero, suc, ◌+◌, ◌-◌, ◌*◌, ◌/◌, ◌%◌, ◌^◌, ◌≤◌, ◌<◌, min, max, bit_and, bit_or, bit_xor, ◌≡◌,
  refl, sym, ap, ap₂, ◌∙◌, ◌≢◌, ◌↔◌, ◌⊎◌, inl, inr, Bool, true, false, not, ◌&&◌, ◌||◌, Option,
  none, some, List, [], ◌∷◌, ◌++◌, map, arith, ltb, leb, ◌==◌, if◌then◌else◌, Bool-cases,
  Option-cases, ==_iff, length, get_elem?, set, take, drop, replicate, slice, overwrite, resize,
  length-overwrite, length-resize, length-slice, slice-overwrite, get_elem?-overwrite_below,
  get_elem?-overwrite_above, get_elem?-resize, length-append, length-take, length-drop,
  length-replicate, length-set, get_elem?-set_self, get_elem?-set_ne, take-append, drop-append,
  get_elem?-lt, get_elem?-ge, All, Among, All-Among, Outcome, done, aborted, undefined, ◌>>=◌, ◌>>◌,
  require, defined, >>=-eq-done, IsDefined, >>=-IsDefined, require-IsDefined, if-IsDefined,
  IsDefined-cases, Ensures, >>=-Ensures, if-Ensures, Ensures-done, require-Ensures, Ensures-map,
}
use sc_platform.Common.{Command, read, write, ignore}

-- A `tlm_dmi` of the table. Its pointer is to the start of a block of the host's memory, which is named by a number.
pub record Region : Type 0 where
  pub block : ℕ
  pub start_address : ℕ
  pub end_address : ℕ
  pub read_allowed : Bool
  pub write_allowed : Bool
  pub read_latency : ℕ
  pub write_latency : ℕ

unfoldable pub overlaps : ℕ → ℕ → Region → Bool
overlaps start_range end_range r = leb start_range r.end_address && leb r.start_address end_range

abbrev pub erase_at : ℕ → List Region → List Region
erase_at i [] = []
erase_at zero (r ∷ rs) = rs
erase_at (suc i) (r ∷ rs) = r ∷ erase_at i rs

unfoldable pub erase_hit : ℕ → ℕ → ℕ → List Region → Option Region → List Region
erase_hit start_range end_range i table none = table
erase_hit start_range end_range i table (some r) =
    if overlaps start_range end_range r then erase_at i table else table

unfoldable pub visit : ℕ → ℕ → ℕ → List Region → List Region
unfolding erase_hit
visit start_range end_range i table = erase_hit start_range end_range i table (get_elem? table i)

-- The loop from the index `i` on; each round leaves one index less, so the table's size is fuel enough.
unfoldable pub invalidate_from : ℕ → ℕ → ℕ → ℕ → List Region → List Region
invalidate_from zero start_range end_range i table = table
invalidate_from (suc fuel) start_range end_range i table =
    let rest =
      invalidate_from fuel start_range end_range (i + 1) (visit start_range end_range i table) in
    if ltb i (length table) then rest else table

unfoldable pub invalidate_direct_mem_ptr : ℕ → ℕ → List Region → List Region
unfolding invalidate_from
invalidate_direct_mem_ptr start_range end_range table =
    invalidate_from (length table) start_range end_range 0 table

allowed : Command → Region → Bool
allowed read r = r.read_allowed
allowed write r = r.write_allowed
allowed ignore r = false

abbrev pub holds : ℕ → Region → Bool
holds address r = leb r.start_address address && leb address r.end_address

-- The first region that holds the address and allows the command.
unfoldable pub find_region : Command → ℕ → List Region → Option Region
unfolding allowed
find_region command address [] = none
find_region command address (r ∷ rs) =
    if holds address r && allowed command r then some r else find_region command address rs
