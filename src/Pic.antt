-- ===== src/Pic.antt =====
-- interrupt/pic.hpp and interrupt/pic_reg.h: the state of `Pic_module`, and its registers as bytes of
-- little-endian words.
pub mod Actions
pub mod Transport
pub mod Nonblocking
pub mod Debug
pub mod Next
pub mod Faults
use Prim.Native.String.{String}
use text.Mathlib.Text.{◌==◌ as str_eq}
use sc_platform.Prelude.{
  ℕ, ◌+◌, ◌-◌, ◌*◌, ◌/◌, ◌%◌, ◌^◌, Bool, false, Option, none, some, List, [], ◌∷◌, ◌++◌, leb, ◌==◌,
  if◌then◌else◌, length, get_elem?, replicate, overwrite, Outcome, done, undefined, ◌>>=◌, ◌>>◌,
  defined,
}
use sc_platform.Common.{u32}

-- `Pic_Source_t`, `Pic_Target_t`.
pub record Source : Type 0 where
  pub pending : Bool
  pub active : Bool
  pub enabled : Bool
  pub priority : ℕ

pub record Interface : Type 0 where
  pub clearall : Bool
  pub enabled : Bool
  pub mask : ℕ

pub record Pic : Type 0 where
  pub registers : List ℕ
  pub source_irq : List Source
  pub source_targets : List ℕ
  pub target_irq : List Interface
  pub target_level : List (List ℕ)
  pub target_select : List ℕ
  pub target_id : List (String × ℕ)

abbrev pub max_targets : ℕ
max_targets = 32

abbrev pub regs_size : ℕ
regs_size = 32

abbrev pub invalid_irq : ℕ
invalid_irq = 2 ^ 32 - 2

-- `highest` interrupt number `irqs` of the memory map. The two braced initialisers `{ PIC_REGS_SIZE }`
-- and `{ M }` of vectors of integers make one element with that value, not that many elements.
pub initial : ℕ → Pic
initial irqs = record {
  registers = regs_size ∷ [];
  source_irq =
      replicate (irqs + 1)
        (record { pending = false; active = false; enabled = false; priority = 0 });
  source_targets = replicate (irqs + 1) 0;
  target_irq = replicate max_targets (record { clearall = false; enabled = false; mask = 0 });
  target_level = replicate max_targets [];
  target_select = max_targets ∷ [];
  target_id = [];
}

-- A register read and written, as a 32-bit word of the vector's bytes.
unfoldable pub load : ℕ → List ℕ → Outcome ℕ
load adr bytes = do
  a ← defined (get_elem? bytes adr)
  b ← defined (get_elem? bytes (adr + 1))
  c ← defined (get_elem? bytes (adr + 2))
  d ← defined (get_elem? bytes (adr + 3))
  done (a + 2 ^ 8 * b + 2 ^ 16 * c + 2 ^ 24 * d)

unfoldable pub store : ℕ → ℕ → List ℕ → Outcome (List ℕ)
unfolding overwrite
store adr v bytes =
    if leb (adr + 4) (length bytes)
    then done
        (overwrite adr (v % 256 ∷ v / 2 ^ 8 % 256 ∷ v / 2 ^ 16 % 256 ∷ v / 2 ^ 24 % 256 ∷ []) bytes)
    else undefined

-- A bit of a word.
abbrev pub bit : ℕ → ℕ → Bool
bit lsb v = v / 2 ^ lsb % 2 == 1

-- `b ? 1 << lsb : 0`.
abbrev pub flag : ℕ → Bool → ℕ
flag lsb b = if b then 2 ^ lsb else 0

find_id : String → List (String × ℕ) → Option ℕ
find_id name [] = none
find_id name ((n, i) ∷ m) = if str_eq n name then some i else find_id name m

add_id : String → List (String × ℕ) → Option ℕ → ℕ × List (String × ℕ)
add_id name ids (some i) = (i, ids)
add_id name ids none = (length ids, ids ++ (name, length ids) ∷ [])

-- The number of the target CPU, which is added if it is new.
unfoldable pub identify : String → List (String × ℕ) → ℕ × List (String × ℕ)
unfolding find_id add_id
identify name ids = add_id name ids (find_id name ids)
