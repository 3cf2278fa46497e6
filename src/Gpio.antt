-- ===== src/Gpio.antt =====
-- gpio/gpio.hpp and gpio/gpio_reg.h: the state of `Gpio_module`, whose registers are flags, one to a byte.
pub mod Actions
pub mod Thread
pub mod Transport
pub mod Nonblocking
pub mod Pins
pub mod Faults
use sc_platform.Prelude.{
  ℕ, zero, suc, ◌+◌, ◌-◌, ◌*◌, ◌/◌, ◌%◌, ◌^◌, ◌≤◌, ◌<◌, min, max, bit_and, bit_or, bit_xor, ◌≡◌,
  refl, sym, ap, ap₂, ◌∙◌, ◌≢◌, ◌↔◌, ◌⊎◌, inl, inr, Bool, true, false, not, ◌&&◌, ◌||◌, Option,
  none, some, List, [], ◌∷◌, ◌++◌, map, arith, ltb, leb, ◌==◌, if◌then◌else◌, Bool-cases,
  Option-cases, ==_iff, length, get_elem?, set, take, drop, replicate, slice, overwrite, resize,
  length-overwrite, length-resize, length-slice, slice-overwrite, get_elem?-overwrite_below,
  get_elem?-overwrite_above, get_elem?-resize, length-append, length-take, length-drop,
  length-replicate, length-set, get_elem?-set_self, get_elem?-set_ne, take-append, drop-append,
  get_elem?-lt, get_elem?-ge, All, Among, All-Among, Outcome, done, aborted, undefined, ◌>>=◌, ◌>>◌,
  require, defined, >>=-eq-done, IsDefined, >>=-IsDefined, require-IsDefined, if-IsDefined,
  IsDefined-cases, Ensures,
}

-- The four values of `sc_logic` (IEEE 1666).
pub data Logic : Type 0 where
  low high floating unsure : Logic

abbrev pub is_high : Logic → Bool
is_high high = true
is_high _ = false

abbrev pub is_low : Logic → Bool
is_low low = true
is_low _ = false

abbrev pub is_floating : Logic → Bool
is_floating floating = true
is_floating _ = false

abbrev pub is_unsure : Logic → Bool
is_unsure unsure = true
is_unsure _ = false

unfoldable pub same_logic : Logic → Logic → Bool
same_logic low low = true
same_logic high high = true
same_logic floating floating = true
same_logic unsure unsure = true
same_logic _ _ = false

-- `~` of an `sc_logic`, as IEEE 1666 has it.
unfoldable pub invert : Logic → Logic
invert low = high
invert high = low
invert _ = unsure

-- `Gpio_regs_t`, without its reserved flags.
pub record Regs : Type 0 where
  pub pindirn : Bool
  pub pinintr : Bool
  pub pinpull : Bool
  pub pulldir : Bool
  pub datainp : Bool
  pub dataout : Bool
  pub dataset : Bool
  pub dataclr : Bool
  pub datainv : Bool
  pub datachg : Bool
  pub dataena : Bool
  pub pinrise : Bool
  pub pinfall : Bool

-- `m_out` is `none` while it is what `start_of_simulation` made it, 64 times Z, which no flag equals; `inp` is
-- `m_inp`, from pin 0 on.
pub record Gpio : Type 0 where
  pub registers : List ℕ
  pub regs : Regs
  pub out : Option Bool
  pub inp : List Logic

abbrev pub pins : ℕ
pins = 64

-- What the constructor makes of `m_register_vec { GPIO_REGS_SIZE }`: a vector of one byte, the size of `Gpio_regs_t`.
abbrev pub initial_registers : List ℕ
initial_registers = 16 ∷ []

-- `regs & bit`, for a flag and the mask of a pin.
unfoldable pub has_bit : Bool → ℕ → Bool
has_bit b pin = (if b then 1 else 0) / 2 ^ pin % 2 == 1

-- A flag in the registers: a byte that is neither 0 nor 1 is no value of a `bool`.
unfoldable pub as_flag : ℕ → Outcome Bool
as_flag v = if v == 0 then done false else if v == 1 then done true else undefined

unfoldable pub get_flag : ℕ → List ℕ → Outcome Bool
unfolding as_flag
get_flag i bytes = do v ← defined (get_elem? bytes i); as_flag v

unfoldable pub put_flag : ℕ → Bool → List ℕ → Outcome (List ℕ)
put_flag i b bytes =
    if ltb i (length bytes) then done (set bytes i (if b then 1 else 0)) else undefined
