-- ===== src/Gpio/Actions.antt =====
-- `Gpio_module::write_actions` and `Gpio_module::read_actions` of gpio/gpio.cpp. `levels` gives the value that each
-- pin's signal has when the action runs; what it writes to the signals is a list, in order.
use sc_platform.Prelude.{
  ℕ, zero, suc, ◌+◌, ◌/◌, Bool, true, false, not, ◌&&◌, ◌||◌, Option, none, some, List, [], ◌∷◌,
  ◌++◌, ltb, ◌==◌, if◌then◌else◌, replicate, Outcome, done, ◌>>=◌,
}
use sc_platform.Gpio.{
  Logic, low, high, floating, unsure, is_high, is_floating, same_logic, Regs, Gpio, pins, has_bit,
  get_flag, put_flag,
}

abbrev pub Drive : Type 0
Drive = ℕ × Logic

-- The loop over the pins that a new direction is compared for: it shifts no mask, so it tests the lowest bit for
-- every pin.
unfoldable pub turned : ℕ → Bool → Bool → List Bool
unfolding has_bit
turned zero was now = []
turned (suc n) was now = (has_bit was 0 && not (has_bit now 0)) ∷ turned n was now

unfoldable pub any : List Bool → Bool
any [] = false
any (b ∷ bs) = b || any bs

abbrev pub of_flag : Bool → Logic
of_flag b = if b then high else low

-- The pins that are outputs and whose signals differ get the flag's bit.
unfoldable pub drive_outputs : (ℕ → Logic) → Regs → ℕ → ℕ → List Drive
unfolding has_bit same_logic
drive_outputs levels r pin zero = []
drive_outputs levels r pin (suc n) =
    let rest = drive_outputs levels r (pin + 1) n in
    let value = of_flag (has_bit r.dataout pin) in
    if has_bit r.pindirn pin
    then rest
    else if same_logic (levels pin) value
    then rest
    else (pin, value) ∷ rest

unfoldable pub release_inputs : ℕ → List Bool → List Drive
release_inputs pin [] = []
release_inputs pin (b ∷ bs) =
    let rest = release_inputs (pin + 1) bs in if b then (pin, floating) ∷ rest else rest

unfoldable pub same_out : Option Bool → Bool → Bool
same_out none b = false
same_out (some a) b = if a then b else not b

-- After the switch.
unfoldable pub update_pins : (ℕ → Logic) → List Bool → List Bool → Gpio → Gpio × List Drive
unfolding any drive_outputs release_inputs same_out
update_pins levels new_output new_input g =
    let released = if any new_input then release_inputs 0 new_input else [] in
    if any new_output || not (same_out g.out g.regs.dataout)
    then (record g { out = some g.regs.dataout }, drive_outputs levels g.regs 0 pins ++ released)
    else (g, released)

abbrev pub no_pins : List Bool
no_pins = replicate pins false

-- What a write does to the flags of the module, by the number of the register; `v` is the flag that was written.
unfoldable pub write_flag : ℕ → Bool → Regs → Regs
write_flag i v r =
    if i == 0
    then record r { pindirn = v }
    else if i == 1
    then record r { pinintr = v }
    else if i == 2
    then record r { pinpull = v }
    else if i == 3
    then record r { pulldir = v }
    else if i == 5
    then record r { dataout = v }
    else if i == 6
    then record r { dataset = v; dataout = r.dataout || v }
    else if i == 7
    then record r { dataclr = v; dataout = r.dataout && not v }
    else if i == 8
    then record r { datainv = v; dataout = if v then not r.dataout else r.dataout }
    else if i == 9
    then record r { datachg = r.datachg && v }
    else if i == 10
    then record r { dataena = v; datachg = r.datachg && not v }
    else if i == 11
    then record r { pinrise = v }
    else record r { pinfall = v }

-- The registers whose case reads the flag that was written; register 4 has no effect.
abbrev pub is_written : ℕ → Bool
is_written i = ltb i 13 && not (i == 4)

-- Only the register of the directions turns pins.
unfoldable pub turned_by : ℕ → Bool → Bool → List Bool
unfolding turned
turned_by i was now = if i == 0 then turned pins was now else no_pins

-- The registers stand eight addresses apart, and the flags one byte.
unfoldable pub write_actions : (ℕ → Logic) → ℕ → Gpio → Outcome (Gpio × List Drive)
write_actions levels address g =
    let i = address / 8 in
    if not (is_written i) then done (update_pins levels no_pins no_pins g) else (do
      v ← get_flag i g.registers
      let was = g.regs.pindirn
      done (
          update_pins levels (turned_by i was v) (turned_by i v was)
            (record g { regs = write_flag i v g.regs })))

-- The level of a pin, with the pull that is in effect.
unfoldable pub pulled : Regs → ℕ → Logic → Logic
unfolding has_bit
pulled r pin v =
    if is_floating v && has_bit r.pinpull pin then of_flag (has_bit r.pulldir pin) else v

-- The loop over the pins, from the highest down: a flag that any high pin sets.
unfoldable pub read_inputs : (ℕ → Logic) → Regs → ℕ → Bool → Bool
unfolding pulled
read_inputs levels r zero inp = inp
read_inputs levels r (suc pin) inp =
    read_inputs levels r pin (inp || is_high (pulled r pin (levels pin)))

unfoldable pub read_flag : ℕ → Regs → Bool
read_flag i r =
    if i == 0
    then r.pindirn
    else if i == 1
    then r.pinintr
    else if i == 2
    then r.pinpull
    else if i == 3
    then r.pulldir
    else if i == 4
    then r.datainp
    else if i == 5
    then r.dataout
    else if i == 6
    then r.dataset
    else if i == 7
    then r.dataclr
    else if i == 9
    then r.datachg
    else if i == 10
    then r.dataena
    else if i == 11
    then r.pinrise
    else r.pinfall

-- A read of the inputs samples them first.
unfoldable pub sampled : (ℕ → Logic) → ℕ → Regs → Regs
unfolding read_inputs
sampled levels i r = if i == 4 then record r { datainp = read_inputs levels r pins false } else r

-- Register 8 is copied onto itself.
unfoldable pub read_actions : (ℕ → Logic) → ℕ → Gpio → Outcome Gpio
unfolding get_flag put_flag read_flag sampled
read_actions levels address g =
    let i = address / 8 in
    let r = sampled levels i g.regs in
    if not (ltb i 13) then done g else (do
      v ← (if i == 8 then get_flag 8 g.registers else done (read_flag i r))
      bytes ← put_flag i v g.registers
      done (record g { registers = bytes; regs = r }))

-- What the start of the simulation writes to the pins, and makes of `m_inp` and `m_out`.
pub start_of_simulation : Gpio → Gpio × List Drive
unfolding release_inputs
start_of_simulation g =
    (record g { out = none; inp = replicate pins unsure }, release_inputs 0 (replicate pins true))
