-- ===== src/Gpio/Thread.antt =====
-- One round of `Gpio_module::gpio_thread` of gpio/gpio.cpp, after the wait for a port and for the clock's edge.
use sc_platform.Prelude.{
  ℕ, ◌+◌, Bool, true, false, not, ◌&&◌, ◌||◌, List, [], ◌∷◌, ◌==◌, if◌then◌else◌,
}
use sc_platform.Gpio.{
  Logic, is_high, is_low, is_floating, is_unsure, same_logic, invert, Regs, Gpio, has_bit,
}
use sc_platform.Gpio.Actions.{of_flag}

-- The value that a pin is taken to have, against the one in `m_inp`.
unfoldable pub pin_value : Regs → ℕ → Logic → Logic → Logic
unfolding has_bit invert
pin_value r pin v inp =
    if is_floating v && has_bit r.pinpull pin
    then of_flag (has_bit r.pulldir pin)
    else if is_unsure v
    then invert inp
    else v

-- An edge that is looked for.
unfoldable pub detected : Regs → ℕ → Logic → Bool
unfolding has_bit
detected r pin v = (is_high v && has_bit r.pinrise pin) || (is_low v && has_bit r.pinfall pin)

-- The body of the loop, for one pin: the flags, and whether to interrupt.
unfoldable pub check_pin : Regs → ℕ → Logic → Logic → Bool → Regs × Bool
unfolding pin_value detected same_logic
check_pin r pin v inp interrupt =
    let value = pin_value r pin v inp in
    if not (has_bit r.pindirn pin)
    then (r, interrupt)
    else if same_logic value inp
    then (r, interrupt)
    else if detected r pin value
    then (record r { datachg = true }, interrupt || has_bit r.pinintr pin)
    else (r, interrupt)

-- Over the pins from `pin` on, with their values in `m_inp`.
unfoldable pub check_pins : (ℕ → Logic) → Regs → ℕ → List Logic → Bool → Regs × Bool
unfolding check_pin
check_pins levels r pin [] interrupt = (r, interrupt)
check_pins levels r pin (x ∷ xs) interrupt =
    let (r', interrupt') = check_pin r pin (levels pin) x interrupt in
    check_pins levels r' (pin + 1) xs interrupt'

-- A round leaves `m_inp` as it was; the interrupt is sent if one port is bound.
unfoldable pub gpio_round : (ℕ → Logic) → ℕ → Gpio → Gpio × Bool
unfolding check_pins
gpio_round levels ports g =
    let (r, interrupt) = check_pins levels g.regs 0 g.inp false in
    (record g { regs = r }, interrupt && (ports == 1))
