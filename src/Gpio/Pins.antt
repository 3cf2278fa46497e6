-- ===== src/Gpio/Pins.antt =====
-- What the flags of one bit come to in gpio/gpio.cpp: pins other than the first are driven low, and never watched.
use native.Mathlib.Nat.{div-eq_of_lt, one-le-pow, two-pow-succ}
use sc_platform.Prelude.{
  ℕ, zero, suc, ◌+◌, ◌/◌, ◌^◌, ◌<◌, ◌≡◌, refl, ap, ◌∙◌, ◌⊎◌, inl, inr, Bool, true, false, not, ◌&&◌,
  ◌||◌, List, [], ◌∷◌, ◌++◌, arith, ◌==◌, if◌then◌else◌, Bool-cases, All, done, Ensures,
  >>=-Ensures, if-Ensures, Ensures-done,
}
use sc_platform.Gpio.{
  Logic, low, high, floating, unsure, is_high, is_low, is_floating, same_logic, Regs, Gpio, pins,
  has_bit, get_flag,
}
use sc_platform.Gpio.Actions.{
  Drive, of_flag, any, drive_outputs, release_inputs, update_pins, write_actions, same_out,
  is_written, no_pins, turned_by, write_flag,
}
use sc_platform.Gpio.Thread.{check_pin, check_pins, gpio_round}

-- A flag has a bit for the first pin alone.
bit_small : (b : Bool) → (if b then 1 else 0) < 2
bit_small b = ground arith

has_bit-suc : (b : Bool) (pin : ℕ) → has_bit b (suc pin) ≡ false
unfolding has_bit
has_bit-suc b pin =
    let none_left : (if b then 1 else 0) / 2 ^ suc pin ≡ 0 =
      div-eq_of_lt (omega (arith, bit_small b, two-pow-succ pin, one-le-pow pin 2)) in
    rw none_left

has_bit-later : (b : Bool) (pin : ℕ) → 0 < pin → has_bit b pin ≡ false
has_bit-later b zero h = elim h [ ]
has_bit-later b (suc pin) h = has_bit-suc b pin

-- The first pin, or not driven high.
abbrev pub IsModest : Drive → Type 0
IsModest d = (d.0 ≡ 0) ⊎ (is_high d.1 ≡ false)

All-append : (ds es : List Drive) → All IsModest ds → All IsModest es → All IsModest (ds ++ es)
All-append [] es h k = k
All-append (d ∷ ds) es h k = (h.0, All-append ds es h.1 k)

value-IsModest : (b : Bool) (pin : ℕ) → IsModest (pin, of_flag (has_bit b pin))
value-IsModest b zero = inl refl
value-IsModest b (suc pin) = inr (rw (has_bit-suc b pin))

drive_outputs-IsModest :
    (levels : ℕ → Logic) (r : Regs) (pin n : ℕ) → All IsModest (drive_outputs levels r pin n)
unfolding drive_outputs
drive_outputs-IsModest levels r pin zero = tt
drive_outputs-IsModest levels r pin (suc n) =
    let ih = drive_outputs-IsModest levels r (pin + 1) n in
    elim (Bool-cases (has_bit r.pindirn pin)) [
      | inl input ↦ rw input ih
      | inr output ↦ elim (Bool-cases (same_logic (levels pin) (of_flag (has_bit r.dataout pin)))) [
        | inl same ↦ rw (output, same) ih
        | inr new ↦ rw (output, new) (value-IsModest r.dataout pin, ih)
      ]
    ]

release_inputs-IsModest : (pin : ℕ) (bs : List Bool) → All IsModest (release_inputs pin bs)
unfolding release_inputs
release_inputs-IsModest pin [] = tt
release_inputs-IsModest pin (true ∷ bs) = (inr refl, release_inputs-IsModest (pin + 1) bs)
release_inputs-IsModest pin (false ∷ bs) = release_inputs-IsModest (pin + 1) bs

update_pins-IsModest :
    (levels : ℕ → Logic) (outs ins : List Bool) (g : Gpio)
    → All IsModest (update_pins levels outs ins g).1
unfolding update_pins
update_pins-IsModest levels outs ins g =
    let released : All IsModest (if any ins then release_inputs 0 ins else []) =
      elim (Bool-cases (any ins)) [
        | inl some_in ↦ rw some_in (release_inputs-IsModest 0 ins)
        | inr none_in ↦ rw none_in tt
      ] in
    elim (Bool-cases (any outs || not (same_out g.out g.regs.dataout))) [
      | inl changed ↦ rw changed (
          All-append (drive_outputs levels g.regs 0 pins) _
            (drive_outputs-IsModest levels g.regs 0 pins) released)
      | inr same ↦ rw same released
    ]

allowed_by_write :
    (levels : ℕ → Logic) (address : ℕ) (g : Gpio)
    → Ensures (λ x. All IsModest x.1) (write_actions levels address g)
unfolding write_actions
allowed_by_write levels address g =
    let P : Gpio × List Drive → Type 0 = λ x. All IsModest x.1 in
    let i = address / 8 in
    if-Ensures P (not (is_written i)) _ _ (λ _. update_pins-IsModest levels no_pins no_pins g)
      (λ _. >>=-Ensures P (get_flag i g.registers) _ (λ v _.
        update_pins-IsModest levels (turned_by i g.regs.pindirn v) (turned_by i v g.regs.pindirn)
          (record g { regs = write_flag i v g.regs })))

-- No write to the registers that succeeds drives a pin other than the first high, whatever the flags are and
-- whatever is written to them.
pub write_actions-IsModest :
    (levels : ℕ → Logic) (address : ℕ) (g g' : Gpio) (ds : List Drive)
    → write_actions levels address g ≡ done (g', ds)
    → All IsModest ds
write_actions-IsModest levels address g g' ds =
    Ensures-done (λ x. All IsModest x.1) (write_actions levels address g)
      (allowed_by_write levels address g)

-- The pins after the first are passed over.
check_pins-rest :
    (levels : ℕ → Logic) (r : Regs) (pin : ℕ) (xs : List Logic) (interrupt : Bool)
    → 0 < pin
    → check_pins levels r pin xs interrupt ≡ (r, interrupt)
unfolding check_pins check_pin
check_pins-rest levels r pin [] interrupt h = refl
check_pins-rest levels r pin (x ∷ xs) interrupt h =
    rw (has_bit-later r.pindirn pin h)
      (check_pins-rest levels r (pin + 1) xs interrupt (omega arith))

-- The level of the first pin, with its pull, and whether it is one that an input is watched for.
abbrev pub pin_level : Regs → Logic → Logic
pin_level r v = if is_floating v && r.pinpull then of_flag r.pulldir else v

abbrev pub is_watched : Regs → Logic → Bool
is_watched r v =
    r.pindirn && ((is_high (pin_level r v) && r.pinrise) || (is_low (pin_level r v) && r.pinfall))

check_pin-first :
    (v : Logic) (r : Regs)
    → check_pin r 0 v unsure false
      ≡ (record r { datachg = r.datachg || is_watched r v }, is_watched r v && r.pinintr)
unfolding check_pin
check_pin-first low r = ground arith
check_pin-first high r = ground arith
check_pin-first floating r = ground arith
check_pin-first unsure r = ground arith

-- While `m_inp` has the X of the simulation's start for the first pin, a round notes a change just as that
-- pin is an input whose level, with its pull, is one that is watched for, and interrupts a single bound port
-- just as, besides, the flag `pinintr` is set, whatever the level was before and whatever the other pins are;
-- `m_inp` stays as it is, so every later round does so too.
pub gpio_round_levels :
    (levels : ℕ → Logic) (ports : ℕ) (g : Gpio) (xs : List Logic)
    → g.inp ≡ unsure ∷ xs
    → gpio_round levels ports g ≡ (
      record g {
        regs = record g.regs { datachg = g.regs.datachg || is_watched g.regs (levels 0) };
      },
      (is_watched g.regs (levels 0) && g.regs.pinintr) && (ports == 1),
    )
unfolding gpio_round
gpio_round_levels levels ports g xs start =
    let r' = record g.regs { datachg = g.regs.datachg || is_watched g.regs (levels 0) } in
    let interrupt = is_watched g.regs (levels 0) && g.regs.pinintr in
    let checked : check_pins levels g.regs 0 g.inp false ≡ (r', interrupt) =
      ap (λ inp. check_pins levels g.regs 0 inp false) start
      ∙ ap (λ p. check_pins levels p.0 1 xs p.1) (check_pin-first (levels 0) g.regs)
      ∙ check_pins-rest levels r' 1 xs interrupt (omega arith) in
    ap (λ p. (record g { regs = p.0 }, p.1 && (ports == 1))) checked
