-- ===== src/Tests/Gpios.antt =====
-- The module of gpio/gpio.cpp with its vector of one byte, and with one that holds all its flags.
use sc_platform.Prelude.{
  ℕ, ◌≡◌, refl, true, false, none, some, [], ◌∷◌, arith, ◌==◌, if◌then◌else◌, replicate, All, done,
  undefined,
}
use sc_platform.Common.{Payload, write, incomplete_response, Style}
use sc_platform.Registers.{Configured}
use sc_platform.Gpio.{Logic, low, high, unsure, Regs, Gpio, initial_registers, get_flag}
use sc_platform.Gpio.Actions.{write_actions, turned_by, write_flag, update_pins}
use sc_platform.Gpio.Thread.{gpio_round}
use sc_platform.Gpio.Pins.{IsModest, write_actions-IsModest, gpio_round_levels}
use sc_platform.Gpio.Transport.{Device, payload_error, call}
use sc_platform.Gpio.Faults.{call_undefined}
use sc_platform.Tests.Memories.{env}

abbrev watching : Regs
watching = record {
  pindirn = true;
  pinintr = true;
  pinpull = false;
  pulldir = false;
  datainp = false;
  dataout = false;
  dataset = false;
  dataclr = false;
  datainv = false;
  datachg = false;
  dataena = false;
  pinrise = true;
  pinfall = false;
}

abbrev gpio : Gpio
gpio = record {
  registers = initial_registers;
  regs = watching;
  out = none;
  inp = replicate 64 unsure;
}

-- All outputs, and the byte of each flag set.
abbrev wide : Gpio
wide = record gpio {
  registers = replicate 16 1;
  regs = record watching { pindirn = false };
  out = some false;
}

abbrev levels : ℕ → Logic
levels pin = if pin == 0 then high else low

abbrev device : Configured Device
device = record {
  configuration = record { data_map = []; dflt_map = []; reqd_key_set = [] };
  settings = record {
    target_size = 128;
    max_burst = 4;
    addr_clocks = 1;
    read_clocks = 2;
    write_clocks = 3;
  };
  bank = (gpio, []);
}

abbrev payload : Payload
payload = record {
  command = write;
  address = 40;
  bytes = some (1 ∷ 0 ∷ 0 ∷ 0 ∷ []);
  data_length = 4;
  streaming_width = 4;
  byte_enabled = false;
  response = incomplete_response;
}

-- A write that inverts the outputs drives the first pin high, if it is low.
wide_written :
    write_actions (λ _. low) 64 wide
    ≡ done (
      record wide {
        regs = record watching { pindirn = false; datainv = true; dataout = true };
        out = some true;
      },
      (0, high) ∷ [],
    )
unfolding write_actions get_flag turned_by write_flag update_pins
wide_written = refl

write_actions-IsModest_example : All IsModest ((0, high) ∷ [])
write_actions-IsModest_example =
    write_actions-IsModest (λ _. low) 64 wide
      (record wide {
        regs = record watching { pindirn = false; datainv = true; dataout = true };
        out = some true;
      })
      ((0, high) ∷ []) wide_written

gpio_round_levels_example :
    gpio_round levels 1 gpio ≡ (record gpio { regs = record watching { datachg = true } }, true)
gpio_round_levels_example = gpio_round_levels levels 1 gpio (replicate 63 unsure) refl

payload_passes : payload_error device.settings payload payload.data_length Style.lt ≡ none
unfolding payload_error
payload_passes = refl

call_undefined_example : call levels env Style.lt device payload 0 ≡ undefined
call_undefined_example =
    call_undefined levels env Style.lt device payload 0 (1 ∷ 0 ∷ 0 ∷ 0 ∷ []) refl refl
      payload_passes refl (omega arith)
