-- ===== src/Gpio/Transport.antt =====
-- `b_transport`, `execute_transaction`, `transport_dbg`, `configure`, `payload_is_ok` and `transport` of gpio/gpio.cpp. The
-- device is the module with what its last access wrote to the pins.
use sc_platform.Prelude.{
  ℕ, ◌+◌, ◌*◌, Option, none, some, List, [], ltb, Outcome, done, aborted, ◌>>=◌, ◌>>◌, require,
  defined,
}
use sc_platform.Common.{Payload, Command, read, write, ignore, Response, ok_response, Style, u64}
use sc_platform.Config.{Configuration}
use sc_platform.Memory.{Env, set_response, beats, copy_in, copy_out}
use sc_platform.Pic.Transport.{Settings}
use sc_platform.Registers
use sc_platform.Registers.{Configured, Handled}
use sc_platform.Gpio.{Logic, Gpio}
use sc_platform.Gpio.Actions.{Drive, write_actions, read_actions}

abbrev pub Device : Type 0
Device = Gpio × List Drive

unfoldable pub payload_error : Settings → Payload → ℕ → Style → Option Response
unfolding Registers.payload_error
payload_error st trans len style = Registers.payload_error st trans len style

unfoldable pub configure :
    Configured Device → Option Configuration → Configured Device × Option Configuration
unfolding Registers.configure
configure m ext = Registers.configure m ext

pub transport_dbg :
    Env → Configured Device → Payload → Option Configuration → Outcome (Handled Device)
transport_dbg =
    Registers.transport_dbg (λ s. s.0.registers)
      (λ bytes s. (record s.0 { registers = bytes }, s.1))

-- `levels` is that of the actions.
module _ (levels : ℕ → Logic) (env : Env) where
  unfoldable pub serve_write : Configured Device → Payload → ℕ → Outcome (Handled Device)
  unfolding copy_in write_actions
  serve_write m trans delay = do
    ptr ← defined trans.bytes
    regs ← copy_in trans.address trans.data_length m.bank.0.registers ptr
    s ← write_actions levels trans.address (record m.bank.0 { registers = regs })
    done (record {
      device = record m { bank = s };
      trans = record trans { response = ok_response };
      delay = delay + env.period * m.settings.write_clocks * beats env trans.data_length;
      length = trans.data_length;
    })

  unfoldable pub serve_read : Configured Device → Payload → ℕ → Outcome (Handled Device)
  unfolding copy_out read_actions
  serve_read m trans delay = do
    s ← read_actions levels trans.address m.bank.0
    ptr ← defined trans.bytes
    ptr' ← copy_out trans.address trans.data_length s.registers ptr
    done (record {
      device = record m { bank = (s, []) };
      trans = record trans { response = ok_response; bytes = some ptr' };
      delay = delay + env.period * m.settings.read_clocks * beats env trans.data_length;
      length = trans.data_length;
    })

  unfoldable pub serve : Configured Device → Payload → ℕ → Command → Outcome (Handled Device)
  unfolding serve_write serve_read
  serve m trans delay write = serve_write m trans delay
  serve m trans delay read = serve_read m trans delay
  serve m trans delay ignore = done (record {
    device = m;
    trans = record trans { response = ok_response };
    delay = delay;
    length = 0;
  })

  unfoldable pub transport : Configured Device → Payload → ℕ → Outcome (Handled Device)
  unfolding serve
  transport m trans delay = do
    require (ltb (u64 (trans.address + trans.data_length)) m.settings.target_size)
    serve m trans (delay + env.period * m.settings.addr_clocks) trans.command

  unfoldable pub transport_if :
      Configured Device → Payload → ℕ → Option Response → Outcome (Handled Device)
  unfolding transport
  transport_if m trans delay none = transport m trans delay
  transport_if m trans delay (some r) =
      done (record { device = m; trans = set_response env trans r; delay = delay; length = 0 })

  unfoldable pub call : Style → Configured Device → Payload → ℕ → Outcome (Handled Device)
  unfolding transport_if payload_error
  call style m trans delay = elim trans.bytes [
    | none ↦ aborted
    | some _ ↦ transport_if m trans delay (payload_error m.settings trans trans.data_length style)
  ]

  unfoldable pub b_transport : Configured Device → Payload → ℕ → Outcome (Handled Device)
  unfolding call
  b_transport m trans delay = call Style.lt m trans delay

  unfoldable pub execute_transaction : Configured Device → Payload → Outcome (Handled Device)
  unfolding call
  execute_transaction m trans = call Style.at m trans 0
