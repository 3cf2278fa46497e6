-- ===== src/Registers.antt =====
-- What the modules with registers do alike, line for line, in interrupt/pic.cpp, timer/timer.cpp and
-- uart/uart.cpp: `payload_is_ok`, `configure` and `transport_dbg`. A module is a device whose registers are bytes.
pub mod Laws
use sc_platform.Prelude.{
  ℕ, Option, none, some, List, if◌then◌else◌, Outcome, done, aborted, ◌>>=◌, defined,
}
use sc_platform.Common.{Payload, Command, read, write, ignore, Response, ok_response, Style}
use sc_platform.Config.{Configuration, is_empty, update, get_field, as_word}
use sc_platform.Memory.{Env, set_response, copy_in, copy_out, is_ignore, truncate}
use sc_platform.Pic.Transport.{Settings, pic_error}

-- The module with its configuration and the settings that the configuration can change.
pub record Configured (Device : Type 0) : Type 0 where
  pub configuration : Configuration
  pub settings : Settings
  pub bank : Device

-- What a call leaves; `length` is what it returns, where it returns a length.
pub record Handled (Device : Type 0) : Type 0 where
  pub device : Configured Device
  pub trans : Payload
  pub delay : ℕ
  pub length : ℕ

-- The checks in their order; `none` where the payload passes them all.
unfoldable pub payload_error : Settings → Payload → ℕ → Style → Option Response
unfolding pic_error
payload_error st trans len style = pic_error st trans len style

module _ {Device : Type 0} where
  unfoldable pub configure :
      Configured Device → Option Configuration → Configured Device × Option Configuration
  unfolding is_empty update get_field
  configure m none = (m, none)
  configure m (some c) = if is_empty c then (m, some m.configuration) else (
    record m {
      configuration = update m.configuration c;
      settings = record m.settings {
        target_size = get_field as_word c "target_size" m.settings.target_size;
        addr_clocks = get_field as_word c "addr_clocks" m.settings.addr_clocks;
        read_clocks = get_field as_word c "read_clocks" m.settings.read_clocks;
        write_clocks = get_field as_word c "write_clocks" m.settings.write_clocks;
      };
    },
    some c,
  )

module _ {Device : Type 0} (registers : Device → List ℕ)
    (with_registers : List ℕ → Device → Device) where
  -- The bytes alone, without the actions of the registers, the delay and the response.
  unfoldable pub dbg_serve : Configured Device → Payload → ℕ → Command → Outcome (Handled Device)
  unfolding copy_in copy_out
  dbg_serve m trans len write = do
    ptr ← defined trans.bytes
    regs ← copy_in trans.address len (registers m.bank) ptr
    done (record {
      device = record m { bank = with_registers regs m.bank };
      trans = trans;
      delay = 0;
      length = len;
    })
  dbg_serve m trans len read = do
    ptr ← defined trans.bytes
    ptr' ← copy_out trans.address len (registers m.bank) ptr
    done
        (record { device = m; trans = record trans { bytes = some ptr' }; delay = 0; length = len })
  dbg_serve m trans len ignore = done (record { device = m; trans = trans; delay = 0; length = 0 })

  unfoldable pub dbg_if :
      Env → Configured Device → Payload → ℕ → Option Response → Outcome (Handled Device)
  unfolding dbg_serve
  dbg_if env m trans len none = dbg_serve m trans len trans.command
  dbg_if env m trans len (some r) =
      done (record { device = m; trans = set_response env trans r; delay = 0; length = 0 })

  unfoldable pub transport_dbg :
      Env → Configured Device → Payload → Option Configuration → Outcome (Handled Device)
  unfolding configure truncate payload_error dbg_if
  transport_dbg env m0 trans ext =
      let m = (configure m0 ext).0 in
      let len = truncate m.settings.target_size trans.address trans.data_length in
      if is_ignore trans.command
      then done (record {
        device = m;
        trans = record trans { response = ok_response };
        delay = 0;
        length = 0;
      })
      else elim trans.bytes [
        | none ↦ aborted
        | some _ ↦ dbg_if env m trans len (payload_error m.settings trans len Style.lt)
      ]
