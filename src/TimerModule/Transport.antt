-- ===== src/TimerModule/Transport.antt =====
-- `b_transport`, `execute_transaction`, `transport_dbg`, `configure`, `payload_is_ok` and `transport` of
-- timer/timer.cpp.
use sc_platform.Prelude.{
  ℕ, ◌+◌, ◌*◌, Option, none, some, ltb, Outcome, done, aborted, ◌>>=◌, ◌>>◌, require, defined,
}
use sc_platform.Common.{Payload, Command, read, write, ignore, Response, ok_response, Style, u64}
use sc_platform.Kernel.{EventKernel, TimeArithmetic}
use sc_platform.Config.{Configuration}
use sc_platform.Memory.{Env, set_response, beats, copy_in, copy_out}
use sc_platform.Pic.Transport.{Settings}
use sc_platform.Registers
use sc_platform.Registers.{Configured, Handled}
use sc_platform.TimerModule.{TimerModule}
use sc_platform.TimerModule.Actions.{write_actions, read_actions}

-- The checks in their order; `none` where the payload passes them all.
unfoldable pub payload_error : Settings → Payload → ℕ → Style → Option Response
unfolding Registers.payload_error
payload_error st trans len style = Registers.payload_error st trans len style

module _ {Event : Type 0} where
  pub configure :
      Configured (TimerModule Event)
      → Option Configuration
      → Configured (TimerModule Event) × Option Configuration
  configure m ext = Registers.configure m ext

  pub transport_dbg :
      Env
      → Configured (TimerModule Event)
      → Payload
      → Option Configuration
      → Outcome (Handled (TimerModule Event))
  transport_dbg =
      Registers.transport_dbg (λ s. s.registers) (λ bytes s. record s { registers = bytes })

module _ (k : EventKernel) (w : TimeArithmetic) where
  open k use {Event}
  open w use {times}

  unfoldable pub serve_write :
      Env → ℕ → Configured (TimerModule Event) → Payload → ℕ → Outcome (Handled (TimerModule Event))
  unfolding copy_in write_actions
  serve_write env now m trans delay0 = do
    ptr ← defined trans.bytes
    regs ← copy_in trans.address trans.data_length m.bank.registers ptr
    let clocks = times m.settings.write_clocks env.period * beats env trans.data_length
    let delay = delay0 + clocks
    b ←
        write_actions k w env.period now delay trans.address trans.data_length
          (record m.bank { registers = regs })
    done (record {
      device = record m { bank = b };
      trans = record trans { response = ok_response };
      delay = delay;
      length = trans.data_length;
    })

  unfoldable pub serve_read :
      Env → ℕ → Configured (TimerModule Event) → Payload → ℕ → Outcome (Handled (TimerModule Event))
  unfolding copy_out read_actions
  serve_read env now m trans delay = do
    b ← read_actions k w env.period now delay trans.address trans.data_length m.bank
    ptr ← defined trans.bytes
    ptr' ← copy_out trans.address trans.data_length b.registers ptr
    done (record {
      device = record m { bank = b };
      trans = record trans { response = ok_response; bytes = some ptr' };
      delay = delay + times m.settings.read_clocks env.period * beats env trans.data_length;
      length = trans.data_length;
    })

  unfoldable pub serve :
      Env
      → ℕ
      → Configured (TimerModule Event)
      → Payload
      → ℕ
      → Command
      → Outcome (Handled (TimerModule Event))
  unfolding serve_write serve_read
  serve env now m trans delay write = serve_write env now m trans delay
  serve env now m trans delay read = serve_read env now m trans delay
  serve env now m trans delay ignore = done (record {
    device = m;
    trans = record trans { response = ok_response };
    delay = delay;
    length = 0;
  })

  unfoldable pub transport :
      Env → ℕ → Configured (TimerModule Event) → Payload → ℕ → Outcome (Handled (TimerModule Event))
  unfolding serve
  transport env now m trans delay = do
    require (ltb (u64 (trans.address + trans.data_length)) m.settings.target_size)
    serve env now m trans (delay + times m.settings.addr_clocks env.period) trans.command

  unfoldable pub transport_if :
      Env
      → ℕ
      → Configured (TimerModule Event)
      → Payload
      → ℕ
      → Option Response
      → Outcome (Handled (TimerModule Event))
  unfolding transport
  transport_if env now m trans delay none = transport env now m trans delay
  transport_if env now m trans delay (some r) =
      done (record { device = m; trans = set_response env trans r; delay = delay; length = 0 })

  -- A call of either coding style, at the time `now`.
  unfoldable pub call :
      Env
      → ℕ
      → Style
      → Configured (TimerModule Event)
      → Payload
      → ℕ
      → Outcome (Handled (TimerModule Event))
  unfolding transport_if payload_error
  call env now style m trans delay = elim trans.bytes [
    | none ↦ aborted
    | some _ ↦
        transport_if env now m trans delay (payload_error m.settings trans trans.data_length style)
  ]

  unfoldable pub b_transport :
      Env → ℕ → Configured (TimerModule Event) → Payload → ℕ → Outcome (Handled (TimerModule Event))
  unfolding call
  b_transport env now m trans delay = call env now Style.lt m trans delay

  unfoldable pub execute_transaction :
      Env → ℕ → Configured (TimerModule Event) → Payload → Outcome (Handled (TimerModule Event))
  unfolding call
  execute_transaction env now m trans = call env now Style.at m trans 0
