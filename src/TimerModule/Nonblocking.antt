-- ===== src/TimerModule/Nonblocking.antt =====
-- The nonblocking interface of timer/timer.cpp: `nb_transport_fw`, `targ_peq_cb`, `send_end_req`, `send_response` and
-- `execute_transaction_process`, over the handshake that the target modules share.
use sc_platform.Prelude.{ℕ, List, Outcome, done, ◌>>=◌}
use sc_platform.Common.{Payload}
use sc_platform.Bus.Route.{Phase, Sync}
use sc_platform.Memory.{Env}
use sc_platform.Handshake
use sc_platform.Handshake.{Target}
use sc_platform.Handshake.Device
use sc_platform.Handshake.Device.{Module, Entry}
use sc_platform.Kernel.{EventKernel, TimeArithmetic}
use sc_platform.Registers.{Configured}
use sc_platform.TimerModule.{TimerModule}
use sc_platform.TimerModule.Transport.{execute_transaction}

pub nb_transport_fw : List Entry → ℕ → Phase → ℕ → List Entry × Sync
nb_transport_fw queue t phase delay = Device.enqueue queue t phase delay

pub send_end_req : Target → ℕ → Outcome Target
send_end_req s t = Handshake.send_end_req s t

pub send_response : Target → ℕ → Sync → Target
send_response s t reply = Handshake.send_response s t reply

module _ (k : EventKernel) (w : TimeArithmetic) (env : Env) (now : ℕ) where
  execute :
      Configured (TimerModule k.Event)
      → Payload
      → Outcome (Configured (TimerModule k.Event) × Payload)
  execute m trans = do h ← execute_transaction k w env now m trans; done (h.device, h.trans)

  pub targ_peq_cb :
      Module (Configured (TimerModule k.Event))
      → ℕ
      → Phase
      → Sync
      → Outcome (Module (Configured (TimerModule k.Event)))
  unfolding execute
  targ_peq_cb = Device.targ_peq_cb execute

  pub execute_transaction_process :
      Module (Configured (TimerModule k.Event))
      → Sync
      → Outcome (Module (Configured (TimerModule k.Event)))
  unfolding execute
  execute_transaction_process = Device.execute_transaction_process execute
