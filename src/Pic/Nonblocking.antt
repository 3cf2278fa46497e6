-- ===== src/Pic/Nonblocking.antt =====
-- The nonblocking interface of interrupt/pic.cpp: `nb_transport_fw`, `targ_peq_cb`, `send_end_req`, `send_response` and
-- `execute_transaction_process`, over the handshake that the target modules share.
use sc_platform.Prelude.{ℕ, Option, List, Outcome, done, ◌>>=◌}
use sc_platform.Bus.Route.{Phase, Sync}
use sc_platform.Memory.{Env}
use sc_platform.Handshake
use sc_platform.Handshake.{Target}
use sc_platform.Handshake.Device
use sc_platform.Handshake.Device.{Module, Entry}
use Prim.Native.String.{String}
use sc_platform.Common.{Payload, Style}
use sc_platform.Pic.{Pic}
use sc_platform.Pic.Transport.{Settings, pic_call}

pub nb_transport_fw : List Entry → ℕ → Phase → ℕ → List Entry × Sync
nb_transport_fw queue t phase delay = Device.enqueue queue t phase delay

pub send_end_req : Target → ℕ → Outcome Target
send_end_req s t = Handshake.send_end_req s t

pub send_response : Target → ℕ → Sync → Target
send_response s t reply = Handshake.send_response s t reply

module _ (env : Env) (cpu : Option String) where
  execute : Settings × Pic → Payload → Outcome ((Settings × Pic) × Payload)
  execute m trans = do h ← pic_call env m.0 Style.at cpu trans 0 m.1; done ((m.0, h.pic), h.trans)

  pub targ_peq_cb : Module (Settings × Pic) → ℕ → Phase → Sync → Outcome (Module (Settings × Pic))
  unfolding execute
  targ_peq_cb = Device.targ_peq_cb execute

  pub execute_transaction_process :
      Module (Settings × Pic) → Sync → Outcome (Module (Settings × Pic))
  unfolding execute
  execute_transaction_process = Device.execute_transaction_process execute
