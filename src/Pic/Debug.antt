-- ===== src/Pic/Debug.antt =====
-- `Pic_module::configure` and `Pic_module::transport_dbg` of interrupt/pic.cpp.
use sc_platform.Prelude.{Option, Outcome}
use sc_platform.Common.{Payload}
use sc_platform.Config.{Configuration}
use sc_platform.Memory.{Env}
use sc_platform.Pic.{Pic}
use sc_platform.Registers
use sc_platform.Registers.{Configured, Handled}

pub configure : Configured Pic → Option Configuration → Configured Pic × Option Configuration
configure m ext = Registers.configure m ext

pub transport_dbg : Env → Configured Pic → Payload → Option Configuration → Outcome (Handled Pic)
transport_dbg =
    Registers.transport_dbg (λ s. s.registers) (λ bytes s. record s { registers = bytes })
