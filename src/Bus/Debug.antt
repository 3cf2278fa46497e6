-- ===== src/Bus/Debug.antt =====
-- `Bus_module::configure`, `Bus_module::transport_dbg` and `Bus_module::start_of_simulation` of
-- bus/bus.cpp. A bound module's debug call is other code, and an argument; it gets the transaction with
-- its configuration extension. `gp_option` is not a field of the model's payload.
pub mod Probing
use Prim.Native.String.{String}
use sc_platform.Prelude.{
  ℕ, Bool, true, false, ◌&&◌, Option, none, some, List, [], ◌==◌, if◌then◌else◌, Outcome, done,
  ◌>>=◌,
}
use sc_platform.Common.{Payload, ok_response, bad_addr}
use sc_platform.Config.{Configuration, string, is_empty, set_field, update}
use sc_platform.Memory.{is_ignore}
use sc_platform.Bus.Map.{TargetInfo}
use sc_platform.Bus.Build.{Probe, build_port_map}
use sc_platform.Bus.Route.{Bus, Routed, refused, passed, b_transport}

-- What `kind()` returns.
abbrev pub kind : String
kind = "Bus_module"

-- The bus as a SystemC object, with its `name()` and its `m_configuration`.
pub record Module : Type 0 where
  pub bus : Bus
  pub name : String
  pub configuration : Configuration

-- The configuration with the name and the kind of the bus.
unfoldable pub named : Module → Configuration
named m = set_field (set_field m.configuration "name" (string m.name)) "kind" (string kind)

-- The extension of the transaction is `none` where it has none.
unfoldable pub configure : Module → Option Configuration → Module × Option Configuration
unfolding named is_empty update
configure m none = (m, none)
configure m (some c) =
    if is_empty c
    then (record m { configuration = named m }, some (named m))
    else (record m { configuration = update (named m) c }, some c)

-- What a debug call leaves of a transaction, and the length that it returns.
pub record Debugged : Type 0 where
  pub trans : Payload
  pub extension : Option Configuration
  pub length : ℕ

unfoldable pub dbg_route :
    (ℕ → Payload → Option Configuration → Debugged) → Option Configuration → Routed → Debugged
dbg_route target ext (refused trans) = record { trans = trans; extension = ext; length = 0 }
dbg_route target ext (passed port trans) = target port trans ext

unfoldable pub is_probe : Payload → Bool
is_probe trans = is_ignore trans.command && (trans.address == bad_addr)

unfoldable pub transport_dbg :
    Module
    → (ℕ → Payload → Option Configuration → Debugged)
    → Payload
    → Option Configuration
    → Outcome (Module × Debugged)
unfolding configure dbg_route is_probe
transport_dbg m target trans ext =
    let (m', ext') = configure m ext in
    if is_probe trans
    then done (
      m',
      record { trans = record trans { response = ok_response }; extension = ext'; length = 0 },
    )
    else (do r ← b_transport m.bus trans; done (m', dbg_route target ext' r))

abbrev is_nil {ℓ} : {A : Type ℓ} → List A → Bool
is_nil [] = true
is_nil _ = false

-- The port map is built once, from the memory map's targets of the bus and the answers of the bound
-- modules to the bus's probes.
unfoldable pub start_of_simulation : List TargetInfo → List Probe → Bus → Bus
unfolding build_port_map
start_of_simulation ts ps b =
    if is_nil b.addr_map then record b { addr_map = build_port_map ts ps } else b
