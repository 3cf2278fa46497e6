-- ===== src/Bus/Route.antt =====
-- The forward and backward interfaces of `Bus_module` in bus/bus.cpp. What the bound modules do with
-- a transaction is other code; a call says where the transaction goes and with what address, and
-- takes the bound module's answer as an argument. The annotated delay is passed on as it is.
pub mod Laws
use sc_platform.Prelude.{
  ℕ, zero, suc, ◌+◌, Bool, true, false, Option, none, some, List, [], ◌∷◌, ltb, if◌then◌else◌,
  Outcome, done, aborted, undefined, ◌>>=◌, defined,
}
use sc_platform.Common.{Payload, ok_response, address_error_response}
use sc_platform.Bus.Map.{AddressMap}
use sc_platform.Bus.Decode.{Decoded, decode_address}
use sc_platform.Bus.Reconstruct.{reconstruct_address}

-- `tlm_phase` and `tlm_sync_enum`.
pub data Phase : Type 0 where
  begin_req end_req begin_resp end_resp : Phase

pub data Sync : Type 0 where
  accepted updated completed : Sync

-- A transaction that the bus refuses, or one that it passes on through a port.
pub data Routed : Type 0 where
  refused : Payload → Routed
  passed : ℕ → Payload → Routed

-- The bus after elaboration: the map, how many targets are bound to `init_socket`, and the global
-- `g_error_at_target`.
pub record Bus : Type 0 where
  pub addr_map : AddressMap
  pub targets : ℕ
  pub error_at_target : Bool

pub refuse : Bool → Payload → Payload
refuse g trans = record trans { response = if g then ok_response else address_error_response }

-- The guard and the forwarding that the four forward calls share. A port equal to the number of
-- targets passes the guard, and indexes the socket out of range.
route_decoded : Bus → Payload → Decoded → Outcome Routed
unfolding refuse
route_decoded b trans d =
    if ltb b.targets d.port then done (refused (refuse b.error_at_target trans)) else (do
      masked ← defined d.masked_address
      (if ltb d.port b.targets
          then done (passed d.port (record trans { address = masked }))
          else undefined))

pub b_transport : Bus → Payload → Outcome Routed
unfolding route_decoded decode_address
b_transport b trans = route_decoded b trans (decode_address b.addr_map trans.address)

-- What a bound module answers to a nonblocking call.
pub record Answer : Type 0 where
  pub status : Sync
  pub trans : Payload
  pub phase : Phase

abbrev is_begin_req : Phase → Bool
is_begin_req begin_req = true
is_begin_req _ = false

abbrev is_completed : Sync → Bool
is_completed completed = true
is_completed _ = false

-- The bus keeps `route_extn->id` with the transaction. `nb_transport_fw` gives its local pointer a
-- value on `BEGIN_REQ` alone, so on any other phase clearing the extension reads an indeterminate one.
clear_extension : Phase → Answer → Outcome (Answer × Option ℕ)
clear_extension phase a = if is_begin_req phase then done (a, none) else undefined

-- After the bound module's call returns.
answered : Phase → Option ℕ → Answer → Outcome (Answer × Option ℕ)
unfolding clear_extension
answered phase route a = if is_completed a.status then clear_extension phase a else done (a, route)

nb_route : (ℕ → Payload → Phase → Answer) → Phase → Option ℕ → Routed → Outcome (Answer × Option ℕ)
unfolding answered
nb_route target phase route (refused trans) =
    clear_extension phase (record { status = completed; trans = trans; phase = phase })
nb_route target phase route (passed port trans) = answered phase route (target port trans phase)

-- `target` is the nonblocking forward call of the module bound to each port; `route` is the
-- extension that the transaction carries, before and after.
pub nb_transport_fw :
    Bus
    → (ℕ → Payload → Phase → Answer)
    → ℕ
    → Payload
    → Phase
    → Option ℕ
    → Outcome (Answer × Option ℕ)
unfolding b_transport nb_route
nb_transport_fw b target id trans phase route = do
  r ← b_transport b trans
  nb_route target phase (if is_begin_req phase then some id else route) r

-- `initiator` is the backward call of the module bound to each socket. The result says which one
-- was called.
pub nb_transport_bw :
    (ℕ → Payload → Phase → Answer) → Payload → Phase → Option ℕ → Outcome (ℕ × Answer × Option ℕ)
nb_transport_bw initiator trans phase none = aborted
nb_transport_bw initiator trans phase (some id) =
    let a = initiator id trans phase in
    done (id, a, if is_completed a.status then none else some id)

-- The range of a direct memory pointer, and whether it is granted.
pub record Dmi : Type 0 where
  pub granted : Bool
  pub start_address : ℕ
  pub end_address : ℕ

dmi_route : AddressMap → (ℕ → Payload → Dmi) → ℕ → Dmi → Routed → Outcome (Dmi × Payload)
unfolding reconstruct_address
dmi_route m target id dmi (refused trans) = done (record dmi { granted = false }, trans)
dmi_route m target id dmi (passed port trans) =
    let d = target port trans in
    done (
      record d {
        start_address = reconstruct_address m d.start_address id;
        end_address = reconstruct_address m d.end_address id;
      },
      trans,
    )

-- `id` is the socket that the call came in by; `dmi` is the range before the call.
pub get_direct_mem_ptr : Bus → (ℕ → Payload → Dmi) → ℕ → Payload → Dmi → Outcome (Dmi × Payload)
unfolding b_transport dmi_route
get_direct_mem_ptr b target id trans dmi = do
  r ← b_transport b trans
  dmi_route b.addr_map target id dmi r

-- The calls back to the initiators, each with its socket and the range.
invalidate_from : ℕ → ℕ → ℕ → ℕ → List (ℕ × ℕ × ℕ)
invalidate_from zero i start end = []
invalidate_from (suc n) i start end = (i, start, end) ∷ invalidate_from n (i + 1) start end

pub invalidate_direct_mem_ptr : AddressMap → ℕ → ℕ → ℕ → ℕ → List (ℕ × ℕ × ℕ)
unfolding invalidate_from reconstruct_address
invalidate_direct_mem_ptr m initiators id start_range end_range =
    invalidate_from initiators 0 (reconstruct_address m start_range id)
      (reconstruct_address m end_range id)
