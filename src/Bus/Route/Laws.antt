-- ===== src/Bus/Route/Laws.antt =====
-- Where the bus of bus/bus.cpp sends a transaction.
use native.Mathlib.Decide.{ℕ_discrete}
use sc_platform.Prelude.{
  ℕ, ◌-◌, ◌^◌, ◌<◌, ◌≡◌, refl, ◌≢◌, ◌⊎◌, Bool, Option, none, some, List, arith, length, All, Among,
  All-Among, done, aborted, undefined,
}
use sc_platform.Common.{Payload, bad_addr, bad_port}
use sc_platform.Bus.Map.{TargetInfo, AddressMap, Below}
use sc_platform.Bus.Check.{check_port_map}
use sc_platform.Bus.Decode.{
  decode_address, decode_address_complete, decode_address_sound, decode_address_fails, Covers,
}
use sc_platform.Bus.Build.{Probe, build_port_map, HasPort, build_port_map-HasPort}
use sc_platform.Bus.Route.{
  completed, nb_transport_bw, Bus, Phase, begin_req, end_resp, accepted, refused, passed, Answer,
  refuse, b_transport, nb_transport_fw,
}

-- A bus whose map passes its check and whose targets are bound: what the guards of a call rely on.
pub record IsReady (b : Bus) : Type 0 where
  pub keyed : Below (2 ^ 64) b.addr_map
  pub checked : (check_port_map b.addr_map).mapping_errors ≡ 0
  pub few : b.targets < bad_port

-- A bus is ready if the keys of its map descend, the map's check counts no error, and it has
-- fewer targets than `BAD_PORT`. A ready bus passes a transaction at an address other than
-- `BAD_ADDR` that an entry covers to the entry's port, if it has that port, with the offset into
-- the entry for its address and nothing else of it changed.
pub b_transport_delivers :
    (b : Bus) (e : ℕ × TargetInfo) (trans : Payload)
    → IsReady b
    → Among e b.addr_map
    → Covers trans.address e
    → trans.address ≢ bad_addr
    → e.1.port < b.targets
    → b_transport b trans ≡ done (passed e.1.port (record trans { address = trans.address - e.0 }))
unfolding b_transport
b_transport_delivers b e trans r here c known has =
    rw (decode_address_complete b.addr_map e trans.address r.keyed r.checked here c known)
      (ground arith)

-- A transaction at an address that no entry covers is refused by a bus with fewer targets than
-- `BAD_PORT`: it comes back with its response set and nothing else of it changed.
pub b_transport_refuses :
    (b : Bus) (trans : Payload)
    → b.targets < bad_port
    → ((e : ℕ × TargetInfo) → Among e b.addr_map → ¬ Covers trans.address e)
    → b_transport b trans ≡ done (refused (refuse b.error_at_target trans))
unfolding b_transport
b_transport_refuses b trans few none_covers =
    ground (arith, decode_address_fails b.addr_map trans.address none_covers)

HasPort-port :
    (n : ℕ) (m : AddressMap) (e : ℕ × TargetInfo)
    → HasPort n m
    → Among e m
    → (e.1.port ≡ bad_port) ⊎ (e.1.port < n)
HasPort-port n m e = All-Among (λ f. (f.1.port ≡ bad_port) ⊎ (f.1.port < n)) e m

-- A bus that builds its own port map, from a memory map without ports and one answer for each of
-- its targets, fewer than `BAD_PORT`, never indexes its socket out of range, whatever the
-- address.
pub b_transport_safe :
    (ts : List TargetInfo) (ps : List Probe) (g : Bool) (trans : Payload)
    → All (λ t. t.port ≡ bad_port) ts
    → length ps < bad_port
    → b_transport
        (record { addr_map = build_port_map ts ps; targets = length ps; error_at_target = g })
        trans
      ≢ undefined
unfolding b_transport
b_transport_safe ts ps g trans fresh few =
    let m = build_port_map ts ps in
    elim (ℕ_discrete (decode_address m trans.address).port bad_port) [
      | yes bad ↦ ground arith
      | no found ↦
          let (e, here, c, eq) = decode_address_sound m trans.address found in
          ground (arith, HasPort-port (length ps) m e (build_port_map-HasPort ts ps fresh) here)
    ]

-- The request of a nonblocking transaction goes to the port of the entry that covers its address.
-- The next phase, with the address that the bus has written into the transaction, goes to the port of
-- the entry that covers the offset, on a ready bus that has both ports, where the targets accept.
pub nb_transport_fw_misroutes :
    (b : Bus) (e f : ℕ × TargetInfo) (trans : Payload) (id : ℕ)
    (target : ℕ → Payload → Phase → Answer)
    → IsReady b
    → Among e b.addr_map
    → Among f b.addr_map
    → Covers trans.address e
    → Covers (trans.address - e.0) f
    → trans.address ≢ bad_addr
    → trans.address - e.0 ≢ bad_addr
    → e.1.port < b.targets
    → f.1.port < b.targets
    → ((port : ℕ) (t : Payload) (ph : Phase) → (target port t ph).status ≡ accepted)
    → let sent = record trans { address = trans.address - e.0 } in
      let later = record trans { address = trans.address - e.0 - f.0 } in
      (nb_transport_fw b target id trans begin_req none
        ≡ done (target e.1.port sent begin_req, some id))
      × (nb_transport_fw b target id sent end_resp (some id)
          ≡ done (target f.1.port later end_resp, some id))
unfolding nb_transport_fw
nb_transport_fw_misroutes b e f trans id target r e_here f_here e_covers f_covers known known' has
      has' accepts =
    let sent : Payload = record trans { address = trans.address - e.0 } in
    (
      rw (b_transport_delivers b e trans r e_here e_covers known has) (rw accepts),
      rw (b_transport_delivers b f sent r f_here f_covers known' has') (rw accepts),
    )

-- A request that the bus passes on with the socket it came in by is answered to that socket, and the
-- answer that completes it clears the extension; a backward call without an extension aborts.
pub nb_transport_bw_returns :
    (b : Bus) (e : ℕ × TargetInfo) (trans back : Payload) (id : ℕ) (phase : Phase)
    (target initiator : ℕ → Payload → Phase → Answer)
    → IsReady b
    → Among e b.addr_map
    → Covers trans.address e
    → trans.address ≢ bad_addr
    → e.1.port < b.targets
    → ((port : ℕ) (t : Payload) (ph : Phase) → (target port t ph).status ≡ accepted)
    → (initiator id back phase).status ≡ completed
    → (a : Answer) × (route : Option ℕ) × (nb_transport_fw b target id trans begin_req none
        ≡ done (a, route))
      × (nb_transport_bw initiator back phase route ≡ done (id, initiator id back phase, none))
      × (nb_transport_bw initiator back phase none ≡ aborted)
unfolding nb_transport_fw nb_transport_bw
nb_transport_bw_returns b e trans back id phase target initiator r here c known has accepts ends = (
  target e.1.port (record trans { address = trans.address - e.0 }) begin_req,
  some id,
  rw (b_transport_delivers b e trans r here c known has) (rw accepts),
  rw ends,
  refl,
)

-- On any phase but the request, a transaction that the bus refuses, at an address that no entry
-- covers, reads an indeterminate pointer.
pub nb_transport_fw_indeterminate :
    (b : Bus) (trans : Payload) (id : ℕ) (phase : Phase) (route : Option ℕ)
    (target : ℕ → Payload → Phase → Answer)
    → b.targets < bad_port
    → ((e : ℕ × TargetInfo) → Among e b.addr_map → ¬ Covers trans.address e)
    → phase ≢ begin_req
    → nb_transport_fw b target id trans phase route ≡ undefined
unfolding nb_transport_fw
nb_transport_fw_indeterminate b trans id begin_req route target few out later = absurd (later refl)
nb_transport_fw_indeterminate b trans id _ route target few out later =
    rw (b_transport_refuses b trans few out)
