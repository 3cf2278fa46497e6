-- ===== src/Bus/Debug/Probing.antt =====
-- The debug transport of the bus of bus/bus.cpp, as another bus probes it and as an access.
use Prim.Native.String.{String}
use text.Mathlib.Text.{◌==◌ as str_eq}
use sc_platform.Prelude.{
  ℕ, ◌-◌, ◌<◌, ◌≡◌, refl, ap, ◌∙◌, ◌≢◌, true, false, Option, none, some, arith, if◌then◌else◌,
  Among, done,
}
use sc_platform.Common.{Payload, ignore, ok_response, bad_addr}
use sc_platform.Config.{Configuration, string, lookup, is_key, fits, is_empty, set_field}
use sc_platform.Config.Laws.{lookup-set_field, is_key-set_field}
use sc_platform.Bus.Map.{TargetInfo}
use sc_platform.Bus.Decode.{Covers}
use sc_platform.Bus.Route.Laws.{IsReady, b_transport_delivers}
use sc_platform.Bus.Debug.{
  Module, kind, named, configure, Debugged, dbg_route, is_probe, transport_dbg,
}

-- A configuration that takes a string for a key: the key has a default, and a value that it has is
-- a string.
pub record Takes (c : Configuration) (k : String) : Type 0 where
  pub key : is_key c k ≡ true
  pub fit : (s : String) → fits (lookup k c.data_map) (string s) ≡ true

-- A name leaves the kind as it was, and the other way round.
named-lookup :
    (m : Module)
    → Takes m.configuration "name"
    → Takes m.configuration "kind"
    → (lookup "name" (named m).data_map ≡ some (string m.name))
      × (lookup "kind" (named m).data_map ≡ some (string kind))
unfolding named
named-lookup m n k =
    let c = set_field m.configuration "name" (string m.name) in
    let first : (j : String)
        → lookup j c.data_map
          ≡ (if str_eq "name" j then some (string m.name) else lookup j m.configuration.data_map) =
      λ j. lookup-set_field m.configuration "name" j (string m.name) n.key (n.fit m.name) in
    let second : (j : String)
        → lookup j (named m).data_map
          ≡ (if str_eq "kind" j then some (string kind) else lookup j c.data_map) =
      λ j.
        lookup-set_field c "kind" j (string kind)
          (is_key-set_field m.configuration "name" "kind" (string m.name) ∙ k.key)
          (ap (λ o. fits o (string kind)) (first "kind") ∙ k.fit kind) in
    (second "name" ∙ first "name", second "kind")

-- A probe, which is an ignored command at `BAD_ADDR`, with a cleared configuration, of a bus whose
-- configuration takes a string as its name and as its kind, reaches no target, whatever they do: it comes back
-- accepted and with no length, and its configuration is the bus's, with the bus's name and kind.
pub transport_dbg_probe :
    (m : Module) (target : ℕ → Payload → Option Configuration → Debugged) (trans : Payload)
    (cleared : Configuration)
    → Takes m.configuration "name"
    → Takes m.configuration "kind"
    → trans.command ≡ ignore
    → trans.address ≡ bad_addr
    → is_empty cleared ≡ true
    → (c : Configuration) × (transport_dbg m target trans (some cleared)
        ≡ done (
          record m { configuration = c },
          record {
            trans = record trans { response = ok_response };
            extension = some c;
            length = 0;
          },
        ))
      × (lookup "name" c.data_map ≡ some (string m.name))
      × (lookup "kind" c.data_map ≡ some (string kind))
unfolding transport_dbg configure is_probe
transport_dbg_probe m target trans cleared n k ignored at_bad empty =
    let (has_name, has_kind) = named-lookup m n k in
    (named m, rw (ignored, at_bad, empty) refl, has_name, has_kind)

-- A debug access other than a probe, without a configuration, goes where the blocking call goes: a ready bus
-- passes it, at an address other than `BAD_ADDR` that an entry covers, to the entry's port, if it has
-- that port, with the offset into the entry for its address, and returns what the target does.
pub transport_dbg_delivers :
    (m : Module) (target : ℕ → Payload → Option Configuration → Debugged) (e : ℕ × TargetInfo)
    (trans : Payload)
    → IsReady m.bus
    → Among e m.bus.addr_map
    → Covers trans.address e
    → trans.address ≢ bad_addr
    → e.1.port < m.bus.targets
    → transport_dbg m target trans none
      ≡ done (m, target e.1.port (record trans { address = trans.address - e.0 }) none)
unfolding transport_dbg configure is_probe dbg_route
transport_dbg_delivers m target e trans r here c known has =
    let unlike : is_probe trans ≡ false = ground arith in
    rw (unlike, b_transport_delivers m.bus e trans r here c known has) refl
