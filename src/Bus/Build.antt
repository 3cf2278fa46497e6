-- ===== src/Bus/Build.antt =====
-- `Bus_module::build_port_map` of bus/bus.cpp. What the debug transport of a target answers to the
-- probe is the other modules' code, so it is given as a `Probe` for each port.
use Prim.Native.String.{String}
use text.Mathlib.Text.{◌==◌ as str_eq}
use sc_platform.Prelude.{
  ℕ, ◌+◌, ◌<◌, ◌≤◌, ◌^◌, ◌≡◌, ◌⊎◌, inl, inr, Bool, List, [], ◌∷◌, Option, none, some, arith, ◌==◌,
  if◌then◌else◌, All, length, Bool-cases,
}
use sc_platform.Common.{unassigned, bad_port, u64, sub_u64}
use sc_platform.Bus.Map.{
  TargetInfo, AddressMap, assign, fill, Below, get_address_map, get_address_map-Below, IsAddress,
}

-- The answer to a probe: whether its status is `TLM_OK_RESPONSE`, and the three keys of the
-- configuration that are looked for.
pub record Probe : Type 0 where
  pub is_ok : Bool
  pub config_name : Option String
  pub config_kind : Option String
  pub config_size : Option ℕ

-- The inner loop: each mapping of the name gets the port, the kind, and the size if it is given;
-- `config_size` is the loop's variable.
update_mappings : ℕ → String → String → ℕ → AddressMap → AddressMap
update_mappings port name kind config_size [] = []
update_mappings port name kind config_size ((k, i) ∷ m) =
    let hit = str_eq i.name name in
    let given = config_size == unassigned in
    let size = if given then i.size else config_size in
    let next : TargetInfo = record i {
      port = port;
      kind = kind;
      size = size;
      last = sub_u64 (u64 (i.base + size)) 1;
    } in
    (k, if hit then next else i)
    ∷ update_mappings port name kind (if hit then size else config_size) m

-- Only an answer that has all three keys is used.
with_keys : ℕ → Option String → Option String → Option ℕ → AddressMap → AddressMap
unfolding update_mappings
with_keys port (some name) (some kind) (some size) m = update_mappings port name kind size m
with_keys _ _ _ _ m = m

probe_port : ℕ → Probe → AddressMap → AddressMap
unfolding with_keys
probe_port port p m =
    if p.is_ok then with_keys port p.config_name p.config_kind p.config_size m else m

probe_ports : ℕ → List Probe → AddressMap → AddressMap
unfolding probe_port
probe_ports port [] m = m
probe_ports port (p ∷ ps) m = probe_ports (port + 1) ps (probe_port port p m)

-- The targets of the memory map for this bus, and the answers of its ports in order.
unfoldable pub build_port_map : List TargetInfo → List Probe → AddressMap
unfolding probe_ports get_address_map
build_port_map targets probes = probe_ports 0 probes (get_address_map targets)

update_mappings-Below :
    (n port : ℕ) (name kind : String) (size : ℕ) (m : AddressMap)
    → Below n m
    → Below n (update_mappings port name kind size m)
unfolding update_mappings
update_mappings-Below n port name kind size [] b = tt
update_mappings-Below n port name kind size ((k, i) ∷ m) b =
    (b.0, ground arith, update_mappings-Below k port name kind _ m b.2)

with_keys-Below :
    (n port : ℕ) (name kind : Option String) (size : Option ℕ) (m : AddressMap)
    → Below n m
    → Below n (with_keys port name kind size m)
unfolding with_keys
with_keys-Below n port (some name) (some kind) (some size) m b =
    update_mappings-Below n port name kind size m b
with_keys-Below n port (some name) (some kind) none m b = b
with_keys-Below n port (some name) none size m b = b
with_keys-Below n port none kind size m b = b

probe_port-Below :
    (n port : ℕ) (p : Probe) (m : AddressMap) → Below n m → Below n (probe_port port p m)
unfolding probe_port
probe_port-Below n port p m b = elim (Bool-cases p.is_ok) [
  | inl t ↦ rw t (with_keys-Below n port p.config_name p.config_kind p.config_size m b)
  | inr f ↦ rw f b
]

probe_ports-Below :
    (n port : ℕ) (ps : List Probe) (m : AddressMap) → Below n m → Below n (probe_ports port ps m)
unfolding probe_ports
probe_ports-Below n port [] m b = b
probe_ports-Below n port (p ∷ ps) m b =
    probe_ports-Below n (port + 1) ps (probe_port port p m) (probe_port-Below n port p m b)

-- Probing keeps the keys descending and each entry under its own base.
pub build_port_map-Below :
    (ts : List TargetInfo) (ps : List Probe) → IsAddress ts → Below (2 ^ 64) (build_port_map ts ps)
unfolding build_port_map
build_port_map-Below ts ps a =
    probe_ports-Below (2 ^ 64) 0 ps (get_address_map ts) (get_address_map-Below ts a)

-- A port below `n`, or none yet.
abbrev pub HasPort : ℕ → AddressMap → Type 0
HasPort n = All (λ e. (e.1.port ≡ bad_port) ⊎ (e.1.port < n))

assign-HasPort :
    (n key : ℕ) (t : TargetInfo) (m : AddressMap)
    → t.port ≡ bad_port
    → HasPort n m
    → HasPort n (assign key t m)
unfolding assign
assign-HasPort n key t [] h b = (inl h, tt)
assign-HasPort n key t ((k, i) ∷ m) h b = ground (arith, assign-HasPort n key t m)

fill-HasPort :
    (n : ℕ) (ts : List TargetInfo) (m : AddressMap)
    → All (λ t. t.port ≡ bad_port) ts
    → HasPort n m
    → HasPort n (fill ts m)
unfolding fill
fill-HasPort n [] m h b = b
fill-HasPort n (t ∷ ts) m h b =
    fill-HasPort n ts (assign t.base t m) h.1 (assign-HasPort n t.base t m h.0 b)

update_mappings-HasPort :
    (n port : ℕ) (name kind : String) (m : AddressMap) (size : ℕ)
    → port < n
    → HasPort n m
    → HasPort n (update_mappings port name kind size m)
unfolding update_mappings
update_mappings-HasPort n port name kind [] size h b = tt
update_mappings-HasPort n port name kind ((k, i) ∷ m) size h b =
    (ground arith, update_mappings-HasPort n port name kind m _ h b.1)

with_keys-HasPort :
    (n port : ℕ) (name kind : Option String) (size : Option ℕ) (m : AddressMap)
    → port < n
    → HasPort n m
    → HasPort n (with_keys port name kind size m)
unfolding with_keys
with_keys-HasPort n port (some name) (some kind) (some size) m h b =
    update_mappings-HasPort n port name kind m size h b
with_keys-HasPort n port (some name) (some kind) none m h b = b
with_keys-HasPort n port (some name) none size m h b = b
with_keys-HasPort n port none kind size m h b = b

probe_port-HasPort :
    (n port : ℕ) (p : Probe) (m : AddressMap)
    → port < n
    → HasPort n m
    → HasPort n (probe_port port p m)
unfolding probe_port
probe_port-HasPort n port p m h b = elim (Bool-cases p.is_ok) [
  | inl t ↦ rw t (with_keys-HasPort n port p.config_name p.config_kind p.config_size m h b)
  | inr f ↦ rw f b
]

probe_ports-HasPort :
    (n port : ℕ) (ps : List Probe) (m : AddressMap)
    → port + length ps ≤ n
    → HasPort n m
    → HasPort n (probe_ports port ps m)
unfolding probe_ports
probe_ports-HasPort n port [] m h b = b
probe_ports-HasPort n port (p ∷ ps) m h b =
    probe_ports-HasPort n (port + 1) ps (probe_port port p m) (omega arith)
      (probe_port-HasPort n port p m (omega arith) b)

-- After probing, an entry has a port that the bus has, or none.
pub build_port_map-HasPort :
    (ts : List TargetInfo) (ps : List Probe)
    → All (λ t. t.port ≡ bad_port) ts
    → HasPort (length ps) (build_port_map ts ps)
unfolding build_port_map get_address_map
build_port_map-HasPort ts ps h =
    probe_ports-HasPort (length ps) 0 ps (fill ts []) (omega arith)
      (fill-HasPort (length ps) ts [] h tt)
