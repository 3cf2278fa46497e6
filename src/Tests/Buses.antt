-- ===== src/Tests/Buses.antt =====
-- The address map of bus/bus.cpp at a map of a ROM and a RAM.
use sc_platform.Prelude.{ℕ, ◌-◌, ◌^◌, ◌≡◌, refl, ◌↔◌, inl, true, some, List, [], ◌∷◌, arith, Among}
use sc_platform.Common.{bad_port}
use sc_platform.Bus.Map.{TargetInfo, AddressMap, Below}
use sc_platform.Bus.Check.{check_port_map, IsSoundMap, check_port_map-IsSoundMap}
use sc_platform.Bus.Decode.{decode_address, decode_address_complete, decode_address_sound, Covers}
use sc_platform.Bus.Build.{Probe}

abbrev pub rom : ℕ × TargetInfo
rom = (
  0,
  record { port = 0; base = 0; last = 1023; size = 1024; irq = 0; name = "rom"; kind = "Memory" },
)

abbrev pub ram : ℕ × TargetInfo
ram = (
  4096,
  record {
    port = 1;
    base = 4096;
    last = 8191;
    size = 4096;
    irq = 0;
    name = "ram";
    kind = "Memory";
  },
)

abbrev pub two : AddressMap
two = ram ∷ rom ∷ []

pub two-Below : Below (2 ^ 64) two
two-Below = (omega arith, refl, (omega arith, refl, tt))

two_sound : IsSoundMap two two
two_sound = ground arith

check_port_map-IsSoundMap_example : ((check_port_map two).mapping_errors ≡ 0) ↔ IsSoundMap two two
check_port_map-IsSoundMap_example = check_port_map-IsSoundMap two

pub two_checked : (check_port_map two).mapping_errors ≡ 0
two_checked = (check_port_map-IsSoundMap two).1 two_sound

decode_address_complete_example :
    decode_address two 4100 ≡ record { port = 1; masked_address = some 4 }
decode_address_complete_example =
    decode_address_complete two ram 4100 two-Below two_checked (inl refl) (omega arith, omega arith)
      (λ e. omega arith)

decode_address_sound_example :
    (e : ℕ × TargetInfo) × Among e two
    × Covers 4100 e
    × (decode_address two 4100 ≡ record { port = e.1.port; masked_address = some (4100 - e.0) })
decode_address_sound_example =
    decode_address_sound two 4100 (unfold decode_address in λ e. omega arith)

-- The targets of a memory map before their ports are known, and what two ports answer.
abbrev pub mapped : List TargetInfo
mapped =
    record {
      port = bad_port;
      base = 4096;
      last = 8191;
      size = 4096;
      irq = 0;
      name = "ram";
      kind = "";
    }
    ∷ record {
      port = bad_port;
      base = 0;
      last = 1023;
      size = 1024;
      irq = 0;
      name = "rom";
      kind = "";
    }
    ∷ []

abbrev pub probes : List Probe
probes =
    record {
      is_ok = true;
      config_name = some "rom";
      config_kind = some "Memory";
      config_size = some 1024;
    }
    ∷ record {
      is_ok = true;
      config_name = some "ram";
      config_kind = some "Memory";
      config_size = some 4096;
    }
    ∷ []
