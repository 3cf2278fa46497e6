-- ===== src/Tests/Probes.antt =====
-- The bus of bus/bus.cpp probed for its configuration.
use sc_platform.Prelude.{ℕ, ◌≡◌, refl, true, false, Option, none, some, [], ◌∷◌, done}
use sc_platform.Common.{Payload, ignore, ok_response, incomplete_response, bad_addr}
use sc_platform.Config.{Configuration, string, lookup, is_key, fits, is_empty}
use sc_platform.Bus.Debug.{Module, Debugged, transport_dbg}
use sc_platform.Bus.Debug.Probing.{Takes, transport_dbg_probe}
use sc_platform.Tests.Routes.{bus}

abbrev cleared : Configuration
cleared = record {
  data_map = [];
  dflt_map = ("kind", string "") ∷ ("name", string "") ∷ [];
  reqd_key_set = [];
}

abbrev top_bus : Module
top_bus = record {
  bus = bus;
  name = "top.bus";
  configuration = record cleared { data_map = ("name", string "old") ∷ [] };
}

abbrev probe : Payload
probe = record {
  command = ignore;
  address = bad_addr;
  bytes = none;
  data_length = 0;
  streaming_width = 0;
  byte_enabled = false;
  response = incomplete_response;
}

abbrev echo : ℕ → Payload → Option Configuration → Debugged
echo port trans ext = record { trans = trans; extension = ext; length = port }

name-Takes : Takes top_bus.configuration "name"
unfolding is_key lookup fits
name-Takes = record { key = refl; fit = λ s. refl }

kind-Takes : Takes top_bus.configuration "kind"
unfolding is_key lookup fits
kind-Takes = record { key = refl; fit = λ s. refl }

cleared-is_empty : is_empty cleared ≡ true
unfolding is_empty
cleared-is_empty = refl

transport_dbg_probe_example :
    (c : Configuration) × (transport_dbg top_bus echo probe (some cleared)
      ≡ done (
        record top_bus { configuration = c },
        record { trans = record probe { response = ok_response }; extension = some c; length = 0 },
      ))
    × (lookup "name" c.data_map ≡ some (string "top.bus"))
    × (lookup "kind" c.data_map ≡ some (string "Bus_module"))
transport_dbg_probe_example =
    transport_dbg_probe top_bus echo probe cleared name-Takes kind-Takes refl refl cleared-is_empty
