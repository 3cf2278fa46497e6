-- ===== src/Tests/Configs.antt =====
-- The configuration of config/configuration.hpp at two keys.
use Prim.Native.String.{String}
use sc_platform.Prelude.{◌≡◌, refl, ◌↔◌, true, [], ◌∷◌}
use sc_platform.Config.{Configuration, word, lookup}
use sc_platform.Config.Compare.{equals, equals-lookup}

abbrev sized : Configuration
sized = record {
  data_map = ("target_size", word 8) ∷ ("max_burst", word 4) ∷ [];
  dflt_map = ("target_size", word 0) ∷ ("max_burst", word 0) ∷ [];
  reqd_key_set = [];
}

-- The same in the other order.
abbrev turned : Configuration
turned = record sized { data_map = ("max_burst", word 4) ∷ ("target_size", word 8) ∷ [] }

equals-lookup_example :
    (equals sized turned ≡ true)
    ↔ ((j : String) → lookup j sized.data_map ≡ lookup j turned.data_map)
equals-lookup_example = equals-lookup sized turned ((refl, tt), (tt, tt)) ((refl, tt), (tt, tt))

sized-equals : equals sized turned ≡ true
unfolding equals
sized-equals = refl
