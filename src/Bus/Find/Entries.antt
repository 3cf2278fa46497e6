-- ===== src/Bus/Find/Entries.antt =====
-- A map of bus/memory_map.cpp is ranked if each of its entries is.
use Prim.Native.String.{String}
use text.Mathlib.Text.{◌==◌ as str_eq}
use sc_platform.Prelude.{ℕ, ◌≡◌, refl, Bool, true, false, none, some, [], ◌∷◌, if◌then◌else◌, All}
use sc_platform.Bus.Find.{Origins, OriginInfo, no_origin, at_key, origin_of}
use sc_platform.Bus.Find.Ranked.{RanksBelow}

module _ (rank : String → ℕ) (origin : String → OriginInfo) where
  -- The entry's routers rank below every name that the entry is for.
  abbrev pub IsRankedEntry : String × OriginInfo → Type 0
  IsRankedEntry e =
      (name : String) → str_eq e.0 name ≡ true → RanksBelow rank (rank name) origin e.1.target_map

  pub entries-RanksBelow :
      (m : Origins) (name : String)
      → All IsRankedEntry m
      → RanksBelow rank (rank name) origin (origin_of name m).target_map
  unfolding origin_of at_key
  entries-RanksBelow [] name ok = tt
  entries-RanksBelow ((k, o) ∷ m) name ok =
      first (str_eq k name) refl (entries-RanksBelow m name ok.1)
    where
      first :
          (b : Bool)
          → str_eq k name ≡ b
          → RanksBelow rank (rank name) origin (origin_of name m).target_map
          → RanksBelow rank
              (rank name)
              origin
              (elim (if b then some o else at_key name m) as (λ _. OriginInfo) [
                | none ↦ no_origin
                | some p ↦ p
              ]).target_map
      first true e rest = ok.0 name e
      first false e rest = rest
