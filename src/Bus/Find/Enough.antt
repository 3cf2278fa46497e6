-- ===== src/Bus/Find/Enough.antt =====
-- The search of bus/memory_map.cpp ends where the routers of the map form no cycle.
use sc_platform.Prelude.{
  ℕ, zero, suc, ◌+◌, ◌-◌, ◌*◌, ◌≤◌, ◌<◌, ◌≡◌, refl, ap, inl, inr, Option, none, some, List, [], ◌∷◌,
  arith, Bool-cases, Option-cases, length,
}
use Prim.Native.String.{String}
use mathlib.Core.Path.{subst}
use sc_platform.Bus.Map.{TargetInfo}
use text.Mathlib.Text.{◌==◌ as str_eq}
use sc_platform.Bus.Find.{
  Origins, OriginInfo, no_origin, no_target, at_key, origin_of, shift, walk, find_target_info,
}
use sc_platform.Bus.Find.Ranked.{
  lookups, RanksBelow, IsRanked, IsEnded, IsEnded-mono, after_routers-IsEnded, routers-IsLoopEnded,
}

-- The names after the first.
abbrev left : List String → ℕ
left [] = 0
left (x ∷ xs) = length xs

left_le : (path : List String) (n : ℕ) → length path ≤ n + 1 → left path ≤ n
left_le [] n h = omega arith
left_le (x ∷ xs) n h = omega arith

left_below : (path : List String) → left path ≤ suc (length path) - 2
left_below [] = omega arith
left_below (x ∷ xs) = omega arith

scaled_le : (a b bound : ℕ) → a ≤ b → a * bound ≤ b * bound
scaled_le zero b bound h = omega arith
scaled_le (suc a) zero bound h = absurd (omega arith)
scaled_le (suc a) (suc b) bound h = omega (arith, scaled_le a b bound (omega arith))

module _ (rank : String → ℕ) (bound : ℕ) where
  origin_of-at_key :
      (name : String) (o : OriginInfo) (m : Origins) → at_key name m ≡ some o → lookups m name ≡ o
  unfolding origin_of
  origin_of-at_key name o m h =
      ap (λ (x : Option OriginInfo). elim x [ none ↦ no_origin | some y ↦ y ]) h

  walk-IsEnded :
      (fuel : ℕ) (result : TargetInfo) (from : String) (path : List String) (m : Origins)
      → IsRanked rank bound (lookups m)
      → length path * bound + rank from < fuel
      → IsEnded (left path) m (walk fuel result from path m)
  unfolding walk
  walk-IsEnded zero result from path m ranked enough = absurd (omega arith)
  walk-IsEnded (suc fuel) result from [] m ranked enough = (omega arith, refl)
  walk-IsEnded (suc fuel) result from (to ∷ path) m ranked enough =
      elim (Bool-cases (str_eq to "")) [
        | inl e ↦ rw e tt
        | inr e ↦ elim (Option-cases (at_key from m)) [
          | inl e1 ↦ rw (e, e1) (omega arith, refl)
          | inr (o, e1) ↦ elim (Option-cases (at_key to o.target_map)) [
            | inr (t, e2) ↦
                rw (e, e1, e2)
                  (IsEnded-mono (left path) (length path) m m _
                    (left_le path (length path) (omega arith)) refl
                    (walk-IsEnded fuel (shift result.base t) to path m ranked
                      (ground (arith, ranked.below to))))
            | inl e2 ↦
                let o_is = origin_of-at_key from o m e1 in
                rw (e, e1, e2)
                  (after_routers-IsEnded (length path) m _ _
                    (routers-IsLoopEnded rank bound (rank from) (length path) (walk fuel) result to
                      o.target_map path m
                      (λ result' name path' m' ranked' short lower.
                        IsEnded-mono (left path') (length path) m' m' _
                          (left_le path' (length path) short) refl
                          (walk-IsEnded fuel result' name path' m' ranked' (
                            omega (arith, scaled_le (length path') (length path + 1) bound short))))
                      ranked
                      (subst (λ x. RanksBelow rank (rank from) (lookups m) x.target_map) o_is
                        (ranked.descends from))
                      (omega arith))
                    (λ f left_path told.
                      IsEnded-mono (left f.path) (length path) f.origins f.origins _
                        (left_le f.path (length path) (omega arith)) refl
                        (walk-IsEnded fuel f.info from f.path f.origins
                          (subst (IsRanked rank bound) told ranked)
                          (omega (
                            arith,
                            ranked.below from,
                            scaled_le (length f.path) (length path) bound left_path,
                          )))))
          ]
        ]
      ]

  -- The search ends with a result or a failed assertion, and never runs out of fuel, if the fuel exceeds
  -- `bound` times the names in the path, and every router among the targets of an origin has a rank below the
  -- origin's, all ranks being below `bound`. It leaves at most as many
  -- names of the path as there are after its first two. A name looked up in the map, with an origin without
  -- contents where there is none, is the same as before; the search may have entered such origins.
  pub find_target_info-IsEnded :
      (fuel : ℕ) (path : List String) (m : Origins)
      → IsRanked rank bound (lookups m)
      → length path * bound < fuel
      → IsEnded (length path - 2) m (find_target_info fuel path m)
  unfolding find_target_info
  find_target_info-IsEnded fuel [] m ranked enough = tt
  find_target_info-IsEnded fuel (start ∷ path) m ranked enough =
      IsEnded-mono (left path) _ m m _ (left_below path) refl (
        walk-IsEnded fuel (record no_target { base = 0 }) start path m ranked
          (omega (arith, ranked.below start)))
