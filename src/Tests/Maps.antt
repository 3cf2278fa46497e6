-- ===== src/Tests/Maps.antt =====
-- The search of bus/memory_map.cpp on a map with two routers, one behind the other.
use Prim.Native.String.{String}
use text.Mathlib.Text.{◌==◌ as str_eq}
use sc_platform.Prelude.{ℕ, ◌<◌, ◌≡◌, refl, [], ◌∷◌, arith, if◌then◌else◌, All}
use sc_platform.Common.{bad_port}
use sc_platform.Bus.Map.{TargetInfo}
use sc_platform.Bus.Find.{
  Origins, initiator, router, at_key, returned, find_target_info, find_address, origin_of,
}
use sc_platform.Bus.Find.Ranked.{IsRanked, lookups, IsEnded}
use sc_platform.Bus.Find.Entries.{IsRankedEntry, entries-RanksBelow}
use sc_platform.Bus.Find.Enough.{find_target_info-IsEnded}
use sc_platform.Bus.Find.Missing.{find_address_missing}

abbrev target : String → ℕ → String × TargetInfo
target name base = (
  name,
  record { port = bad_port; base = base; last = 0; size = 0; irq = 0; name = name; kind = "" },
)

abbrev platform : Origins
platform =
    (
      "top.cpu",
      record {
        name = "top.cpu";
        category = initiator;
        base = 0;
        size = 0;
        target_map = target "top.nth" 0 ∷ [];
      },
    )
    ∷ (
      "top.nth",
      record {
        name = "top.nth";
        category = router;
        base = 0;
        size = 0;
        target_map = target "top.ram" 0x10000000 ∷ target "top.sth" 0x40000000 ∷ [];
      },
    )
    ∷ (
      "top.sth",
      record {
        name = "top.sth";
        category = router;
        base = 0x40000000;
        size = 0;
        target_map = target "top.tmr" 0x1000 ∷ [];
      },
    )
    ∷ []

-- The timer is behind both routers.
find_timer : find_address 8 "top.cpu" "top.tmr" platform ≡ returned 0x40001000
unfolding find_address
find_timer = refl

-- An origin outside the map has the rank 0.
abbrev rank : String → ℕ
rank name =
    if str_eq "top.cpu" name
    then 3
    else if str_eq "top.nth" name
    then 2
    else if str_eq "top.sth" name
    then 1
    else 0

rank_below : (name : String) → rank name < 4
rank_below name = ground arith

platform-All : All (IsRankedEntry rank (lookups platform)) platform
platform-All = (
  λ name e. (λ _. ground (arith, e), tt),
  (
    λ name e. (λ _. ground (arith, e), (λ _. ground (arith, e), tt)),
    (λ name e. (λ _. ground (arith, e), tt), tt),
  ),
)

platform-IsRanked : IsRanked rank 4 (lookups platform)
platform-IsRanked = record {
  below = rank_below;
  descends = λ name. entries-RanksBelow rank (lookups platform) platform name platform-All;
}

find_target_info-IsEnded_example :
    IsEnded 0 platform (find_target_info 9 ("top.cpu" ∷ "top.tmr" ∷ []) platform)
find_target_info-IsEnded_example =
    find_target_info-IsEnded rank 4 9 ("top.cpu" ∷ "top.tmr" ∷ []) platform platform-IsRanked
      (omega arith)

find_address_missing_example : find_address 2 "top.sth" "top.usb" platform ≡ returned 0
find_address_missing_example =
    find_address_missing 0 "top.sth" "top.usb"
      (record {
        name = "top.sth";
        category = router;
        base = 0x40000000;
        size = 0;
        target_map = target "top.tmr" 0x1000 ∷ [];
      })
      platform refl (unfold at_key in refl) (unfold at_key in refl) (unfold origin_of in (refl, tt))
