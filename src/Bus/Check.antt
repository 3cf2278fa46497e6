-- ===== src/Bus/Check.antt =====
-- `Bus_module::check_port_map_and_update_configuration` of bus/bus.cpp. Its messages are left out;
-- `mapping_errors` counts pairs of entries, so its 64 bits do not overflow and it is a plain number.
use sc_platform.Prelude.{
  ℕ, ◌+◌, ◌<◌, ◌≤◌, ◌≡◌, refl, ◌≢◌, ◌↔◌, ◌||◌, [], ◌∷◌, arith, ltb, leb, ◌==◌, if◌then◌else◌, All,
}
use sc_platform.Common.{max_addr, bad_addr, sub_u64, u32}
use sc_platform.Bus.Map.{TargetInfo, AddressMap}

pub record Tally : Type 0 where
  pub mapping_errors : ℕ
  pub min_address : ℕ
  pub max_address : ℕ

-- The inner loop: how many entries start above `addr` and not beyond `last`.
overlaps : ℕ → ℕ → AddressMap → ℕ
overlaps addr last [] = 0
overlaps addr last ((next_addr, next_info) ∷ m) =
    overlaps addr last m + (if leb next_addr addr then 0 else if leb next_addr last then 1 else 0)

-- The body of the outer loop; `all` is the whole map.
examine : AddressMap → ℕ → TargetInfo → Tally → Tally
unfolding overlaps
examine all addr info t =
    if info.base == bad_addr || info.base == max_addr
    then record t { mapping_errors = t.mapping_errors + 1 }
    else if ltb info.last info.base
    then record t { mapping_errors = t.mapping_errors + 1 }
    else record {
      mapping_errors = t.mapping_errors + overlaps addr info.last all;
      min_address = if ltb info.base t.min_address then info.base else t.min_address;
      max_address = if ltb t.max_address info.last then info.last else t.max_address;
    }

examine_all : AddressMap → AddressMap → Tally → Tally
unfolding examine
examine_all all [] t = t
examine_all all ((addr, info) ∷ m) t = examine_all all m (examine all addr info t)

pub check_port_map : AddressMap → Tally
unfolding examine_all
check_port_map m =
    examine_all m m (record { mapping_errors = 0; min_address = max_addr; max_address = 0 })

-- What the bus then tells of itself: `target_base` and `target_size`.
pub target_base : Tally → ℕ
target_base t = t.min_address

pub target_size : Tally → ℕ
target_size t = u32 (sub_u64 t.max_address t.min_address)

-- One entry is sound against the whole map.
pub record IsSoundEntry (all : AddressMap) (addr : ℕ) (info : TargetInfo) : Type 0 where
  pub base_known : (info.base ≢ bad_addr) × (info.base ≢ max_addr)
  pub ascending : info.base ≤ info.last
  pub apart : All (λ e. addr < e.0 → info.last < e.0) all

-- Every entry has an assigned base and ends at or after it, and no entry reaches the start of one
-- that begins higher up.
abbrev pub IsSoundMap : AddressMap → AddressMap → Type 0
IsSoundMap all = All (λ e. IsSoundEntry all e.0 e.1)

overlaps_iff :
    (addr last : ℕ) (m : AddressMap)
    → (overlaps addr last m ≡ 0) ↔ All (λ e. addr < e.0 → last < e.0) m
unfolding overlaps
overlaps_iff addr last [] = (λ _. tt, λ _. refl)
overlaps_iff addr last ((a, i) ∷ m) =
    let (to, from) = overlaps_iff addr last m in
    (λ h. (λ lt. ground arith, to (ground arith)), λ h. ground (arith, from h.1))

examine_iff :
    (all : AddressMap) (addr : ℕ) (info : TargetInfo) (t : Tally)
    → ((examine all addr info t).mapping_errors ≡ 0)
      ↔ ((t.mapping_errors ≡ 0) × IsSoundEntry all addr info)
unfolding examine
examine_iff all addr info t =
    let (to, from) = overlaps_iff addr info.last all in
    (
      λ h. (
        ground arith,
        record {
          base_known = (ground arith, ground arith);
          ascending = ground arith;
          apart = to (ground arith);
        },
      ),
      λ h. ground (arith, from h.1.apart),
    )

examine_all_iff :
    (all m : AddressMap) (t : Tally)
    → ((examine_all all m t).mapping_errors ≡ 0) ↔ ((t.mapping_errors ≡ 0) × IsSoundMap all m)
unfolding examine_all
examine_all_iff all [] t = (λ h. (h, tt), λ h. h.0)
examine_all_iff all ((addr, info) ∷ m) t =
    let (to, from) = examine_iff all addr info t in
    let (to', from') = examine_all_iff all m (examine all addr info t) in
    (λ h. ((to (to' h).0).0, ((to (to' h).0).1, (to' h).1)), λ h. from' (from (h.0, h.1.0), h.1.1))

-- No mapping error is counted exactly when every entry has an assigned base, ends at or after it,
-- and reaches no entry that starts higher up.
pub check_port_map-IsSoundMap :
    (m : AddressMap) → ((check_port_map m).mapping_errors ≡ 0) ↔ IsSoundMap m m
unfolding check_port_map
check_port_map-IsSoundMap m =
    let (to, from) =
      examine_all_iff m m
        (record { mapping_errors = 0; min_address = max_addr; max_address = 0 }) in
    (λ h. (to h).1, λ h. from (refl, h))
