-- ===== src/Bus/Find.antt =====
-- `Memory_map::find_target_info`, `find_address`, `find_irq` and `max_irq` of bus/memory_map.cpp, on the maps
-- that `read_yaml` fills. The search calls itself for each router, so it runs on fuel.
pub mod Ranked
pub mod Entries
pub mod Enough
pub mod Missing
use Prim.Native.String.{String}
use text.Mathlib.Text.{◌==◌ as str_eq}
use sc_platform.Prelude.{
  ℕ, zero, suc, ◌+◌, Bool, true, false, not, Option, none, some, List, [], ◌∷◌, ◌==◌, if◌then◌else◌,
}
use sc_platform.Common.{u64, bad_addr, bad_port, unassigned}
use sc_platform.Bus.Map.{TargetInfo}

pub data Category : Type 0 where
  unknown initiator interconnect router target : Category

pub record OriginInfo : Type 0 where
  pub name : String
  pub category : Category
  pub base : ℕ
  pub size : ℕ
  pub target_map : List (String × TargetInfo)

abbrev pub Origins : Type 0
Origins = List (String × OriginInfo)

-- A search returns a value, fails an assertion, or is out of fuel.
pub data Search {ℓ} (A : Type ℓ) : Type ℓ where
  returned : A → Search A
  failed : Search A
  exhausted : Search A

abbrev pub no_origin : OriginInfo
no_origin = record { name = ""; category = unknown; base = 0; size = 0; target_map = [] }

-- A `Target_info` as it is initialised.
abbrev pub no_target : TargetInfo
no_target = record {
  port = bad_port;
  base = bad_addr;
  last = 0;
  size = unassigned;
  irq = unassigned;
  name = "";
  kind = "";
}

unfoldable pub at_key {ℓ} : {A : Type ℓ} → String → List (String × A) → Option A
at_key name [] = none
at_key name ((k, a) ∷ m) = if str_eq k name then some a else at_key name m

-- `map[ name ]` inserts an entry where there is none.
unfoldable pub ensure : String → Origins → Origins
ensure name [] = (name, no_origin) ∷ []
ensure name ((k, o) ∷ m) = if str_eq k name then (k, o) ∷ m else (k, o) ∷ ensure name m

abbrev pub is_router : Category → Bool
is_router router = true
is_router _ = false

unfoldable pub origin_of : String → Origins → OriginInfo
unfolding at_key
origin_of name m = elim (at_key name m) [ none ↦ no_origin | some o ↦ o ]

-- What a search leaves: the result, the rest of the path, and the map.
pub record Found : Type 0 where
  pub info : TargetInfo
  pub path : List String
  pub origins : Origins

abbrev pub shift : ℕ → TargetInfo → TargetInfo
shift offset t = record t { base = u64 (t.base + offset) }

-- One step of each loop: what becomes of a router's answer, and of the answer of the whole loop.
abbrev pub after_router : ℕ → Search Found → (Found → Search (Found × Bool)) → Search (Found × Bool)
after_router offset (returned f) k =
    if not (f.info.base == bad_addr)
    then returned (record f { info = shift offset f.info }, true)
    else k f
after_router offset failed k = failed
after_router offset exhausted k = exhausted

abbrev pub after_routers : Search (Found × Bool) → (Found → Search Found) → Search Found
after_routers (returned (f, true)) k = returned f
after_routers (returned (f, false)) k = k f
after_routers failed k = failed
after_routers exhausted k = exhausted

-- The `for` loop over the targets of an origin, with the recursive call as `again`; the flag is whether
-- one of the routers is taken.
unfoldable pub routers :
    (TargetInfo → String → List String → Origins → Search Found)
    → TargetInfo
    → String
    → List (String × TargetInfo)
    → List String
    → Origins
    → Search (Found × Bool)
unfolding ensure origin_of
routers again result to [] path m =
    returned (record { info = result; path = path; origins = m }, false)
routers again result to ((name, t) ∷ ts) path m =
    let m' = ensure name m in
    elim (is_router (origin_of name m').category) [
      | true ↦
          after_router (origin_of name m').base
            (again (record no_target { base = 0 }) name (to ∷ path) m')
            (λ f. routers again f.info to ts f.path f.origins)
      | false ↦ routers again result to ts path m'
    ]

-- The `while` loop, from the origin `from`, with the result so far.
unfoldable pub walk : ℕ → TargetInfo → String → List String → Origins → Search Found
unfolding at_key routers
walk zero result from path m = exhausted
walk (suc fuel) result from [] m = returned (record { info = result; path = []; origins = m })
walk (suc fuel) result from (to ∷ path) m = if str_eq to "" then failed else elim (at_key from m) [
  | none ↦ returned (record { info = result; path = path; origins = m })
  | some o ↦ elim (at_key to o.target_map) [
    | some t ↦ walk fuel (shift result.base t) to path m
    | none ↦
        after_routers (routers (walk fuel) result to o.target_map path m)
          (λ f. walk fuel f.info from f.path f.origins)
  ]
]

unfoldable pub find_target_info : ℕ → List String → Origins → Search Found
unfolding walk
find_target_info fuel [] m = failed
find_target_info fuel (start ∷ path) m = walk fuel (record no_target { base = 0 }) start path m

abbrev pub address_of : Search Found → Search ℕ
address_of (returned f) = if f.info.base == bad_addr then failed else returned f.info.base
address_of failed = failed
address_of exhausted = exhausted

unfoldable pub find_address : ℕ → String → String → Origins → Search ℕ
unfolding find_target_info
find_address fuel from_initiator to_target m =
    address_of (find_target_info fuel (from_initiator ∷ to_target ∷ []) m)

-- The first target of each name, in the order of the file.
unfoldable pub find_irq : String → List (String × TargetInfo) → ℕ
unfolding at_key
find_irq name targets = elim (at_key name targets) [ none ↦ unassigned | some t ↦ t.irq ]
