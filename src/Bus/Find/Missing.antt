-- ===== src/Bus/Find/Missing.antt =====
-- What bus/memory_map.cpp answers for a target that no origin has.
use sc_platform.Prelude.{ℕ, suc, ◌≡◌, refl, ◌∙◌, Bool, true, false, none, some, List, [], ◌∷◌, All}
use Prim.Native.String.{String}
use text.Mathlib.Text.{◌==◌ as str_eq}
use sc_platform.Bus.Map.{TargetInfo}
use sc_platform.Bus.Find.{
  Origins, OriginInfo, no_target, at_key, ensure, is_router, origin_of, Search, returned, Found,
  routers, walk, find_address,
}
use sc_platform.Bus.Find.Ranked.{lookups, lookups-ensure}
use mathlib.Core.Path.{subst}

-- None of the targets is a router.
abbrev pub NoRouter : (String → OriginInfo) → List (String × TargetInfo) → Type 0
NoRouter origin = All (λ t. is_router (origin t.0).category ≡ false)

routers-NoRouter :
    (again : TargetInfo → String → List String → Origins → Search Found) (result : TargetInfo)
    (to : String) (ts : List (String × TargetInfo)) (path : List String) (m : Origins)
    → NoRouter (lookups m) ts
    → (m' : Origins) × (routers again result to ts path m
        ≡ returned (record { info = result; path = path; origins = m' }, false))
unfolding routers
routers-NoRouter again result to [] path m none_routes = (m, refl)
routers-NoRouter again result to ((name, t) ∷ ts) path m none_routes =
    let told = subst (λ o. NoRouter o ((name, t) ∷ ts)) (lookups-ensure name m) none_routes in
    let (m', e) = routers-NoRouter again result to ts path (ensure name m) told.1 in
    (m', skip (is_router (origin_of name (ensure name m)).category) told.0 _ _ ∙ e)
  where
    skip :
        (b : Bool)
        → b ≡ false
        → (x y : Search (Found × Bool)) → (elim b [ true ↦ x | false ↦ y ]) ≡ y
    skip b e x y = rw e refl

-- With fuel for two steps, a target that its initiator does not have, where none of the initiator's targets is a router, is found at address 0: the
-- assertion and the report of a path that is not found look for another address.
pub find_address_missing :
    (fuel : ℕ) (from to : String) (o : OriginInfo) (m : Origins)
    → str_eq to "" ≡ false
    → at_key from m ≡ some o
    → at_key to o.target_map ≡ none
    → NoRouter (lookups m) o.target_map
    → find_address (suc (suc fuel)) from to m ≡ returned 0
unfolding find_address walk
find_address_missing fuel from to o m named known missing none_routes =
    let start = record no_target { base = 0 } in
    let (m', e) = routers-NoRouter (walk (suc fuel)) start to o.target_map [] m none_routes in
    rw (named, known, missing, e) refl
