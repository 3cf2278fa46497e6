-- ===== src/Bus/Find/Ranked.antt =====
-- Maps of bus/memory_map.cpp whose routers form no cycle, and the loop over the routers of an origin.
use sc_platform.Prelude.{
  ℕ, ◌+◌, ◌≤◌, ◌<◌, ◌≡◌, refl, ◌∙◌, inl, inr, Bool, true, false, List, [], ◌∷◌, arith, ◌==◌,
  Bool-cases, length, All,
}
use Prim.Native.String.{String}
use mathlib.Core.Path.{subst}
use sc_platform.Bus.Map.{TargetInfo}
use sc_platform.Common.{bad_addr}
use sc_platform.Bus.Find.{
  Origins, OriginInfo, no_target, at_key, ensure, is_router, origin_of, Search, returned, failed,
  exhausted, Found, after_router, after_routers, routers,
}

-- What a map has for each name.
abbrev pub lookups : Origins → String → OriginInfo
lookups m name = origin_of name m

-- Every router among `targets` ranks below `r`.
abbrev pub RanksBelow :
    (String → ℕ) → ℕ → (String → OriginInfo) → List (String × TargetInfo) → Type 0
RanksBelow rank r origin targets =
    All (λ t. is_router (origin t.0).category ≡ true → rank t.0 < r) targets

-- Every router among the targets of an origin ranks below the origin, and all ranks are below `bound`.
pub record IsRanked (rank : String → ℕ) (bound : ℕ) (origin : String → OriginInfo) : Type 0 where
  pub below : (name : String) → rank name < bound
  pub descends : (name : String) → RanksBelow rank (rank name) origin (origin name).target_map

-- The search has ended, with at most `n` names left in the path and a map that tells the same.
abbrev pub IsEnded : ℕ → Origins → Search Found → Type 0
IsEnded n m (returned f) = (length f.path ≤ n) × (lookups m ≡ lookups f.origins)
IsEnded n m failed = Unit
IsEnded n m exhausted = ⊥

abbrev pub IsLoopEnded : ℕ → Origins → Search (Found × Bool) → Type 0
IsLoopEnded n m (returned r) = (length r.0.path ≤ n) × (lookups m ≡ lookups r.0.origins)
IsLoopEnded n m failed = Unit
IsLoopEnded n m exhausted = ⊥

origin_of-ensure :
    (name new : String) (m : Origins) → origin_of name m ≡ origin_of name (ensure new m)
unfolding origin_of ensure
origin_of-ensure name new [] = unfold at_key in ground arith
origin_of-ensure name new ((k, o) ∷ m) =
    let rest = origin_of-ensure name new m in unfold at_key in ground (arith, rest)

pub lookups-ensure : (new : String) (m : Origins) → lookups m ≡ lookups (ensure new m)
lookups-ensure new m = λ i name. origin_of-ensure name new m i

pub IsEnded-mono :
    (n n' : ℕ) (m m' : Origins) (s : Search Found)
    → n ≤ n'
    → lookups m ≡ lookups m'
    → IsEnded n m' s
    → IsEnded n' m s
IsEnded-mono n n' m m' (returned f) h e p = (omega arith, e ∙ p.1)
IsEnded-mono n n' m m' failed h e p = tt
IsEnded-mono n n' m m' exhausted h e p = p

IsLoopEnded-lookups :
    (n : ℕ) (m m' : Origins) (s : Search (Found × Bool))
    → lookups m ≡ lookups m'
    → IsLoopEnded n m' s
    → IsLoopEnded n m s
IsLoopEnded-lookups n m m' (returned f) e p = (p.0, e ∙ p.1)
IsLoopEnded-lookups n m m' failed e p = tt
IsLoopEnded-lookups n m m' exhausted e p = p

after_router-IsLoopEnded :
    (n offset : ℕ) (m : Origins) (s : Search Found) (k : Found → Search (Found × Bool))
    → IsEnded n m s
    → ((f : Found)
        → length f.path ≤ n
        → lookups m ≡ lookups f.origins
        → IsLoopEnded n f.origins (k f))
    → IsLoopEnded n m (after_router offset s k)
after_router-IsLoopEnded n offset m (returned f) k p h =
    let later = IsLoopEnded-lookups n m f.origins (k f) p.1 (h f p.0 p.1) in
    elim (Bool-cases (f.info.base == bad_addr)) [ inl e ↦ rw e later | inr e ↦ rw e p ]
after_router-IsLoopEnded n offset m failed k p h = tt
after_router-IsLoopEnded n offset m exhausted k p h = p

pub after_routers-IsEnded :
    (n : ℕ) (m : Origins) (s : Search (Found × Bool)) (k : Found → Search Found)
    → IsLoopEnded n m s
    → ((f : Found) → length f.path ≤ n → lookups m ≡ lookups f.origins → IsEnded n f.origins (k f))
    → IsEnded n m (after_routers s k)
after_routers-IsEnded n m (returned (f, true)) k p h = p
after_routers-IsEnded n m (returned (f, false)) k p h =
    IsEnded-mono n n m f.origins (k f) (omega arith) p.1 (h f p.0 p.1)
after_routers-IsEnded n m failed k p h = tt
after_routers-IsEnded n m exhausted k p h = p

branch-IsLoopEnded :
    (n : ℕ) (m : Origins) (b : Bool) (x y : Search (Found × Bool))
    → (b ≡ true → IsLoopEnded n m x)
    → (b ≡ false → IsLoopEnded n m y)
    → IsLoopEnded n m (elim b [ true ↦ x | false ↦ y ])
branch-IsLoopEnded n m true x y p q = p refl
branch-IsLoopEnded n m false x y p q = q refl

module _ (rank : String → ℕ) (bound : ℕ) where
  -- A recursive call ends from any origin below the rank `r`, with at most `n` names left.
  abbrev pub EndsBelow :
      ℕ → ℕ → (TargetInfo → String → List String → Origins → Search Found) → Type 0
  EndsBelow r n again =
      (result : TargetInfo) (name : String) (path : List String) (m : Origins)
      → IsRanked rank bound (lookups m)
      → length path ≤ n + 1
      → rank name < r
      → IsEnded n m (again result name path m)

  pub routers-IsLoopEnded :
      (r n : ℕ) (again : TargetInfo → String → List String → Origins → Search Found)
      (result : TargetInfo) (to : String) (ts : List (String × TargetInfo)) (path : List String)
      (m : Origins)
      → EndsBelow r n again
      → IsRanked rank bound (lookups m)
      → RanksBelow rank r (lookups m) ts
      → length path ≤ n
      → IsLoopEnded n m (routers again result to ts path m)
  unfolding routers
  routers-IsLoopEnded r n again result to [] path m ends ranked below short = (short, refl)
  routers-IsLoopEnded r n again result to ((name, t) ∷ ts) path m ends ranked below short =
      let m' = ensure name m in
      let same = lookups-ensure name m in
      let ranked' = subst (IsRanked rank bound) same ranked in
      let below' = subst (λ o. RanksBelow rank r o ((name, t) ∷ ts)) same below in
      branch-IsLoopEnded n m (is_router (origin_of name m').category) _ _
        (λ e. IsLoopEnded-lookups n m m' _ same (
          after_router-IsLoopEnded n (origin_of name m').base m' _ _
            (ends (record no_target { base = 0 }) name (to ∷ path) m' ranked' (omega arith)
              (below'.0 e))
            (λ f left told.
              routers-IsLoopEnded r n again f.info to ts f.path f.origins ends
                (subst (IsRanked rank bound) told ranked')
                (subst (λ o. RanksBelow rank r o ts) told below'.1) left)))
        (λ e.
          IsLoopEnded-lookups n m m' _ same
            (routers-IsLoopEnded r n again result to ts path m' ends ranked' below'.1 short))
