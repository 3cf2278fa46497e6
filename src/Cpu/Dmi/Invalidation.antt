-- ===== src/Cpu/Dmi/Invalidation.antt =====
-- Which regions an invalidation leaves in the table of cpu/cpu.cpp: erasing one skips the next.
use sc_platform.Prelude.{
  ℕ, zero, suc, ◌+◌, ◌≤◌, ◌≡◌, refl, sym, ap, ap₂, ◌∙◌, inl, inr, Bool, true, false, List, [], ◌∷◌,
  ◌++◌, arith, ltb, if◌then◌else◌, Bool-cases, length, get_elem?, length-append, All,
}
use sc_platform.Cpu.Dmi.{
  Region, overlaps, erase_hit, erase_at, visit, invalidate_from, invalidate_direct_mem_ptr,
}

get-append : (pre rs : List Region) → get_elem? (pre ++ rs) (length pre) ≡ get_elem? rs 0
get-append [] rs = refl
get-append (p ∷ ps) rs = get-append ps rs

erase_at-append :
    (pre : List Region) (r : Region) (rs : List Region)
    → erase_at (length pre) (pre ++ r ∷ rs) ≡ pre ++ rs
erase_at-append [] r rs = refl
erase_at-append (p ∷ ps) r rs = ap (λ t. p ∷ t) (erase_at-append ps r rs)

append_one :
    (pre : List Region) (r : Region) (rs : List Region) → pre ++ r ∷ rs ≡ (pre ++ r ∷ []) ++ rs
append_one [] r rs = refl
append_one (p ∷ ps) r rs = ap (λ t. p ∷ t) (append_one ps r rs)

module _ (start_range end_range : ℕ) where
  -- The loop as a recursion on the regions that are left; one that follows an erased one is spared.
  scan : Bool → List Region → List Region
  scan spared [] = []
  scan true (r ∷ rs) = r ∷ scan false rs
  scan false (r ∷ rs) =
      let hit = overlaps start_range end_range r in
      let rest = scan hit rs in if hit then rest else r ∷ rest

  visit-append :
      (pre : List Region) (r : Region) (rs : List Region)
      → visit start_range end_range (length pre) (pre ++ r ∷ rs)
        ≡ (if overlaps start_range end_range r then pre ++ rs else pre ++ r ∷ rs)
  unfolding visit
  visit-append pre r rs =
      ap (erase_hit start_range end_range (length pre) (pre ++ r ∷ rs)) (get-append pre (r ∷ rs))
      ∙ ap (λ t. if overlaps start_range end_range r then t else pre ++ r ∷ rs)
          (erase_at-append pre r rs)

  -- The index is inside the table.
  inside :
      (pre : List Region) (r : Region) (rs : List Region)
      → ltb (length pre) (length (pre ++ r ∷ rs)) ≡ true
  inside pre r rs = ground (arith, length-append pre (r ∷ rs))

  -- Where the loop stands: at the regions that are left, or past the first of them.
  abbrev index : Bool → List Region → ℕ
  index spared pre = if spared then length pre + 1 else length pre

  past :
      (fuel : ℕ) (pre : List Region) (r : Region) (rs : List Region)
      → invalidate_from fuel start_range end_range (length (pre ++ r ∷ [])) ((pre ++ r ∷ []) ++ rs)
        ≡ (pre ++ r ∷ []) ++ scan false rs
      → invalidate_from fuel start_range end_range (length pre + 1) (pre ++ r ∷ rs)
        ≡ pre ++ r ∷ scan false rs
  past fuel pre r rs rest =
      ap₂ (λ i t. invalidate_from fuel start_range end_range i t)
        (omega (arith, length-append pre (r ∷ []))) (append_one pre r rs)
      ∙ rest
      ∙ sym (append_one pre r (scan false rs))

  invalidate_from-scan :
      (fuel : ℕ) (spared : Bool) (pre rs : List Region)
      → length rs ≤ fuel
      → invalidate_from fuel start_range end_range (index spared pre) (pre ++ rs)
        ≡ pre ++ scan spared rs
  unfolding invalidate_from scan
  invalidate_from-scan zero spared pre [] h = refl
  invalidate_from-scan zero spared pre (r ∷ rs) h = absurd (omega arith)
  invalidate_from-scan (suc fuel) true pre [] h = ground (arith, length-append pre [])
  invalidate_from-scan (suc fuel) false pre [] h = ground (arith, length-append pre [])
  invalidate_from-scan (suc fuel) true pre (r ∷ rs) h =
      past (suc fuel) pre r rs
        (invalidate_from-scan (suc fuel) false (pre ++ r ∷ []) rs (omega arith))
  invalidate_from-scan (suc fuel) false pre (r ∷ rs) h =
      let next : List Region → List Region =
        invalidate_from fuel start_range end_range (length pre + 1) in
      let entered : invalidate_from (suc fuel) start_range end_range (length pre) (pre ++ r ∷ rs)
          ≡ next (visit start_range end_range (length pre) (pre ++ r ∷ rs)) =
        rw (inside pre r rs) refl in
      entered
      ∙ ap next (visit-append pre r rs)
      ∙ (elim (Bool-cases (overlaps start_range end_range r)) [
        | inl hit ↦ rw hit (invalidate_from-scan fuel true pre rs (omega arith))
        | inr miss ↦
            rw miss (
              past fuel pre r rs (invalidate_from-scan fuel false (pre ++ r ∷ []) rs (omega arith)))
      ])

  -- The first region, if any, is not one that the range overlaps.
  abbrev pub IsSafeHead : List Region → Type 0
  IsSafeHead [] = Unit {0}
  IsSafeHead (r ∷ rs) = overlaps start_range end_range r ≡ false

  -- No region that the range overlaps stands right after another.
  abbrev pub IsApart : List Region → Type 0
  IsApart [] = Unit {0}
  IsApart (r ∷ rs) = (overlaps start_range end_range r ≡ true → IsSafeHead rs) × IsApart rs

  abbrev pub untouched : List Region → List Region
  untouched [] = []
  untouched (r ∷ rs) =
      let rest = untouched rs in if overlaps start_range end_range r then rest else r ∷ rest

  scan-safe : (rs : List Region) → IsSafeHead rs → scan true rs ≡ scan false rs
  unfolding scan
  scan-safe [] h = refl
  scan-safe (r ∷ rs) h = rw h refl

  scan-untouched : (rs : List Region) → IsApart rs → scan false rs ≡ untouched rs
  unfolding scan
  scan-untouched [] h = refl
  scan-untouched (r ∷ rs) h = elim (Bool-cases (overlaps start_range end_range r)) [
    | inl hit ↦ rw hit (scan-safe rs (h.0 hit) ∙ scan-untouched rs h.1)
    | inr miss ↦ rw miss (ap (λ t. r ∷ t) (scan-untouched rs h.1))
  ]

  invalidate-scan :
      (table : List Region)
      → invalidate_direct_mem_ptr start_range end_range table ≡ scan false table
  unfolding invalidate_direct_mem_ptr
  invalidate-scan table = invalidate_from-scan (length table) false [] table (omega arith)

  -- Where no two neighbours of the table overlap the range, an invalidation leaves exactly the regions
  -- that do not overlap it, in their order.
  pub invalidate-untouched :
      (table : List Region)
      → IsApart table
      → invalidate_direct_mem_ptr start_range end_range table ≡ untouched table
  invalidate-untouched table h = invalidate-scan table ∙ scan-untouched table h

  scan-miss :
      (pre rs : List Region)
      → All (λ r. overlaps start_range end_range r ≡ false) pre
      → scan false (pre ++ rs) ≡ pre ++ scan false rs
  unfolding scan
  scan-miss [] rs h = refl
  scan-miss (p ∷ ps) rs h = rw (h.0) (ap (λ t. p ∷ t) (scan-miss ps rs h.1))

  -- The region after the first one that overlaps the range stays in the table, also where it overlaps
  -- the range itself; the loop goes on behind it.
  pub invalidate_spares :
      (pre : List Region) (r q : Region) (rs : List Region)
      → All (λ p. overlaps start_range end_range p ≡ false) pre
      → overlaps start_range end_range r ≡ true
      → invalidate_direct_mem_ptr start_range end_range (pre ++ r ∷ q ∷ rs)
        ≡ pre ++ q ∷ invalidate_direct_mem_ptr start_range end_range rs
  unfolding scan
  invalidate_spares pre r q rs misses hit =
      invalidate-scan (pre ++ r ∷ q ∷ rs)
      ∙ scan-miss pre (r ∷ q ∷ rs) misses
      ∙ rw hit (ap (λ t. pre ++ q ∷ t) (sym (invalidate-scan rs)))
