-- ===== src/Pic/Next.antt =====
-- Which interrupt the NEXT register of interrupt/pic.cpp gives.
use sc_platform.Prelude.{
  ℕ, zero, suc, ◌+◌, ◌≤◌, ◌<◌, ◌≡◌, refl, ap, ◌∙◌, ◌≢◌, ◌⊎◌, inl, inr, Bool, true, false, ◌&&◌,
  Option, none, some, List, [], ◌∷◌, arith, ltb, Bool-cases, Option-cases, length, get_elem?,
}
use sc_platform.Pic.{Source, invalid_irq}
use sc_platform.Pic.Actions.{highest, next_irq, activate}

-- Pending, and above the mask.
abbrev pub IsReady : ℕ → Source → Type 0
IsReady mask x = (x.pending ≡ true) × (mask < x.priority)

-- The number and priority are those of a source that is ready.
abbrev pub Chosen : ℕ → ℕ → List Source → ℕ × ℕ → Type 0
Chosen mask n xs c =
    (j : ℕ) × (y : Source) × (c.0 ≡ n + j)
    × (get_elem? xs j ≡ some y)
    × IsReady mask y
    × (c.1 ≡ y.priority)

highest-Chosen :
    (mask n : ℕ) (xs : List Source) (best : Option (ℕ × ℕ)) (c : ℕ × ℕ)
    → highest mask n xs best ≡ some c
    → (best ≡ some c) ⊎ Chosen mask n xs c
unfolding highest
highest-Chosen mask n [] best c h = inl h
highest-Chosen mask n (x ∷ xs) best c h =
    let candidate = x.pending && ltb mask x.priority in
    let beats : Bool = elim best [ none ↦ true | some b ↦ ltb b.1 x.priority ] in
    elim (Bool-cases (candidate && beats)) [
      | inl t ↦
          let h' : highest mask (n + 1) xs (some (n, x.priority)) ≡ some c = rw t at h in
          elim (highest-Chosen mask (n + 1) xs (some (n, x.priority)) c h') [
            | inl e ↦ inr (0, x, ground arith, refl, (ground arith, ground arith), ground arith)
            | inr (j, y, at, here, ready, same) ↦
                inr (suc j, y, omega (arith, at), here, ready, same)
          ]
      | inr f ↦
          let h' : highest mask (n + 1) xs best ≡ some c = rw f at h in
          elim (highest-Chosen mask (n + 1) xs best c h') [
            | inl e ↦ inl e
            | inr (j, y, at, here, ready, same) ↦
                inr (suc j, y, omega (arith, at), here, ready, same)
          ]
    ]

highest_mono :
    (mask n : ℕ) (xs : List Source) (b : ℕ × ℕ)
    → (c : ℕ × ℕ) × (highest mask n xs (some b) ≡ some c) × (b.1 ≤ c.1)
unfolding highest
highest_mono mask n [] b = (b, refl, omega arith)
highest_mono mask n (x ∷ xs) b =
    elim (Bool-cases ((x.pending && ltb mask x.priority) && ltb b.1 x.priority)) [
      | inl t ↦
          let (c, e, le) = highest_mono mask (n + 1) xs (n, x.priority) in (c, rw t e, ground arith)
      | inr f ↦ let (c, e, le) = highest_mono mask (n + 1) xs b in (c, rw f e, le)
    ]

highest-top :
    (mask n i : ℕ) (xs : List Source) (x : Source) (best : Option (ℕ × ℕ))
    → get_elem? xs i ≡ some x
    → IsReady mask x
    → (c : ℕ × ℕ) × (highest mask n xs best ≡ some c) × (x.priority ≤ c.1)
unfolding highest
highest-top mask n i [] x best here r = cc
highest-top mask n zero (y ∷ ys) x none here r =
    let t : (y.pending && ltb mask y.priority) && true ≡ true = ground arith in
    let (c, e, le) = highest_mono mask (n + 1) ys (n, y.priority) in (c, rw t e, ground arith)
highest-top mask n zero (y ∷ ys) x (some b) here r =
    elim (Bool-cases ((y.pending && ltb mask y.priority) && ltb b.1 y.priority)) [
      | inl t ↦
          let (c, e, le) = highest_mono mask (n + 1) ys (n, y.priority) in (c, rw t e, ground arith)
      | inr f ↦ let (c, e, le) = highest_mono mask (n + 1) ys b in (c, rw f e, ground arith)
    ]
highest-top mask n (suc i) (y ∷ ys) x best here r = highest-top mask (n + 1) i ys x _ here r

none-ne_some : {c : ℕ × ℕ} → none ≢ some c
none-ne_some h = cc

get_elem?-some_lt :
    (xs : List Source) (j : ℕ) (y : Source) → get_elem? xs j ≡ some y → j < length xs
get_elem?-some_lt [] j y h = cc
get_elem?-some_lt (x ∷ xs) zero y h = omega arith
get_elem?-some_lt (x ∷ xs) (suc j) y h = omega (arith, get_elem?-some_lt xs j y h)

next_irq-none :
    (mask : ℕ) (xs : List Source)
    → highest mask 0 xs none ≡ none
    → next_irq mask xs ≡ (invalid_irq, xs)
unfolding next_irq
next_irq-none mask xs e = rw (e, next_irq) refl

next_irq-small :
    (mask : ℕ) (xs : List Source) (c : ℕ × ℕ)
    → highest mask 0 xs none ≡ some c
    → ltb c.0 invalid_irq ≡ true
    → next_irq mask xs ≡ (c.0, activate c.0 xs)
unfolding next_irq
next_irq-small mask xs c e t = rw (e, next_irq) (rw t refl)

next_irq-large :
    (mask : ℕ) (xs : List Source) (c : ℕ × ℕ)
    → highest mask 0 xs none ≡ some c
    → ltb c.0 invalid_irq ≡ false
    → next_irq mask xs ≡ (c.0, xs)
unfolding next_irq
next_irq-large mask xs c e f = rw (e, next_irq) (rw f refl)

-- If some source is pending with a priority above the mask, and there are no more sources than
-- numbers below the invalid one, the NEXT register gives the number of a source that is so too
-- and has at least its priority, and makes that one active.
pub next_irq_highest :
    (mask i : ℕ) (xs : List Source) (x : Source)
    → get_elem? xs i ≡ some x
    → x.pending ≡ true
    → mask < x.priority
    → length xs ≤ invalid_irq
    → let n = (next_irq mask xs).0 in
      (y : Source) × (get_elem? xs n ≡ some y)
      × (y.pending ≡ true)
      × (mask < y.priority)
      × (x.priority ≤ y.priority)
      × ((next_irq mask xs).1 ≡ activate n xs)
next_irq_highest mask i xs x here pending above few =
    let (c, e, le) = highest-top mask 0 i xs x none here (pending, above) in
    elim (highest-Chosen mask 0 xs none c e) [
      | inl nothing ↦ absurd (none-ne_some nothing)
      | inr (j, y, at, there, ready, same) ↦
          let number : c.0 ≡ j = omega (arith, at) in
          let small : ltb c.0 invalid_irq ≡ true =
            ground (arith, get_elem?-some_lt xs j y there, number) in
          rw (next_irq-small mask xs c e small)
            (y, ap (get_elem? xs) number ∙ there, ready.0, ready.1, omega (arith, le, same), refl)
    ]

highest-activate :
    (mask n i : ℕ) (xs : List Source) (best : Option (ℕ × ℕ))
    → highest mask n (activate i xs) best ≡ highest mask n xs best
unfolding highest activate
highest-activate mask n i [] best = refl
highest-activate mask n zero (x ∷ xs) best = refl
highest-activate mask n (suc i) (x ∷ xs) best = highest-activate mask (n + 1) i xs _

activate-activate : (i : ℕ) (xs : List Source) → activate i (activate i xs) ≡ activate i xs
unfolding activate
activate-activate i [] = refl
activate-activate zero (x ∷ xs) = refl
activate-activate (suc i) (x ∷ xs) = ap (◌∷◌ x) (activate-activate i xs)

-- Reading the NEXT register does not end the pending state: the next read gives the same interrupt, and
-- changes nothing more.
pub next_irq_repeats :
    (mask : ℕ) (xs : List Source) → next_irq mask (next_irq mask xs).1 ≡ next_irq mask xs
next_irq_repeats mask xs = elim (Option-cases (highest mask 0 xs none)) [
  | inl e ↦ let p = next_irq-none mask xs e in rw p p
  | inr (c, e) ↦ elim (Bool-cases (ltb c.0 invalid_irq)) [
    | inl t ↦
        let l = activate c.0 xs in
        let e' = highest-activate mask 0 c.0 xs none ∙ e in
        let p = next_irq-small mask l c e' t in
        rw (next_irq-small mask xs c e t) (p ∙ ap (λ m. (c.0, m)) (activate-activate c.0 xs))
    | inr f ↦ let p = next_irq-large mask xs c e f in rw p p
  ]
]
