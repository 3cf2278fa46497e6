-- ===== src/Clock/Delay.antt =====
-- What the function `delay` of no_clock/no_clock.hpp computes.
use native.Mathlib.Decide.{ℕ_discrete}
use native.Mathlib.Nat.{mod-lt, mod-add-mod, add-mod_right, mod-eq_of_lt}
use sc_platform.Prelude.{
  ℕ, ◌+◌, ◌-◌, ◌%◌, ◌^◌, ◌≤◌, ◌<◌, ◌≡◌, sym, ap, ◌∙◌, ◌≢◌, ◌⊎◌, inl, inr, arith, ltb, Bool-cases,
}
use sc_platform.Common.{u64}
use sc_platform.Clock.{delay}

-- A remainder below twice the modulus.
mod-cases : (a p : ℕ) → a < p + p → ((a < p) × (a % p ≡ a)) ⊎ ((p ≤ a) × (a % p ≡ a - p))
mod-cases a p h = elim (Bool-cases (ltb a p)) [
  | inl l ↦ inl (ground arith, mod-eq_of_lt (ground arith))
  | inr g ↦
      let e : (a - p) + p ≡ a = ground arith in
      inr (
        ground arith,
        ap (λ x. x % p) (sym e) ∙ add-mod_right (a - p) p ∙ mod-eq_of_lt (ground arith),
      )
]

-- A wait below the period that ends at the offset is the least one.
least : (r d e offset p : ℕ) → r < p → d < p → (r + d) % p ≡ offset → (r + e) % p ≡ offset → d ≤ e
least r d e offset p hr hd hit h = elim (Bool-cases (ltb e d)) [
  | inr more ↦ ground arith
  | inl less ↦ elim (mod-cases (r + d) p (omega arith)) [
    | inl a ↦ elim (mod-cases (r + e) p (ground arith)) [
      | inl b ↦ ground arith
      | inr b ↦ ground arith
    ]
    | inr a ↦ elim (mod-cases (r + e) p (ground arith)) [
      | inl b ↦ ground arith
      | inr b ↦ ground arith
    ]
  ]
]

pub delay_bound :
    (now period offset shift : ℕ)
    → offset < period
    → now + shift < 2 ^ 64
    → period + offset < 2 ^ 64
    → let d = delay now period offset shift in
      let r = (now + shift) % period in
      (d < period) × ((r + d ≡ offset) ⊎ (r + d ≡ offset + period))
unfolding delay
delay_bound now period offset shift inside fits fits' =
    let e : u64 (now + shift) ≡ now + shift = omega arith in
    let below = mod-lt (now + shift) {m = period} (omega arith) in ground (arith, e, below)

-- For an offset below the period, and times whose sums are below 2^64: the delay is below the period,
-- it ends at the offset in a period, and a wait `e` is at least as long or does not end there.
pub delay_least :
    (now period offset shift e : ℕ)
    → offset < period
    → now + shift < 2 ^ 64
    → period + offset < 2 ^ 64
    → let d = delay now period offset shift in
      (d < period)
      × ((now + shift + d) % period ≡ offset)
      × ((d ≤ e) ⊎ ((now + shift + e) % period ≢ offset))
delay_least now period offset shift e inside fits fits' =
    let (short, lands) = delay_bound now period offset shift inside fits fits' in
    let below = mod-lt (now + shift) {m = period} (omega arith) in
    let hit : ((now + shift) % period + delay now period offset shift) % period ≡ offset =
      elim lands [
        | inl q ↦ rw q (mod-eq_of_lt inside)
        | inr q ↦ rw q (add-mod_right offset period ∙ mod-eq_of_lt inside)
      ] in
    (
      short,
      sym (mod-add-mod (now + shift) period (delay now period offset shift)) ∙ hit,
      elim (ℕ_discrete ((now + shift + e) % period) offset) [
        | yes there ↦ inl (
            least ((now + shift) % period) (delay now period offset shift) e offset period below
              short hit (mod-add-mod (now + shift) period e ∙ there))
        | no elsewhere ↦ inr elsewhere
      ],
    )
