-- ===== src/Clock/Edges.antt =====
-- When the edges of no_clock/no_clock.hpp are, and what the clock says of them.
use native.Mathlib.Nat.{mod-lt, add-mul-mod_self_right, le-mul_of_pos_right}
use sc_platform.Prelude.{
  ℕ, suc, ◌+◌, ◌*◌, ◌%◌, ◌^◌, ◌≤◌, ◌<◌, ◌≡◌, ap, ◌∙◌, inl, inr, Bool, true, false, arith, ◌==◌,
  Bool-cases, done,
}
use sc_platform.Common.{u64}
use sc_platform.Kernel.{TimeArithmetic}
use sc_platform.Clock.{Clock, delay, no_clock, no_clock_original}
use sc_platform.Clock.Times.{
  until_posedge, until_negedge, until, next, next_posedge, next_negedge, next_sample, next_setedge,
  read, at_posedge_time, at_negedge_time,
}
use sc_platform.Clock.Delay.{delay_least}

-- Times are small enough for the arithmetic to be exact, and the offsets lie in the period.
pub record IsRegular {Real : Type 0} (now : ℕ) (s : Clock Real) : Type 0 where
  pub now_fits : now + s.shift < 2 ^ 52
  pub period_fits : s.period < 2 ^ 51
  pub posedge_inside : s.posedge_offset < s.period
  pub negedge_inside : s.negedge_offset < s.period
  pub sample_inside : s.sample_offset < s.period
  pub setedge_inside : s.setedge_offset < s.period

module _ (w : TimeArithmetic) where
  open w use {Real, part, times, times-exact}

  pub no_times : (t : ℕ) → times 0 t ≡ 0
  no_times t = omega (arith, times-exact 0 t (omega arith))

  -- `wait` is past `n` periods, not past `n + 1`, and ends at the offset in a period.
  abbrev pub IsAhead : ℕ → ℕ → ℕ → Clock Real → ℕ → Type 0
  IsAhead now n offset s wait =
      (n * s.period < wait)
      × (wait ≤ suc n * s.period)
      × ((now + s.shift + wait) % s.period ≡ offset)

  next-IsAhead :
      (now n offset : ℕ) (s : Clock Real)
      → now + s.shift < 2 ^ 52
      → s.period < 2 ^ 51
      → suc n * s.period < 2 ^ 52
      → offset < s.period
      → IsAhead now n offset s (next w now offset n s)
  unfolding next
  next-IsAhead now n offset s fits fits' far inside =
      let (short, lands, _) =
        delay_least now s.period offset s.shift 0 inside (omega arith) (omega arith) in
      let small : suc n ≤ suc n * s.period = le-mul_of_pos_right (suc n) (omega arith) in
      elim (Bool-cases (delay now s.period offset s.shift == 0)) [
        | inl at_edge ↦
            let zero_delay : delay now s.period offset s.shift ≡ 0 = ground arith in
            let e : next w now offset n s ≡ suc n * s.period =
              ground (arith, times-exact (suc n) s.period far) in
            (
              omega (arith, e),
              omega (arith, e),
              ap (λ x. (now + s.shift + x) % s.period) e
                  ∙ add-mul-mod_self_right (now + s.shift) (suc n) s.period
                  ∙ ap (λ x. x % s.period) (omega (arith, zero_delay))
                  ∙ lands,
            )
        | inr between ↦
            let e : next w now offset n s ≡ n * s.period + delay now s.period offset s.shift =
              ground (arith, times-exact n s.period (omega arith)) in
            (
              ground (arith, e),
              omega (arith, e, short),
              ap (λ x. x % s.period) (omega (arith, e))
                  ∙ add-mul-mod_self_right (now + s.shift + delay now s.period offset s.shift) n
                      s.period
                  ∙ lands,
            )
      ]

  -- In a clock whose offsets lie in the period, for times small enough to be exact: `next_posedge`,
  -- `next_negedge`, `next_sample` and `next_setedge` of `n` give a wait of more than `n` periods,
  -- so never 0, and of at most `n + 1`, that ends at their offset in a period.
  pub next_posedge-IsAhead :
      (now n : ℕ) (s : Clock Real)
      → IsRegular now s
      → suc n * s.period < 2 ^ 52
      → IsAhead now n s.posedge_offset s (next_posedge w now n s)
        × IsAhead now n s.negedge_offset s (next_negedge w now n s)
        × IsAhead now n s.sample_offset s (next_sample w now n s)
        × IsAhead now n s.setedge_offset s (next_setedge w now n s)
  unfolding next_posedge next_negedge next_sample next_setedge
  next_posedge-IsAhead now n s reg far =
      let go = λ (o : ℕ). next-IsAhead now n o s reg.now_fits reg.period_fits far in
      (
        go s.posedge_offset reg.posedge_inside,
        go s.negedge_offset reg.negedge_inside,
        go s.sample_offset reg.sample_inside,
        go s.setedge_offset reg.setedge_inside,
      )

  no_edges :
      (made period offset : ℕ) (duty : Real) (positive : Bool) (s : Clock Real)
      → no_clock_original w made period duty offset positive ≡ done s
      → s.posedge_offset ≡ s.negedge_offset
  unfolding no_clock_original
  no_edges made period offset duty positive s h = ground arith

  high_edges :
      (made period offset sample setedge : ℕ) (duty : Real) (s : Clock Real)
      → no_clock w made period duty offset sample setedge true ≡ done s
      → (s.negedge_offset ≡ u64 (offset + part duty period)) × (s.period ≡ period) × (0 < period)
  unfolding no_clock
  high_edges made period offset sample setedge duty s h = ground arith

  -- A clock made by the original constructor reads low at every time, and its rising and falling edge
  -- are at the same times.
  pub original-read :
      (made now period offset : ℕ) (duty : Real) (positive : Bool) (s : Clock Real)
      → no_clock_original w made period duty offset positive ≡ done s
      → (read w now s ≡ false) × (at_posedge_time w now s ≡ at_negedge_time w now s)
  unfolding read at_posedge_time at_negedge_time until_posedge until_negedge
  original-read made now period offset duty positive s h =
      let e = no_edges made period offset duty positive s h in
      let same : until_posedge w now 0 s ≡ until_negedge w now 0 s =
        ap (λ o. until w now o 0 s) e in
      (ground (arith, same), ap (λ x. x == 0) same)

  -- A clock that starts with its rising edge and whose falling edge, offset plus high part, is not
  -- before the end of the period is at no time at its falling edge.
  pub late_negedge :
      (made now period offset sample setedge : ℕ) (duty : Real) (s : Clock Real)
      → no_clock w made period duty offset sample setedge true ≡ done s
      → period ≤ offset + part duty period
      → offset + part duty period < 2 ^ 64
      → at_negedge_time w now s ≡ false
  unfolding at_negedge_time until_negedge until delay
  late_negedge made now period offset sample setedge duty s h late fits =
      let (e, e', positive) = high_edges made period offset sample setedge duty s h in
      let r = mod-lt (u64 (now + s.shift)) {m = s.period} (omega (arith, e', positive)) in
      ground (arith, e, e', r, no_times s.period)
