-- ===== src/Clock/Count.antt =====
-- The cycle count of no_clock/no_clock.hpp across changes of the period.
use native.Mathlib.Nat.{add-div_right, zero-div}
use sc_platform.Prelude.{ℕ, suc, ◌+◌, ◌-◌, ◌^◌, ◌≤◌, ◌<◌, ◌≡◌, refl, ◌∙◌, arith, done}
use sc_platform.Common.{u64}
use sc_platform.Kernel.{TimeArithmetic}
use sc_platform.Clock.{Clock, cycles, clocks, set_period_time}

module _ (w : TimeArithmetic) where
  open w use {Real, quotient, quotient-exact}

  -- Without a shift, and for a count and times below 2^64, a change of the period adds the base
  -- count to the count of cycles: at the time of the change the count is what it was before, plus
  -- the base count, and one more change is counted.
  pub set_period_time_double_counts :
      (now period : ℕ) (s : Clock Real)
      → s.shift ≡ 0
      → now < 2 ^ 64
      → 0 < period
      → s.base_count + cycles w now s < 2 ^ 64
      → (t : Clock Real) × (set_period_time w now period s ≡ done t)
        × (cycles w now t ≡ s.base_count + cycles w now s)
        × (t.freq_count ≡ u64 (s.freq_count + 1))
  unfolding set_period_time cycles clocks
  set_period_time_double_counts now period s unshifted fits positive small =
      let none_yet : quotient 0 period ≡ 0 =
        quotient-exact 0 period (omega arith) positive ∙ zero-div period in
      (
        record s {
          freq_count = u64 (s.freq_count + 1);
          base_count = s.base_count + cycles w now s;
          period = period;
          frequency_set = now;
        },
        ground arith,
        ground (arith, none_yet),
        refl,
      )

  -- After a period above 0 the count of cycles is one more, at any time from the last change of the
  -- period on, for times below 2^52 units and a base count below 2^63.
  pub cycles_advance :
      (now : ℕ) (s : Clock Real)
      → 0 < s.period
      → s.frequency_set ≤ now + s.shift
      → now + s.shift + s.period < 2 ^ 52
      → s.base_count < 2 ^ 63
      → cycles w (now + s.period) s ≡ suc (cycles w now s)
  unfolding cycles clocks
  cycles_advance now s positive since fits small =
      let past = now + s.shift - s.frequency_set in
      let before = quotient-exact past s.period (omega arith) positive in
      let after = quotient-exact (past + s.period) s.period (omega arith) positive in
      let one_more = add-div_right past positive in ground (arith, before, after, one_more)
