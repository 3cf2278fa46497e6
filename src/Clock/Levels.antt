-- ===== src/Clock/Levels.antt =====
-- The level that no_clock/no_clock.hpp reads, and what is computed from it.
use native.Mathlib.Nat.{mod-lt}
use sc_platform.Prelude.{ℕ, ◌+◌, ◌-◌, ◌%◌, ◌^◌, ◌≤◌, ◌<◌, ◌≡◌, ◌≢◌, ◌↔◌, true, false, arith}
use sc_platform.Common.{u64}
use sc_platform.Kernel.{TimeArithmetic}
use sc_platform.Clock.{Clock, delay}
use sc_platform.Clock.Times.{
  until_posedge, until_negedge, until_setedge, until_sample, until, next, next_posedge,
  next_negedge, next_anyedge, read, at_setedge_time,
}
use sc_platform.Clock.Edges.{IsRegular, no_times}

module _ (w : TimeArithmetic) where
  open w use {Real, times, times-exact}

  until_zero :
      (now offset : ℕ) (s : Clock Real)
      → now + s.shift < 2 ^ 52
      → s.period < 2 ^ 51
      → offset < s.period
      → until w now offset 0 s ≡ delay now s.period offset s.shift
  unfolding until delay
  until_zero now offset s fits fits' inside =
      let r = mod-lt (u64 (now + s.shift)) {m = s.period} (omega arith) in
      ground (arith, r, no_times w s.period)

  -- In a clock whose offsets lie in the period, for times small enough to be exact, and whose
  -- falling edge is later in the period than its rising one, the level that is read is high from
  -- just after the rising edge up to the falling edge, that one included.
  pub read_iff_high :
      (now : ℕ) (s : Clock Real)
      → IsRegular now s
      → s.posedge_offset < s.negedge_offset
      → let phase = (now + s.shift) % s.period in
        (read w now s ≡ true) ↔ ((s.posedge_offset < phase) × (phase ≤ s.negedge_offset))
  unfolding read until_posedge until_negedge delay
  read_iff_high now s reg order =
      let p = until_zero now s.posedge_offset s reg.now_fits reg.period_fits reg.posedge_inside in
      let n = until_zero now s.negedge_offset s reg.now_fits reg.period_fits reg.negedge_inside in
      let r = mod-lt (now + s.shift) {m = s.period} (omega (arith, reg.posedge_inside)) in
      let e : u64 (now + s.shift) ≡ now + s.shift = omega (arith, reg.now_fits) in
      ground (arith, p, n, r, e)

  -- In a clock whose offsets lie in the period, for times small enough to be exact, and whose
  -- falling edge is later in the period than its rising one: at the time of the rising edge
  -- `next_anyedge` gives a wait of a whole period, which is past the falling edge in between.
  pub next_anyedge_skips :
      (now : ℕ) (s : Clock Real)
      → IsRegular now s
      → s.posedge_offset < s.negedge_offset
      → (now + s.shift) % s.period ≡ s.posedge_offset
      → (next_anyedge w now 0 s ≡ s.period)
        × (next_negedge w now 0 s ≡ s.negedge_offset - s.posedge_offset)
        × (next_negedge w now 0 s < next_anyedge w now 0 s)
  unfolding next_anyedge next_posedge next_negedge next read until_posedge until_negedge delay
  next_anyedge_skips now s reg order here =
      let p = until_zero now s.posedge_offset s reg.now_fits reg.period_fits reg.posedge_inside in
      let n = until_zero now s.negedge_offset s reg.now_fits reg.period_fits reg.negedge_inside in
      let e : u64 (now + s.shift) ≡ now + s.shift = omega (arith, reg.now_fits) in
      let once = times-exact 1 s.period (omega (arith, reg.period_fits)) in
      let none_more = no_times w s.period in
      (
        ground (arith, p, n, e, once, none_more),
        ground (arith, p, n, e, once, none_more),
        ground (arith, p, n, e, once, none_more),
      )

  -- In a regular clock whose sample and set edges differ, `at_setedge_time` is false whenever the wait
  -- until the set edge is 0.
  pub at_setedge_misses :
      (now : ℕ) (s : Clock Real)
      → IsRegular now s
      → s.sample_offset ≢ s.setedge_offset
      → until_setedge w now 0 s ≡ 0
      → at_setedge_time w now s ≡ false
  unfolding at_setedge_time until_setedge until_sample delay
  at_setedge_misses now s reg differ there =
      let p = until_zero now s.sample_offset s reg.now_fits reg.period_fits reg.sample_inside in
      let n = until_zero now s.setedge_offset s reg.now_fits reg.period_fits reg.setedge_inside in
      let r = mod-lt (now + s.shift) {m = s.period} (omega (arith, reg.posedge_inside)) in
      let e : u64 (now + s.shift) ≡ now + s.shift = omega (arith, reg.now_fits) in
      ground (arith, p, n, r, e, there)
