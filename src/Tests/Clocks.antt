-- ===== src/Tests/Clocks.antt =====
-- The clock of no_clock/no_clock.hpp with exact arithmetic, where a duty is a number of hundredths.
use sc_platform.Prelude.{
  ℕ, ◌+◌, ◌-◌, ◌*◌, ◌/◌, ◌%◌, ◌^◌, ◌≤◌, ◌<◌, ◌≡◌, refl, ◌≢◌, ◌⊎◌, true, ◌&&◌, arith, ltb,
}
use sc_platform.Kernel.{TimeArithmetic}
use sc_platform.Clock.{Clock, delay}
use sc_platform.Clock.Times.{next_posedge, next_negedge, next_sample, next_setedge}
use sc_platform.Clock.Delay.{delay_least}
use sc_platform.Clock.Edges.{IsRegular, IsAhead, next_posedge-IsAhead}

abbrev pub exact : TimeArithmetic
exact = record {
  Real = ℕ;
  is_positive = λ x. ltb 0 x;
  is_fraction = λ x. ltb 0 x && ltb x 100;
  part = λ x t. x * t / 100;
  rest = λ x t. (100 - x) * t / 100;
  period_of = λ x. 10 ^ 12 / x;
  times = λ n t. n * t;
  quotient = λ s t. s / t;
  times-exact = λ n t h. refl;
  quotient-exact = λ s t h k. refl;
}

-- A period of 10, high from 2 to 7, sampled at 3 and set at 8, whose period was last set at 20.
abbrev clock : Clock ℕ
clock = record {
  period = 10;
  duty = 50;
  offset = 2;
  posedge_offset = 2;
  negedge_offset = 7;
  starts_high = true;
  sample_offset = 3;
  setedge_offset = 8;
  frequency_set = 20;
  freq_count = 1;
  base_count = 4;
  shift = 0;
}

clock-IsRegular : (now : ℕ) → now < 2 ^ 50 → IsRegular now clock
clock-IsRegular now h = record {
  now_fits = omega arith;
  period_fits = omega arith;
  posedge_inside = omega arith;
  negedge_inside = omega arith;
  sample_inside = omega arith;
  setedge_inside = omega arith;
}

delay_least_example :
    let d = delay 42 10 3 0 in (d < 10) × ((42 + d) % 10 ≡ 3) × ((d ≤ 11) ⊎ (53 % 10 ≢ 3))
delay_least_example = delay_least 42 10 3 0 11 (omega arith) (omega arith) (omega arith)

next_posedge-IsAhead_example :
    IsAhead exact 22 1 2 clock (next_posedge exact 22 1 clock)
    × IsAhead exact 22 1 7 clock (next_negedge exact 22 1 clock)
    × IsAhead exact 22 1 3 clock (next_sample exact 22 1 clock)
    × IsAhead exact 22 1 8 clock (next_setedge exact 22 1 clock)
next_posedge-IsAhead_example =
    next_posedge-IsAhead exact 22 1 clock (clock-IsRegular 22 (omega arith)) (omega arith)

-- As the original constructor makes it, for a period of 10 and half of it high.
abbrev original : Clock ℕ
original = record {
  period = 10;
  duty = 50;
  offset = 2;
  posedge_offset = 0;
  negedge_offset = 0;
  starts_high = true;
  sample_offset = 2;
  setedge_offset = 7;
  frequency_set = 0;
  freq_count = 0;
  base_count = 0;
  shift = 0;
}
