-- ===== src/Clock.antt =====
-- no_clock/no_clock.hpp and no_clock/no_clock.cpp: the class `no_clock`, which computes the times of a
-- clock's edges in place of producing them. A time is a 64-bit word, the current time `now` is an
-- argument, and the double arithmetic is that of `TimeArithmetic`.
pub mod Times
pub mod Delay
pub mod Edges
pub mod Levels
pub mod Count
use sc_platform.Prelude.{
  ℕ, ◌+◌, ◌-◌, ◌%◌, Bool, ltb, ◌==◌, if◌then◌else◌, Outcome, done, ◌>>=◌, ◌>>◌, require,
}
use sc_platform.Common.{u64, sub_u64}
use sc_platform.Kernel.{TimeArithmetic}

pub record Clock (Real : Type 0) : Type 0 where
  pub period : ℕ
  pub duty : Real
  pub offset : ℕ
  pub posedge_offset : ℕ
  pub negedge_offset : ℕ
  pub starts_high : Bool
  pub sample_offset : ℕ
  pub setedge_offset : ℕ
  pub frequency_set : ℕ
  pub freq_count : ℕ
  pub base_count : ℕ
  pub shift : ℕ

-- The period is not 0.
unfoldable pub delay : ℕ → ℕ → ℕ → ℕ → ℕ
delay now period offset shift =
    let remainder = u64 (now + shift) % period in
    if remainder == offset
    then 0
    else if ltb remainder offset
    then offset - remainder
    else sub_u64 (u64 (period + offset)) remainder

module _ (w : TimeArithmetic) where
  open w use {Real, is_positive, is_fraction, part, rest, period_of, times, quotient}

  -- The tests that both constructors end with.
  validate : Clock Real → Outcome (Clock Real)
  validate s = do
    require (ltb 0 s.period)
    require (is_fraction s.duty)
    require (ltb s.offset s.period)
    require (ltb s.sample_offset s.period)
    require (ltb s.setedge_offset s.period)
    done s

  -- The enhanced constructor.
  unfoldable pub no_clock : ℕ → ℕ → Real → ℕ → ℕ → ℕ → Bool → Outcome (Clock Real)
  unfolding validate
  no_clock now period duty offset sample setedge positive =
      let far = u64 (offset + part duty period) in
      validate (record {
        period = period;
        duty = duty;
        offset = offset;
        posedge_offset = if positive then offset else far;
        negedge_offset = if positive then far else offset;
        starts_high = positive;
        sample_offset = sample;
        setedge_offset = setedge;
        frequency_set = now;
        freq_count = 0;
        base_count = 0;
        shift = 0;
      })

  -- The original constructor: the two edges keep the value that `sc_time` starts with, 0.
  unfoldable pub no_clock_original : ℕ → ℕ → Real → ℕ → Bool → Outcome (Clock Real)
  unfolding validate
  no_clock_original now period duty offset positive = validate (record {
    period = period;
    duty = duty;
    offset = offset;
    posedge_offset = 0;
    negedge_offset = 0;
    starts_high = positive;
    sample_offset = if positive then offset else u64 (offset + rest duty period);
    setedge_offset = if positive then u64 (offset + part duty period) else offset;
    frequency_set = now;
    freq_count = 0;
    base_count = 0;
    shift = 0;
  })

  unfoldable pub clocks : ℕ → ℕ → ℕ → ℕ → ℕ
  clocks now period zero_time shift = quotient (sub_u64 (u64 (now + shift)) zero_time) period

  unfoldable pub cycles : ℕ → Clock Real → ℕ
  unfolding clocks
  cycles now s = u64 (s.base_count + clocks now s.period s.frequency_set s.shift)

  change_period : ℕ → ℕ → Clock Real → Clock Real
  unfolding cycles
  change_period now period s = record s {
    freq_count = u64 (s.freq_count + 1);
    base_count = u64 (s.base_count + cycles now s);
    period = period;
    frequency_set = now;
  }

  unfoldable pub set_frequency : ℕ → Real → Clock Real → Outcome (Clock Real)
  unfolding change_period
  set_frequency now frequency s = do
    require (is_positive frequency)
    done (change_period now (period_of frequency) s)

  unfoldable pub set_period_time : ℕ → ℕ → Clock Real → Outcome (Clock Real)
  unfolding change_period
  set_period_time now period s = do require (ltb 0 period); done (change_period now period s)

  abbrev pub set_offset_time : ℕ → Clock Real → Clock Real
  set_offset_time offset s = record s { offset = offset }

  unfoldable pub set_duty_cycle : Real → Clock Real → Outcome (Clock Real)
  set_duty_cycle duty s = do
    require (is_fraction duty)
    let far = u64 (s.offset + part duty s.period)
    done (record s {
      duty = duty;
      posedge_offset = if s.starts_high then s.offset else far;
      negedge_offset = if s.starts_high then far else s.offset;
    })

  abbrev pub set_sample_time : ℕ → Clock Real → Outcome (Clock Real)
  set_sample_time sample s = do
    require (ltb sample s.period)
    done (record s { sample_offset = sample })

  abbrev pub set_setedge_time : ℕ → Clock Real → Outcome (Clock Real)
  set_setedge_time setedge s = do
    require (ltb setedge s.period)
    done (record s { setedge_offset = setedge })

  abbrev pub set_time_shift : ℕ → Clock Real → Clock Real
  set_time_shift shift s = record s { shift = shift }
