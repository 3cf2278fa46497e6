-- ===== src/Clock/Times.antt =====
-- no_clock/no_clock.hpp: the times until the edges of a clock, and the tests for them. A wait is `some`
-- of the time that the thread waits for, `none` where it goes on at once.
use sc_platform.Prelude.{ℕ, ◌+◌, Bool, Option, none, some, ltb, ◌==◌, if◌then◌else◌}
use sc_platform.Common.{u64}
use sc_platform.Kernel.{TimeArithmetic}
use sc_platform.Clock.{Clock, delay}

-- `if( SC_ZERO_TIME != t ) wait( t )`.
unfoldable pub wait_for : ℕ → Option ℕ
wait_for t = if t == 0 then none else some t

module _ (w : TimeArithmetic) where
  open w use {Real, times}

  unfoldable pub until : ℕ → ℕ → ℕ → Clock Real → ℕ
  until now offset n s = u64 (times n s.period + delay now s.period offset s.shift)

  unfoldable pub until_posedge : ℕ → ℕ → Clock Real → ℕ
  unfolding until
  until_posedge now n s = until now s.posedge_offset n s

  unfoldable pub until_negedge : ℕ → ℕ → Clock Real → ℕ
  unfolding until
  until_negedge now n s = until now s.negedge_offset n s

  unfoldable pub read : ℕ → Clock Real → Bool
  read now s = ltb (until_negedge now 0 s) (until_posedge now 0 s)

  unfoldable pub until_anyedge : ℕ → ℕ → Clock Real → ℕ
  until_anyedge now n s =
      u64 (times n s.period + (if read now s then until_negedge now 0 s else until_posedge now 0 s))

  unfoldable pub until_sample : ℕ → ℕ → Clock Real → ℕ
  unfolding until
  until_sample now n s = until now s.sample_offset n s

  unfoldable pub until_setedge : ℕ → ℕ → Clock Real → ℕ
  unfolding until
  until_setedge now n s = until now s.setedge_offset n s

  unfoldable pub next : ℕ → ℕ → ℕ → Clock Real → ℕ
  next now offset n s =
      let t = delay now s.period offset s.shift in
      u64 (times (u64 (n + (if t == 0 then 1 else 0))) s.period + t)

  unfoldable pub next_posedge : ℕ → ℕ → Clock Real → ℕ
  unfolding next
  next_posedge now n s = next now s.posedge_offset n s

  unfoldable pub next_negedge : ℕ → ℕ → Clock Real → ℕ
  unfolding next
  next_negedge now n s = next now s.negedge_offset n s

  unfoldable pub next_anyedge : ℕ → ℕ → Clock Real → ℕ
  next_anyedge now n s =
      u64 (times n s.period + (if read now s then next_negedge now 0 s else next_posedge now 0 s))

  unfoldable pub next_sample : ℕ → ℕ → Clock Real → ℕ
  unfolding next
  next_sample now n s = next now s.sample_offset n s

  unfoldable pub next_setedge : ℕ → ℕ → Clock Real → ℕ
  unfolding next
  next_setedge now n s = next now s.setedge_offset n s

  abbrev pub wait_posedge : ℕ → ℕ → Clock Real → Option ℕ
  wait_posedge now n s = wait_for (until_posedge now n s)

  abbrev pub wait_negedge : ℕ → ℕ → Clock Real → Option ℕ
  wait_negedge now n s = wait_for (until_negedge now n s)

  abbrev pub wait_anyedge : ℕ → ℕ → Clock Real → Option ℕ
  wait_anyedge now n s = wait_for (until_anyedge now n s)

  abbrev pub wait_sample : ℕ → ℕ → Clock Real → Option ℕ
  wait_sample now n s = wait_for (until_sample now n s)

  abbrev pub wait_setedge : ℕ → ℕ → Clock Real → Option ℕ
  wait_setedge now n s = wait_for (until_setedge now n s)

  unfoldable pub at_posedge_time : ℕ → Clock Real → Bool
  at_posedge_time now s = until_posedge now 0 s == 0

  unfoldable pub at_negedge_time : ℕ → Clock Real → Bool
  at_negedge_time now s = until_negedge now 0 s == 0

  unfoldable pub at_anyedge_time : ℕ → Clock Real → Bool
  at_anyedge_time now s = until_anyedge now 0 s == 0

  unfoldable pub at_sample_time : ℕ → Clock Real → Bool
  at_sample_time now s = until_sample now 0 s == 0

  -- The source tests the sample time.
  unfoldable pub at_setedge_time : ℕ → Clock Real → Bool
  at_setedge_time now s = until_sample now 0 s == 0
