-- ===== src/Timer/Period.antt =====
-- What one round, and many, of `trigger_thread` of timer/timer_beh.cpp leave.
use sc_platform.Prelude.{
  ℕ, zero, suc, ◌+◌, ◌*◌, ◌^◌, ◌<◌, ◌≡◌, refl, ap, ◌≢◌, true, false, not, ◌&&◌, ◌||◌, some, arith,
  ltb, ◌==◌, if◌then◌else◌, set, done, none,
}
use sc_platform.Kernel.{EventKernel}
use sc_platform.Timer.{Timer, trigger_thread, rounds, is_running}

module _ (k : EventKernel) where
  open k use {Event, due, notify, cancel, fired, due-fired, due-notify_idle}

  -- A one-shot timer that runs and wakes at its trigger time has triggered, is no longer armed, and
  -- does not run, with no notification pending.
  pub trigger_thread_one_shot :
      (s : Timer Event)
      → s.paused ≡ false
      → s.trigger_time ≢ 0
      → s.continuous ≡ false
      → (t : Timer Event) × (trigger_thread k s.trigger_time s ≡ done t)
        × (t.triggered ≡ true)
        × (is_running k s.trigger_time 0 t ≡ false)
        × (due t.trigger_event ≡ none)
  unfolding trigger_thread is_running
  trigger_thread_one_shot s runs armed once = (
    record s {
      trigger_event = fired s.trigger_event;
      triggered = true;
      pulse_event =
          if ltb 0 s.pulse_delay
          then notify s.trigger_time s.pulse_delay s.pulse_event
          else s.pulse_event;
      start_time = if s.reload && not (s.load_delay == 0) then s.trigger_time else s.start_time;
      trigger_time = 0;
    },
    ground arith,
    refl,
    ground arith,
    due-fired s.trigger_event,
  )

  pub round_continuous :
      (s : Timer Event)
      → s.paused ≡ false
      → s.trigger_time ≢ 0
      → s.continuous ≡ true
      → 0 < s.load_delay
      → s.trigger_time + s.load_delay < 2 ^ 64
      → (t : Timer Event) × (trigger_thread k s.trigger_time s ≡ done t)
        × (t.triggered ≡ true)
        × (t.paused ≡ false)
        × (t.continuous ≡ true)
        × (t.load_delay ≡ s.load_delay)
        × (t.trigger_time ≡ s.trigger_time + s.load_delay)
        × (due t.trigger_event ≡ some (s.trigger_time + s.load_delay))
  unfolding trigger_thread
  round_continuous s runs armed on loaded fits = (
    record s {
      trigger_event = notify s.trigger_time s.load_delay (fired s.trigger_event);
      triggered = true;
      pulse_event =
          if ltb 0 s.pulse_delay
          then notify s.trigger_time s.pulse_delay s.pulse_event
          else s.pulse_event;
      start_time = if s.reload && not (s.load_delay == 0) then s.trigger_time else s.start_time;
      trigger_time = s.trigger_time + s.load_delay;
    },
    ground arith,
    refl,
    runs,
    on,
    refl,
    refl,
    due-notify_idle s.trigger_time s.load_delay (fired s.trigger_event) (due-fired s.trigger_event),
  )

  -- A continuous timer with a load that runs, notified for its trigger time, wakes `n` times, each
  -- one load after the one before, if the last trigger time is below 2^64: no round aborts, after
  -- them it has triggered exactly if it had before or `n` is not 0, and it is notified for its
  -- trigger time, which is `n` loads after the first.
  pub rounds_periodic :
      (n : ℕ) (s : Timer Event)
      → s.paused ≡ false
      → s.trigger_time ≢ 0
      → s.continuous ≡ true
      → 0 < s.load_delay
      → due s.trigger_event ≡ some s.trigger_time
      → s.trigger_time + n * s.load_delay < 2 ^ 64
      → (t : Timer Event) × (rounds k n s ≡ done t)
        × (t.trigger_time ≡ s.trigger_time + n * s.load_delay)
        × (due t.trigger_event ≡ some t.trigger_time)
        × (t.triggered ≡ (s.triggered || ltb 0 n))
  unfolding rounds
  rounds_periodic zero s runs armed on loaded pending fits =
      (s, refl, omega arith, pending, ground arith)
  rounds_periodic (suc n) s runs armed on loaded pending fits =
      let (t, step, set, runs', on', load, time, due_at) =
        round_continuous s runs armed on loaded (omega arith) in
      let later = ap (λ d. n * d) load in
      let (u, rest, time', due', set') =
        rounds_periodic n t runs' (λ z. omega arith) on' (omega arith) (cc)
          (omega (arith, later)) in
      (u, cc, omega (arith, later), due', ground (arith, set, set'))
