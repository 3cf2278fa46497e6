-- ===== src/Timer/Faults.antt =====
-- Orders of calls of timer/timer_beh.cpp after which a timer does not trigger when it is set to.
use sc_platform.Prelude.{ℕ, ◌+◌, ◌-◌, ◌^◌, ◌<◌, ◌≡◌, refl, false, some, arith, done, aborted}
use sc_platform.Common.{sub_u64}
use sc_platform.Kernel.{EventKernel}
use sc_platform.Timer.{Timer, start, pause, stop, resume, trigger_thread}

module _ (k : EventKernel) where
  open k use {Event, due, notify, cancel, fired, due-notify_pending}

  -- Starting a timer again without a delay, while it is notified for its trigger time and for a
  -- later time below 2^64, sets the later trigger time but leaves the earlier notification pending;
  -- the round at that notification aborts.
  pub restart_aborts :
      (now : ℕ) (s : Timer Event)
      → s.paused ≡ false
      → due s.trigger_event ≡ some s.trigger_time
      → s.trigger_time < now + s.load_delay
      → 0 < s.load_delay
      → now + s.load_delay < 2 ^ 64
      → (t : Timer Event) × (start k now 0 s ≡ done t)
        × (t.trigger_time ≡ now + s.load_delay)
        × (due t.trigger_event ≡ some s.trigger_time)
        × (trigger_thread k s.trigger_time t ≡ aborted)
  unfolding start trigger_thread
  restart_aborts now s runs pending later loaded fits = (
    record s {
      start_time = now;
      trigger_time = now + s.load_delay;
      trigger_event = notify now s.load_delay s.trigger_event;
    },
    ground arith,
    refl,
    ground (arith, due-notify_pending now s.load_delay s.trigger_time s.trigger_event pending),
    ground arith,
  )

  -- A timer that is paused at the time it is set to trigger aborts when it is resumed or started.
  pub pause_at_trigger_aborts :
      (later delay : ℕ) (s : Timer Event)
      → s.trigger_time < 2 ^ 64
      → (resume k later delay (pause k s.trigger_time 0 s) ≡ aborted)
        × (start k later delay (pause k s.trigger_time 0 s) ≡ aborted)
  unfolding start resume pause
  pause_at_trigger_aborts later delay s fits = (ground arith, ground arith)

  -- A stopped timer that is paused and resumed is set to trigger again: after a pause at a time that is
  -- not 0 and a later resume, the trigger time is how long it was paused.
  pub stop-pause-resume :
      (at_pause at_resume : ℕ) (s : Timer Event)
      → 0 < at_pause
      → at_pause < at_resume
      → at_resume < 2 ^ 64
      → (t : Timer Event) × (resume k at_resume 0 (pause k at_pause 0 (stop k s)) ≡ done t)
        × (t.paused ≡ false)
        × (t.trigger_time ≡ at_resume - at_pause)
  unfolding resume pause stop
  stop-pause-resume at_pause at_resume s begun order fits =
      let left = sub_u64 0 at_pause in
      (
        record s {
          paused = false;
          trigger_time = at_resume - at_pause;
          start_time = sub_u64 (at_resume - at_pause) s.load_delay;
          trigger_event = notify at_resume left (cancel (cancel s.trigger_event));
          resume_delay = 0;
        },
        ground arith,
        refl,
        refl,
      )
