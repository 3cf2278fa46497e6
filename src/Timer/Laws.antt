-- ===== src/Timer/Laws.antt =====
-- When the timer of timer/timer_beh.cpp triggers, and what a pause does to it.
use sc_platform.Prelude.{
  ℕ, ◌+◌, ◌-◌, ◌^◌, ◌≤◌, ◌<◌, ◌≡◌, refl, true, false, ◌||◌, none, some, arith, ◌==◌, if◌then◌else◌,
  done,
}
use sc_platform.Common.{sub_u64}
use sc_platform.Kernel.{EventKernel}
use sc_platform.Timer.{Timer, resume, start, stop, pause, get_time_left, is_running}

module _ (k : EventKernel) where
  open k use {Event, due, notify, cancel, fired, due-cancel, due-fired, due-notify_idle}

  -- The trigger event is pending exactly for the trigger time, while the timer runs.
  abbrev pub IsSynced : Timer Event → Type 0
  IsSynced s =
      due s.trigger_event ≡ (if s.paused || s.trigger_time == 0 then none else some s.trigger_time)

  -- Starting a timer that is neither paused nor armed, with a load, arms it to trigger one load later.
  pub start_arms :
      (now : ℕ) (s : Timer Event)
      → s.paused ≡ false
      → due s.trigger_event ≡ none
      → 0 < s.load_delay
      → now + s.load_delay < 2 ^ 64
      → (t : Timer Event) × (start k now 0 s ≡ done t)
        × (t.trigger_time ≡ now + s.load_delay)
        × (due t.trigger_event ≡ some (now + s.load_delay))
        × IsSynced t
        × (is_running k now 0 t ≡ true)
  unfolding start is_running
  start_arms now s runs clear loaded fits = (
    record s {
      start_time = now;
      trigger_time = now + s.load_delay;
      trigger_event = notify now s.load_delay s.trigger_event;
    },
    ground arith,
    refl,
    due-notify_idle now s.load_delay s.trigger_event clear,
    ground (arith, due-notify_idle now s.load_delay s.trigger_event clear),
    ground arith,
  )

  pub stop-IsSynced : (s : Timer Event) → IsSynced (stop k s)
  unfolding stop
  stop-IsSynced s = ground (arith, due-cancel s.trigger_event)

  -- A timer that is not paused, is paused before its trigger time and resumed later, both without
  -- an annotated delay, is set and notified to trigger as much later as it was paused, if that time
  -- is below 2^64; in between it is not armed and does not run, and the time left when it is
  -- resumed is what it was at the pause.
  pub pause-resume :
      (at_pause at_resume : ℕ) (s : Timer Event)
      → s.paused ≡ false
      → at_pause < s.trigger_time
      → at_pause ≤ at_resume
      → s.trigger_time + (at_resume - at_pause) < 2 ^ 64
      → let p = pause k at_pause 0 s in
        let later = s.trigger_time + (at_resume - at_pause) in
        (due p.trigger_event ≡ none)
        × (is_running k at_pause 0 p ≡ false)
        × (t : Timer Event) × (resume k at_resume 0 p ≡ done t)
        × (t.trigger_time ≡ later)
        × (due t.trigger_event ≡ some later)
        × (get_time_left k at_resume 0 t ≡ get_time_left k at_pause 0 s)
  unfolding pause resume is_running
  pause-resume at_pause at_resume s runs before order fits =
      let left = s.trigger_time - at_pause in
      (
        due-cancel s.trigger_event,
        ground arith,
        record s {
          paused = false;
          trigger_time = s.trigger_time + (at_resume - at_pause);
          start_time = sub_u64 (s.trigger_time + (at_resume - at_pause)) s.load_delay;
          trigger_event = notify at_resume left (cancel s.trigger_event);
          resume_delay = 0;
        },
        ground arith,
        refl,
        ground (
          arith,
          due-notify_idle at_resume left (cancel s.trigger_event) (due-cancel s.trigger_event),
        ),
        ground arith,
      )
