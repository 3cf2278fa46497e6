-- ===== src/Tests/Timers.antt =====
-- The timer of timer/timer_beh.cpp on a kernel whose event is its pending notification.
use sc_platform.Prelude.{ℕ, ◌+◌, min, ◌≡◌, refl, Bool, true, false, Option, none, some, arith, done}
use sc_platform.Kernel.{EventKernel}
use sc_platform.Timer.{Timer, pause, resume, get_time_left, is_running, rounds}
use sc_platform.Timer.Laws.{pause-resume}
use sc_platform.Timer.Period.{rounds_periodic}

abbrev earliest : ℕ → Option ℕ → Option ℕ
earliest t none = some t
earliest t (some u) = some (min u t)

abbrev pub kernel : EventKernel
kernel = record {
  Event = Option ℕ;
  due = λ e. e;
  notify = λ now delay e. earliest (now + delay) e;
  cancel = λ e. none;
  fired = λ e. none;
  due-cancel = λ e. refl;
  due-fired = λ e. refl;
  due-notify_idle = λ now delay e h. rw h refl;
  due-notify_pending = λ now delay t e h. rw h refl;
}

-- A timer with a load of 10, stopped.
abbrev pub stopped : Bool → Timer (Option ℕ)
stopped continuous = record {
  load_delay = 10;
  start_time = 0;
  pulse_delay = 1;
  resume_delay = 0;
  trigger_time = 0;
  triggered = false;
  reload = true;
  continuous = continuous;
  paused = false;
  trigger_event = none;
  pulse_event = none;
}

-- The same, armed for the time 20.
abbrev pub armed : Bool → Timer (Option ℕ)
armed continuous = record (stopped continuous) {
  start_time = 10;
  trigger_time = 20;
  trigger_event = some 20;
}

pause-resume_example :
    let p = pause kernel 15 0 (armed false) in
    (p.trigger_event ≡ none)
    × (is_running kernel 15 0 p ≡ false)
    × (t : Timer (Option ℕ)) × (resume kernel 26 0 p ≡ done t)
    × (t.trigger_time ≡ 31)
    × (t.trigger_event ≡ some 31)
    × (get_time_left kernel 26 0 t ≡ get_time_left kernel 15 0 (armed false))
pause-resume_example =
    pause-resume kernel 15 26 (armed false) refl (omega arith) (omega arith) (omega arith)

rounds_periodic_example :
    (t : Timer (Option ℕ)) × (rounds kernel 3 (armed true) ≡ done t)
    × (t.trigger_time ≡ 50)
    × (t.trigger_event ≡ some t.trigger_time)
    × (t.triggered ≡ true)
rounds_periodic_example =
    rounds_periodic kernel 3 (armed true) refl (λ e. omega arith) refl (omega arith) refl
      (omega arith)
