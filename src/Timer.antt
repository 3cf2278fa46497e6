-- ===== src/Timer.antt =====
-- timer/timer_beh.hpp and timer/timer_beh.cpp: the class `Timer`. Times are 64-bit words; the current
-- time is an argument of each call. `reset` clears the pulse delay too.
pub mod Laws
pub mod Period
pub mod Faults
use sc_platform.Prelude.{
  ℕ, zero, suc, ◌+◌, Bool, true, false, not, ◌&&◌, ◌||◌, ltb, ◌==◌, if◌then◌else◌, Outcome, done,
  ◌>>=◌, ◌>>◌, require,
}
use sc_platform.Common.{u64, sub_u64}
use sc_platform.Kernel.{EventKernel}

pub record Timer (Event : Type 0) : Type 0 where
  pub load_delay : ℕ
  pub start_time : ℕ
  pub pulse_delay : ℕ
  pub resume_delay : ℕ
  pub trigger_time : ℕ
  pub triggered : Bool
  pub reload : Bool
  pub continuous : Bool
  pub paused : Bool
  pub trigger_event : Event
  pub pulse_event : Event

module _ (k : EventKernel) where
  open k use {Event, notify, cancel, fired}

  abbrev pub curr_time : ℕ → ℕ → ℕ
  curr_time now delay = u64 (now + delay)

  unfoldable pub resume : ℕ → ℕ → Timer Event → Outcome (Timer Event)
  resume now delay s = do
    require s.paused
    require (not (s.resume_delay == 0))
    let trigger = u64 (curr_time now delay + s.resume_delay)
    done (record s {
      paused = false;
      trigger_time = trigger;
      start_time = sub_u64 trigger s.load_delay;
      trigger_event = notify now (u64 (s.resume_delay + delay)) s.trigger_event;
      resume_delay = 0;
    })

  begin : ℕ → ℕ → Timer Event → Outcome (Timer Event)
  begin now delay s = do
    require (ltb 0 s.load_delay)
    done (record s {
      start_time = curr_time now delay;
      trigger_time = u64 (curr_time now delay + s.load_delay);
      trigger_event = notify now (u64 (s.load_delay + delay)) s.trigger_event;
    })

  -- A paused timer is resumed, without the delay.
  unfoldable pub start : ℕ → ℕ → Timer Event → Outcome (Timer Event)
  unfolding resume begin
  start now delay s = if s.paused then resume now 0 s else begin now delay s

  unfoldable pub stop : Timer Event → Timer Event
  stop s = record s {
    trigger_event = cancel s.trigger_event;
    trigger_time = 0;
    paused = false;
    resume_delay = 0;
  }

  unfoldable pub pause : ℕ → ℕ → Timer Event → Timer Event
  pause now delay s = record s {
    paused = true;
    trigger_event = cancel s.trigger_event;
    resume_delay = sub_u64 s.trigger_time (curr_time now delay);
  }

  unfoldable pub get_time_left : ℕ → ℕ → Timer Event → ℕ
  get_time_left now delay s =
      if ltb (curr_time now delay) s.trigger_time
      then sub_u64 s.trigger_time (curr_time now delay)
      else 0

  unfoldable pub get_time_since : ℕ → ℕ → Timer Event → ℕ
  get_time_since now delay s =
      if ltb 0 s.start_time && ltb s.start_time (curr_time now delay)
      then sub_u64 (curr_time now delay) s.start_time
      else 0

  unfoldable pub is_running : ℕ → ℕ → Timer Event → Bool
  unfolding get_time_left
  is_running now delay s =
      (not s.paused && not (s.trigger_time == 0))
      && (ltb 0 (get_time_left now delay s) || s.continuous)

  -- `m_pulse_event.notify`, where there is a pulse.
  pulse : ℕ → Timer Event → Timer Event
  pulse now s =
      if ltb 0 s.pulse_delay
      then record s { pulse_event = notify now s.pulse_delay s.pulse_event }
      else s

  rearm : ℕ → Timer Event → Outcome (Timer Event)
  rearm now s =
      if s.continuous
      then (do
        require (ltb 0 s.load_delay)
        done (record s {
          trigger_time = u64 (now + s.load_delay);
          trigger_event = notify now s.load_delay s.trigger_event;
        }))
      else done (record s { trigger_time = 0 })

  -- One round of `trigger_thread`, from the trigger event at the time `now` to the next wait.
  unfoldable pub trigger_thread : ℕ → Timer Event → Outcome (Timer Event)
  unfolding pulse rearm
  trigger_thread now s0 =
      let s = record s0 { trigger_event = fired s0.trigger_event } in
      if s.paused || s.trigger_time == 0 then done s else (do
        require (s.trigger_time == now)
        let s' = pulse now (record s { triggered = true })
        rearm now
            (if s'.reload && not (s'.load_delay == 0) then record s' { start_time = now } else s'))

  -- `n` rounds, each at the time the timer is set to trigger.
  unfoldable pub rounds : ℕ → Timer Event → Outcome (Timer Event)
  rounds zero s = done s
  rounds (suc n) s = do s' ← trigger_thread s.trigger_time s; rounds n s'

  -- The flag as it was, and the timer with the flag cleared.
  unfoldable pub test_and_clear_triggered : Timer Event → Bool × Timer Event
  test_and_clear_triggered s = (s.triggered, record s { triggered = false })

  unfoldable pub reset : Timer Event → Timer Event
  reset s = record {
    load_delay = 0;
    start_time = 0;
    pulse_delay = 0;
    resume_delay = 0;
    trigger_time = 0;
    triggered = false;
    reload = false;
    continuous = false;
    paused = false;
    trigger_event = cancel s.trigger_event;
    pulse_event = cancel s.pulse_event;
  }
