-- ===== src/TimerModule/Starting.antt =====
-- How a timer that the status word of timer/timer.cpp starts goes on in timer/timer_beh.cpp.
use sc_platform.Prelude.{
  ℕ, ◌+◌, ◌^◌, ◌<◌, ◌≡◌, refl, sym, ap, ap₂, ◌∙◌, Bool, true, false, none, some, arith,
  if◌then◌else◌, done,
}
use sc_platform.Kernel.{EventKernel}
use sc_platform.Timer.{Timer, start, is_running, trigger_thread}
use sc_platform.Timer.Period.{round_continuous, trigger_thread_one_shot}
use sc_platform.Pic.{bit}
use sc_platform.TimerModule.{
  normal_bit, start_bit, reload_bit, continuous_bit, control, with_modes, control_run,
}

module _ (k : EventKernel) where
  open k use {Event, due, notify, cancel, fired, due-notify_idle}

  -- A timer that neither is paused nor has a trigger time or a pending notification.
  pub record IsIdle (t : Timer Event) : Type 0 where
    pub runs_on : t.paused ≡ false
    pub unset : t.trigger_time ≡ 0
    pub quiet : due t.trigger_event ≡ none

  control_arms :
      (now delay status : ℕ) (t : Timer Event)
      → bit start_bit status ≡ true
      → bit normal_bit status ≡ true
      → IsIdle t
      → 0 < t.load_delay
      → now + delay + t.load_delay < 2 ^ 64
      → (t' : Timer Event) × (control k now delay status t ≡ done t')
        × (t'.paused ≡ false)
        × (t'.reload ≡ bit reload_bit status)
        × (t'.continuous ≡ bit continuous_bit status)
        × (t'.load_delay ≡ t.load_delay)
        × (t'.trigger_time ≡ now + delay + t.load_delay)
        × (due t'.trigger_event ≡ some (now + delay + t.load_delay))
        × (is_running k now delay t' ≡ true)
  unfolding control with_modes control_run is_running start
  control_arms now delay status t starts normal idle loaded fits = (
    record t {
      reload = bit reload_bit status;
      continuous = bit continuous_bit status;
      start_time = now + delay;
      trigger_time = now + delay + t.load_delay;
      trigger_event = notify now (t.load_delay + delay) t.trigger_event;
    },
    (let p = idle.runs_on in let z = idle.unset in ground arith),
    idle.runs_on,
    refl,
    refl,
    refl,
    refl,
    due-notify_idle now (t.load_delay + delay) t.trigger_event idle.quiet ∙ ap some (omega arith),
    (let p = idle.runs_on in ground arith),
  )

  -- The round at the trigger time.
  first_round :
      (s : Timer Event) (goes_on : Bool)
      → s.paused ≡ false
      → s.continuous ≡ goes_on
      → 0 < s.load_delay
      → 0 < s.trigger_time
      → s.trigger_time + s.load_delay < 2 ^ 64
      → (u : Timer Event) × (trigger_thread k s.trigger_time s ≡ done u)
        × (u.triggered ≡ true)
        × (is_running k s.trigger_time 0 u ≡ goes_on)
        × (due u.trigger_event ≡ (if goes_on then some (s.trigger_time + s.load_delay) else none))
  unfolding is_running
  first_round s true runs mode loaded armed fits =
      let (u, step, set, runs', on', load, time, pending) =
        round_continuous k s runs (λ z. omega arith) mode loaded fits in
      (u, step, set, ground arith, pending)
  first_round s false runs mode loaded armed fits =
      let (u, step, set, stands, none_left) =
        trigger_thread_one_shot k s runs (λ z. omega arith) mode in
      (u, step, set, stands, none_left)

  -- A timer that neither is paused nor has a trigger time or a pending notification, and has a load, is written a
  -- status word with START and NORMAL, with an annotated delay: if the time, the delay and twice the load have a
  -- sum below 2^64, the timer runs, with RELOAD and CONTINUOUS as the word has them, and is notified for the time
  -- that is the delay and the load later. The round at that time does not abort and triggers; after it the timer
  -- runs, and is notified for one load later, if the word has CONTINUOUS, and else neither.
  pub control-trigger_thread :
      (now delay status : ℕ) (t : Timer Event)
      → bit start_bit status ≡ true
      → bit normal_bit status ≡ true
      → IsIdle t
      → 0 < t.load_delay
      → now + delay + t.load_delay + t.load_delay < 2 ^ 64
      → let time = now + delay + t.load_delay in
        let goes_on = bit continuous_bit status in
        (t' u : Timer Event) × (control k now delay status t ≡ done t')
        × (is_running k now delay t' ≡ true)
        × (t'.reload ≡ bit reload_bit status)
        × (t'.continuous ≡ goes_on)
        × (due t'.trigger_event ≡ some time)
        × (trigger_thread k time t' ≡ done u)
        × (u.triggered ≡ true)
        × (is_running k time 0 u ≡ goes_on)
        × (due u.trigger_event ≡ (if goes_on then some (time + t.load_delay) else none))
  control-trigger_thread now delay status t starts normal idle loaded fits =
      let (t', told, runs, reload, modes, load, at_time, pending, on) =
        control_arms now delay status t starts normal idle loaded (omega arith) in
      let (u, step, set, stays, next) =
        first_round t' (bit continuous_bit status) runs modes (omega (arith, load))
          (omega (arith, at_time)) (omega (arith, at_time, load)) in
      let goes_on = bit continuous_bit status in
      (
        t',
        u,
        told,
        on,
        reload,
        modes,
        pending,
        ap (λ x. trigger_thread k x t') (sym at_time) ∙ step,
        set,
        ap (λ x. is_running k x 0 u) (sym at_time) ∙ stays,
        next ∙ ap₂ (λ x l. if goes_on then some (x + l) else none) at_time load,
      )
