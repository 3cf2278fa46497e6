-- ===== src/TimerModule/Control.antt =====
-- What the status word of timer/timer.cpp does to a timer of timer/timer_beh.cpp.
use sc_platform.Prelude.{
  ℕ, ◌+◌, ◌-◌, ◌*◌, ◌/◌, ◌%◌, ◌^◌, ◌<◌, ◌≡◌, refl, sym, ap, ap₂, ◌∙◌, Bool, true, false, not, none,
  some, arith, Outcome, done, aborted,
}
use sc_platform.Common.{sub_u64, u64}
use sc_platform.Kernel.{EventKernel}
use sc_platform.Timer.{Timer, start, pause, resume, is_running, trigger_thread}
use sc_platform.Pic.{bit, flag}
use sc_platform.TimerModule.{
  enable_bit, normal_bit, start_bit, reload_bit, continuous_bit, without_qty, status_word, control,
  with_modes, control_run,
}

-- The flags of a sum of fields that do not overlap, after the low four bits are cleared.
flags_of :
    (quantity scale irq : ℕ) (reload continuous running enable normal : Bool)
    → quantity < 16
    → scale < 16
    → let v = without_qty (
        quantity
        + scale * 2 ^ 4
        + flag reload_bit reload
        + flag continuous_bit continuous
        + flag start_bit running
        + flag enable_bit enable
        + flag normal_bit normal
        + irq * 2 ^ 16) in
      (bit reload_bit v ≡ reload)
      × (bit continuous_bit v ≡ continuous)
      × (bit start_bit v ≡ running)
      × (bit normal_bit v ≡ normal)
flags_of quantity scale irq reload continuous running enable normal q c =
    (ground arith, ground arith, ground arith, ground arith)

module _ (k : EventKernel) where
  open k use {
    Event, due, notify, cancel, fired, due-cancel, due-fired, due-notify_idle, due-notify_pending,
  }

  -- The two modes set to what they are.
  modes_same :
      (v : ℕ) (t : Timer Event)
      → bit reload_bit v ≡ t.reload
      → bit continuous_bit v ≡ t.continuous
      → with_modes k v t ≡ t
  unfolding with_modes
  modes_same v t r c = rw (r, c) refl

  control_same :
      (now delay v : ℕ) (t : Timer Event)
      → t.paused ≡ false
      → bit start_bit v ≡ is_running k now 0 t
      → bit normal_bit v ≡ true
      → control_run k now delay v t ≡ done t
  unfolding control_run
  control_same now delay v t runs st n = ground (arith, st, n, runs)

  -- The word that the STATUS register reads as, written back, leaves a timer that is not paused as it is.
  pub control-status_word :
      (now delay quantity old : ℕ) (t : Timer Event)
      → quantity < 16
      → t.paused ≡ false
      → control k now delay (without_qty (status_word k now quantity old t)) t ≡ done t
  unfolding status_word control
  control-status_word now delay quantity old t small runs =
      let (r, c, st, n) =
        flags_of quantity (old / 2 ^ 4 % 2 ^ 4) (old / 2 ^ 16 % 2 ^ 16) t.reload t.continuous
          (is_running k now 0 t) (bit enable_bit old) (not t.paused) small (omega arith) in
      let v = without_qty (status_word k now quantity old t) in
      ap (control_run k now delay v) (modes_same v t r c)
      ∙ control_same now delay v t runs st (n ∙ rw runs refl)

  control_paused :
      (now v : ℕ) (t : Timer Event)
      → bit start_bit v ≡ is_running k now 0 t
      → bit normal_bit v ≡ false
      → t.paused ≡ true
      → t.trigger_time < now
      → now < 2 ^ 64
      → control_run k now 0 v t
        ≡ done (record t {
          trigger_event = cancel t.trigger_event;
          resume_delay = 2 ^ 64 - (now - t.trigger_time);
        })
  unfolding control_run is_running pause
  control_paused now v t st n stopped past fits =
      let paused_at : ℕ → Bool → Outcome (Timer Event) = λ d p.
        done (record t { paused = p; trigger_event = cancel t.trigger_event; resume_delay = d }) in
      let left : sub_u64 t.trigger_time (u64 (now + 0)) ≡ 2 ^ 64 - (now - t.trigger_time) =
        ground arith in
      let held : control_run k now 0 v t ≡ done (pause k now 0 t) =
        ground (arith, st, n, stopped) in
      held ∙ ap₂ paused_at left (sym stopped)

  -- The same for a timer that is paused takes the remaining time anew from the time of the write, as if it
  -- had run on: after the trigger time, it wraps around.
  pub control-status_word_paused :
      (now quantity old : ℕ) (t : Timer Event)
      → quantity < 16
      → t.paused ≡ true
      → t.trigger_time < now
      → now < 2 ^ 64
      → control k now 0 (without_qty (status_word k now quantity old t)) t
        ≡ done (record t {
          trigger_event = cancel t.trigger_event;
          resume_delay = 2 ^ 64 - (now - t.trigger_time);
        })
  unfolding status_word control
  control-status_word_paused now quantity old t small stopped past fits =
      let (r, c, st, n) =
        flags_of quantity (old / 2 ^ 4 % 2 ^ 4) (old / 2 ^ 16 % 2 ^ 16) t.reload t.continuous
          (is_running k now 0 t) (bit enable_bit old) (not t.paused) small (omega arith) in
      let v = without_qty (status_word k now quantity old t) in
      ap (control_run k now 0 v) (modes_same v t r c)
      ∙ control_paused now v t st (n ∙ rw stopped refl) stopped past fits

  -- A timer that is paused with some time left, shorter than its load, and is written a status word with
  -- both START and NORMAL, is notified for the time it had left but set to trigger one load later; the
  -- round at that notification aborts.
  pub control_restart_aborts :
      (now status : ℕ) (t : Timer Event)
      → bit start_bit status ≡ true
      → bit normal_bit status ≡ true
      → t.paused ≡ true
      → due t.trigger_event ≡ none
      → 0 < t.resume_delay
      → t.resume_delay < t.load_delay
      → now + t.load_delay < 2 ^ 64
      → (t' : Timer Event) × (control k now 0 status t ≡ done t')
        × (due t'.trigger_event ≡ some (now + t.resume_delay))
        × (t'.trigger_time ≡ now + t.load_delay)
        × (trigger_thread k (now + t.resume_delay) t' ≡ aborted)
  unfolding control with_modes control_run is_running resume start trigger_thread
  control_restart_aborts now status t starts normal stopped clear left shorter fits = (
    record t {
      reload = bit reload_bit status;
      continuous = bit continuous_bit status;
      paused = false;
      resume_delay = 0;
      start_time = now;
      trigger_time = now + t.load_delay;
      trigger_event = notify now t.load_delay (notify now t.resume_delay t.trigger_event);
    },
    ground arith,
    ground (
      arith,
      due-notify_pending now t.load_delay (now + t.resume_delay)
          (notify now t.resume_delay t.trigger_event)
          (due-notify_idle now t.resume_delay t.trigger_event clear),
    ),
    refl,
    ground arith,
  )

  -- A status word with START does not pause a timer that is running, whether it has NORMAL or not: only its modes change.
  pub control_running :
      (now delay status : ℕ) (t : Timer Event)
      → bit start_bit status ≡ true
      → is_running k now 0 t ≡ true
      → (t.continuous ≡ true → bit continuous_bit status ≡ true)
      → control k now delay status t
        ≡ done (record t { reload = bit reload_bit status; continuous = bit continuous_bit status })
  unfolding control with_modes control_run is_running
  control_running now delay status t starts runs keeps = ground arith
