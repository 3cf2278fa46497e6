-- ===== src/TimerModule/Thread.antt =====
-- `Timer_module::timer_thread` of timer/timer.cpp: what follows when the trigger event of any timer has
-- woken it.
use sc_platform.Prelude.{
  ℕ, zero, suc, ◌+◌, ◌^◌, bit_or, Bool, true, false, not, List, [], ◌∷◌, ◌==◌, if◌then◌else◌,
  Outcome, done, ◌>>=◌,
}
use sc_platform.Timer.{test_and_clear_triggered}
use sc_platform.Kernel.{EventKernel}
use sc_platform.TimerModule.{TimerModule, enable_bit, status_reg, reg, put, timer_at, with_timer}
use sc_platform.Pic.{bit}

module _ {Event : Type 0} where
  unfoldable pub irq_enabled : ℕ → TimerModule Event → Outcome Bool
  unfolding reg
  irq_enabled index s = do status ← reg index status_reg s; done (bit enable_bit status)

  -- The interrupt, if one port is bound: the loop's only round is that of timer 0. The module after it,
  -- and whether the port was notified. `TIMER_IRQ( 0 )` is bit 16.
  unfoldable pub interrupt_round : ℕ → TimerModule Event → Outcome (TimerModule Event × Bool)
  unfolding irq_enabled reg put timer_at
  interrupt_round ports s = if not (ports == 1) then done (s, false) else (do
    t ← timer_at 0 s
    enabled ← (if t.triggered then irq_enabled 0 s else done false)
    (if not enabled then done (s, false) else (do
      status ← reg 0 status_reg s
      s' ← put 0 status_reg (bit_or status (2 ^ 16)) s
      done (s', true))))

module _ (k : EventKernel) where
  open k use {Event}

  -- The pulses of the ports from number `i` on: the module, and the ports that a process is spawned
  -- for.
  unfoldable pub pulse_ports : ℕ → ℕ → TimerModule Event → Outcome (TimerModule Event × List ℕ)
  unfolding timer_at test_and_clear_triggered
  pulse_ports i zero s = done (s, [])
  pulse_ports i (suc n) s = do
    t ← timer_at i s
    let r = test_and_clear_triggered k t
    rest ← pulse_ports (i + 1) n (with_timer i r.1 s)
    done (rest.0, if r.0 then i ∷ rest.1 else rest.1)

  -- One round: the module, whether the interrupt port was notified, and the pulses.
  unfoldable pub timer_thread :
      ℕ → ℕ → TimerModule Event → Outcome (TimerModule Event × Bool × List ℕ)
  unfolding interrupt_round pulse_ports
  timer_thread intrq_ports pulse_port_count s = do
    r ← interrupt_round intrq_ports s
    p ← pulse_ports 0 pulse_port_count r.0
    done (p.0, r.1, p.1)
