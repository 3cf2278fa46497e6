-- ===== src/TimerModule.antt =====
-- timer/timer.hpp, timer/timer.cpp and timer/timer_reg.h: `Timer_module`, a bank of timers behind
-- memory-mapped registers, and the status word through which its timers are controlled. The timers are
-- those of `Timer`; the registers are the bytes of 32-bit words.
pub mod Actions
pub mod Transport
pub mod Nonblocking
pub mod Thread
pub mod Access
pub mod Bounds
pub mod Safety
pub mod Control
pub mod Starting
use sc_platform.Prelude.{
  ℕ, ◌+◌, ◌-◌, ◌*◌, ◌/◌, ◌%◌, ◌^◌, not, ◌&&◌, List, ltb, leb, if◌then◌else◌, get_elem?, set,
  Outcome, done, ◌>>=◌, ◌>>◌, require, defined,
}
use sc_platform.Common.{u32}
use sc_platform.Kernel.{EventKernel}
use sc_platform.Timer.{Timer, is_running, start, stop, pause, resume}
use sc_platform.Pic.{load, store, bit, flag}

pub record TimerModule (Event : Type 0) : Type 0 where
  pub quantity : ℕ
  pub registers : List ℕ
  pub timers : List (Timer Event)

abbrev pub bank_size : ℕ
bank_size = 32

abbrev pub status_reg : ℕ
status_reg = 0

abbrev pub ctrlset_reg : ℕ
ctrlset_reg = 4

abbrev pub ctrlclr_reg : ℕ
ctrlclr_reg = 8

abbrev pub load_lo_reg : ℕ
load_lo_reg = 12

abbrev pub load_hi_reg : ℕ
load_hi_reg = 16

abbrev pub curr_lo_reg : ℕ
curr_lo_reg = 20

abbrev pub curr_hi_reg : ℕ
curr_hi_reg = 24

abbrev pub pulse_reg : ℕ
pulse_reg = 28

-- The bits of the status word: RELOAD, CONTINUOUS, START, IRQ_ENABLE and NORMAL.
abbrev pub reload_bit : ℕ
reload_bit = 15

abbrev pub continuous_bit : ℕ
continuous_bit = 14

abbrev pub start_bit : ℕ
start_bit = 13

abbrev pub enable_bit : ℕ
enable_bit = 12

abbrev pub normal_bit : ℕ
normal_bit = 11

-- `scale`: the field of four bits, plus one.
unfoldable pub scale : ℕ → ℕ
scale status = status / 2 ^ 4 % 2 ^ 4 + 1

-- A word without the field QTY, its low four bits.
abbrev pub without_qty : ℕ → ℕ
without_qty v = v - v % 2 ^ 4

module _ {Event : Type 0} where
  -- A register of `timer_reg_vec( index )`, read and written.
  unfoldable pub reg : ℕ → ℕ → TimerModule Event → Outcome ℕ
  unfolding load
  reg index offset s = do
    require (ltb index s.quantity)
    load (index * bank_size + offset) s.registers

  unfoldable pub put : ℕ → ℕ → ℕ → TimerModule Event → Outcome (TimerModule Event)
  unfolding store
  put index offset v s = do
    require (ltb index s.quantity)
    regs ← store (index * bank_size + offset) v s.registers
    done (record s { registers = regs })

  unfoldable pub timer_at : ℕ → TimerModule Event → Outcome (Timer Event)
  timer_at index s = defined (get_elem? s.timers index)

  abbrev pub with_timer : ℕ → Timer Event → TimerModule Event → TimerModule Event
  with_timer index t s = record s { timers = set s.timers index t }

module _ (k : EventKernel) where
  open k use {Event}

  -- The fields of the word do not overlap, so that their sum is their disjunction.
  unfoldable pub status_word : ℕ → ℕ → ℕ → Timer Event → ℕ
  unfolding is_running
  status_word now quantity old t =
      quantity
      + old / 2 ^ 4 % 2 ^ 4 * 2 ^ 4
      + flag reload_bit t.reload
      + flag continuous_bit t.continuous
      + flag start_bit (is_running k now 0 t)
      + flag enable_bit (bit enable_bit old)
      + flag normal_bit (not t.paused)
      + old / 2 ^ 16 % 2 ^ 16 * 2 ^ 16

  unfoldable pub get_timer_status : ℕ → ℕ → TimerModule Event → Outcome ℕ
  unfolding reg timer_at status_word
  get_timer_status now index s = do
    require (leb (u32 s.quantity) 15)
    old ← reg index status_reg s
    t ← timer_at index s
    done (status_word now (u32 s.quantity) old t)

  -- What a status word does to a timer that is not running.
  unfoldable pub control_idle : ℕ → ℕ → ℕ → Timer Event → Outcome (Timer Event)
  unfolding start pause resume
  control_idle now delay status t = do
    t1 ← (if t.paused && bit normal_bit status then resume k now delay t else done t)
    t2 ← (if bit start_bit status then start k now delay t1 else done t1)
    done (if bit normal_bit status then t2 else pause k now delay t2)

  unfoldable pub with_modes : ℕ → Timer Event → Timer Event
  with_modes status t = record t {
    reload = bit reload_bit status;
    continuous = bit continuous_bit status;
  }

  -- START and NORMAL; `stop` does not use the delay.
  unfoldable pub control_run : ℕ → ℕ → ℕ → Timer Event → Outcome (Timer Event)
  unfolding control_idle is_running stop
  control_run now delay status t =
      if is_running k now 0 t
      then done (if bit start_bit status then t else stop k t)
      else control_idle now delay status t

  -- What a status word does to a timer.
  unfoldable pub control : ℕ → ℕ → ℕ → Timer Event → Outcome (Timer Event)
  unfolding with_modes control_run
  control now delay status t = control_run now delay status (with_modes status t)

  unfoldable pub set_timer_status : ℕ → ℕ → ℕ → TimerModule Event → Outcome (TimerModule Event)
  unfolding reg put timer_at control
  set_timer_status now delay index s = do
    status ← reg index status_reg s
    s' ← put index status_reg (without_qty status) s
    t ← timer_at index s'
    t' ← control now delay (without_qty status) t
    done (with_timer index t' s')
