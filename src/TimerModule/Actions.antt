-- ===== src/TimerModule/Actions.antt =====
-- `Timer_module::write_actions` and `Timer_module::read_actions` of timer/timer.cpp. The module's clock
-- gives the time of a number of cycles, and times are divided as `double`.
use sc_platform.Prelude.{
  ℕ, ◌+◌, ◌-◌, ◌*◌, ◌/◌, ◌^◌, bit_and, bit_or, ◌||◌, ltb, ◌==◌, if◌then◌else◌, Outcome, done, ◌>>=◌,
  ◌>>◌, require,
}
use sc_platform.Common.{u32, u64, sub_u64}
use sc_platform.Kernel.{EventKernel, TimeArithmetic}
use sc_platform.Timer.{curr_time}
use sc_platform.TimerModule.{
  TimerModule, bank_size, status_reg, ctrlset_reg, ctrlclr_reg, load_lo_reg, load_hi_reg,
  curr_lo_reg, curr_hi_reg, scale, without_qty, reg, put, timer_at, with_timer, get_timer_status,
  set_timer_status,
}

-- The bank of an address, an unsigned int, and the register within it.
abbrev pub bank : ℕ → ℕ
bank address = u32 (address / bank_size)

abbrev pub offset_in_bank : ℕ → ℕ
offset_in_bank address = sub_u64 address (u32 (bank address * bank_size))

module _ (k : EventKernel) (w : TimeArithmetic) (period : ℕ) where
  open k use {Event}
  open w use {times, quotient}

  unfoldable pub load_of : ℕ → ℕ → ℕ
  load_of hi lo = u64 (hi * 2 ^ 32 + lo)

  unfoldable pub set_load : ℕ → ℕ → TimerModule Event → Outcome (TimerModule Event)
  unfolding timer_at
  set_load index cycles s = do
    t ← timer_at index s
    done (with_timer index (record t { load_delay = times cycles period }) s)

  unfoldable pub write_ctrlset : ℕ → ℕ → ℕ → TimerModule Event → Outcome (TimerModule Event)
  unfolding get_timer_status set_timer_status reg put
  write_ctrlset now delay index s = do
    status ← get_timer_status k now index s
    bits ← reg index ctrlset_reg s
    s' ← put index status_reg (bit_or status (without_qty bits)) s
    set_timer_status k now delay index s'

  -- The source takes the bits to clear from the register CTRLSET.
  unfoldable pub write_ctrlclr : ℕ → ℕ → ℕ → TimerModule Event → Outcome (TimerModule Event)
  unfolding get_timer_status set_timer_status reg put
  write_ctrlclr now delay index s = do
    status ← get_timer_status k now index s
    bits ← reg index ctrlset_reg s
    s' ← put index status_reg (bit_and status (2 ^ 32 - 1 - without_qty bits)) s
    set_timer_status k now delay index s'

  -- The product of two 32-bit words is one too.
  unfoldable pub write_load_lo : ℕ → TimerModule Event → Outcome (TimerModule Event)
  unfolding reg put set_load scale
  write_load_lo index s0 = do
    s ← put index load_hi_reg 0 s0
    status ← reg index status_reg s
    lo ← reg index load_lo_reg s
    set_load index (u32 (scale status * lo)) s

  unfoldable pub write_load_hi : ℕ → TimerModule Event → Outcome (TimerModule Event)
  unfolding reg set_load scale load_of
  write_load_hi index s = do
    status ← reg index status_reg s
    hi ← reg index load_hi_reg s
    lo ← reg index load_lo_reg s
    set_load index (u64 (scale status * load_of hi lo)) s

  unfoldable pub write_word : ℕ → ℕ → ℕ → ℕ → TimerModule Event → Outcome (TimerModule Event)
  unfolding set_timer_status write_ctrlset write_ctrlclr write_load_lo write_load_hi put
  write_word now delay index offset s =
      if offset == status_reg
      then set_timer_status k now delay index s
      else if offset == ctrlset_reg
      then write_ctrlset now delay index s
      else if offset == ctrlclr_reg
      then write_ctrlclr now delay index s
      else if offset == load_lo_reg
      then write_load_lo index s
      else if offset == load_hi_reg
      then write_load_hi index s
      else if offset == curr_lo_reg
      then put index curr_hi_reg 0 s
      else done s

  -- A double word: the load without the scale, and the current count, which sets the load too.
  unfoldable pub write_double : ℕ → ℕ → TimerModule Event → Outcome (TimerModule Event)
  unfolding reg set_load load_of
  write_double index offset s =
      if offset == load_lo_reg
      then (do
        hi ← reg index load_hi_reg s
        lo ← reg index load_lo_reg s
        set_load index (load_of hi lo) s)
      else if offset == curr_lo_reg
      then (do
        hi ← reg index curr_hi_reg s
        lo ← reg index curr_lo_reg s
        set_load index (load_of hi lo) s)
      else done s

  unfoldable pub write_actions : ℕ → ℕ → ℕ → ℕ → TimerModule Event → Outcome (TimerModule Event)
  unfolding timer_at write_word write_double
  write_actions now delay address len s = do
    require (ltb (bank address) s.quantity)
    _ ← timer_at (bank address) s
    (if address == u64 (s.quantity * bank_size)
        then done s
        else if len == 4
        then write_word now delay (bank address) (offset_in_bank address) s
        else (do require (len == 8); write_double (bank address) (offset_in_bank address) s))

  -- The cycles of the timer's scale since its start, which must be in the past.
  unfoldable pub curr_count : ℕ → ℕ → ℕ → TimerModule Event → Outcome ℕ
  unfolding timer_at reg scale
  curr_count now delay index s = do
    t ← timer_at index s
    require (ltb t.start_time (curr_time k now delay))
    status ← reg index status_reg s
    done (quotient (sub_u64 (curr_time k now delay) t.start_time) (times (scale status) period))

  unfoldable pub read_word : ℕ → ℕ → ℕ → ℕ → TimerModule Event → Outcome (TimerModule Event)
  unfolding get_timer_status put curr_count
  read_word now delay index offset s =
      if offset == status_reg || offset == ctrlset_reg || offset == ctrlclr_reg
      then (do status ← get_timer_status k now index s; put index status_reg status s)
      else if offset == curr_lo_reg
      then (do n ← curr_count now delay index s; put index curr_lo_reg (u32 n) s)
      else if offset == curr_hi_reg
      then (do n ← curr_count now delay index s; put index curr_hi_reg (u32 (n / 2 ^ 32)) s)
      else done s

  unfoldable pub read_double : ℕ → ℕ → ℕ → ℕ → TimerModule Event → Outcome (TimerModule Event)
  unfolding put curr_count
  read_double now delay index offset s =
      if offset == curr_lo_reg
      then (do
        n ← curr_count now delay index s
        s' ← put index curr_hi_reg (u32 (n / 2 ^ 32)) s
        put index curr_lo_reg (u32 n) s')
      else done s

  unfoldable pub read_actions : ℕ → ℕ → ℕ → ℕ → TimerModule Event → Outcome (TimerModule Event)
  unfolding timer_at read_word read_double
  read_actions now delay address len s = do
    require (ltb (bank address) s.quantity)
    _ ← timer_at (bank address) s
    (if address == u64 (s.quantity * bank_size)
        then done s
        else if len == 4
        then read_word now delay (bank address) (offset_in_bank address) s
        else read_double now delay (bank address) (offset_in_bank address) s)
