-- ===== src/Tests/Banks.antt =====
-- A module of timer/timer.cpp with one timer, whose status word starts, keeps and restarts it.
use sc_platform.Prelude.{
  ℕ, ◌+◌, ◌^◌, ◌≡◌, refl, true, false, Option, none, some, List, [], ◌∷◌, arith, length, replicate,
  slice, overwrite, done, IsDefined,
}
use sc_platform.Common.{Payload, Command, read, write, incomplete_response, Style}
use sc_platform.Memory.{Env, truncate}
use sc_platform.Timer.{Timer, is_running, trigger_thread}
use sc_platform.TimerModule.{TimerModule, without_qty, status_word, control}
use sc_platform.Registers.{Configured, Handled, payload_error, transport_dbg}
use sc_platform.Registers.Laws.{IsWithin, written, transport_dbg-write-read}
use sc_platform.TimerModule.Transport.{call}
use sc_platform.TimerModule.Safety.{IsServed, call-IsDefined}
use sc_platform.TimerModule.Control.{control-status_word}
use sc_platform.TimerModule.Starting.{IsIdle, control-trigger_thread}
use sc_platform.Tests.Timers.{kernel, stopped, armed}
use sc_platform.Tests.Clocks.{exact}

abbrev env : Env
env = record { error_at_target = false; bus_width = 32; period = 10 }

abbrev device : Configured (TimerModule (Option ℕ))
device = record {
  configuration = record { data_map = []; dflt_map = []; reqd_key_set = [] };
  settings = record {
    target_size = 36;
    max_burst = 8;
    addr_clocks = 1;
    read_clocks = 2;
    write_clocks = 2;
  };
  bank = record { quantity = 1; registers = replicate 32 0; timers = stopped false ∷ [] };
}

-- The bits START and NORMAL of the status word.
abbrev start_word : List ℕ
start_word = 0 ∷ 40 ∷ 0 ∷ 0 ∷ []

abbrev payload : Payload
payload = record {
  command = write;
  address = 0;
  bytes = some start_word;
  data_length = 4;
  streaming_width = 4;
  byte_enabled = false;
  response = incomplete_response;
}

call-IsDefined_example :
    IsDefined (IsServed 1 start_word) (call kernel exact env 7 Style.lt device payload 0)
call-IsDefined_example =
    call-IsDefined kernel exact 1 env 7 Style.lt device payload 0 start_word
      (record { count = refl; banks = refl; all_timers = refl }) refl
      (record { holds = refl; long = omega arith; no_wrap = omega arith })

-- START, NORMAL and CONTINUOUS.
abbrev starting : ℕ
starting = 2 ^ 14 + 2 ^ 13 + 2 ^ 11

stopped-IsIdle : IsIdle kernel (stopped false)
stopped-IsIdle = record { runs_on = refl; unset = refl; quiet = refl }

control-trigger_thread_example :
    (t u : Timer (Option ℕ)) × (control kernel 5 30 starting (stopped false) ≡ done t)
    × (is_running kernel 5 30 t ≡ true)
    × (t.reload ≡ false)
    × (t.continuous ≡ true)
    × (t.trigger_event ≡ some 45)
    × (trigger_thread kernel 45 t ≡ done u)
    × (u.triggered ≡ true)
    × (is_running kernel 45 0 u ≡ true)
    × (u.trigger_event ≡ some 55)
control-trigger_thread_example =
    control-trigger_thread kernel 5 30 starting (stopped false) refl refl stopped-IsIdle
      (omega arith) (omega arith)

control-status_word_example :
    control kernel 15 0
      (without_qty (status_word kernel 15 1 (2 ^ 12 + 2 ^ 16) (armed false)))
      (armed false)
    ≡ done (armed false)
control-status_word_example =
    control-status_word kernel 15 0 1 (2 ^ 12 + 2 ^ 16) (armed false) (omega arith) refl

-- A timer that was to trigger at 20 and was paused at 15.
abbrev held : Timer (Option ℕ)
held = record (armed false) { paused = true; trigger_event = none; resume_delay = 5 }

-- The load register of the timer, by debug transport.
abbrev load_access : Command → List ℕ → Payload
load_access c bytes = record payload { command = c; address = 12; bytes = some bytes }

abbrev blank : List ℕ
blank = 0 ∷ 0 ∷ 0 ∷ 0 ∷ []

abbrev bytes_of : TimerModule (Option ℕ) → List ℕ
bytes_of s = s.registers

abbrev with_bytes : List ℕ → TimerModule (Option ℕ) → TimerModule (Option ℕ)
with_bytes bytes s = record s { registers = bytes }

load-IsWithin :
    (c : Command) (bytes : List ℕ)
    → length bytes ≡ 4
    → IsWithin bytes_of with_bytes (λ bs d. refl) device (load_access c bytes) bytes
load-IsWithin c bytes n = record {
  holds = refl;
  whole = unfold truncate in refl;
  fine = unfold payload_error in refl;
  inside = omega arith;
  long = omega (arith, n);
}

transport_dbg-write-read_example :
    (s t : Handled (TimerModule (Option ℕ))) × (transport_dbg bytes_of with_bytes env device
        (load_access write start_word)
        none
      ≡ done s)
    × (transport_dbg bytes_of with_bytes env s.device (load_access read blank) none ≡ done t)
    × (s.device
        ≡ written bytes_of with_bytes
            (λ bs d. refl)
            device
            (load_access write start_word)
            start_word)
    × (s.trans ≡ load_access write start_word)
    × (s.length ≡ 4)
    × (t.device ≡ s.device)
    × (t.trans ≡ load_access read (overwrite 0 (slice 0 4 start_word) blank))
    × (t.length ≡ 4)
    × (bytes_of t.device.bank ≡ overwrite 12 (slice 0 4 start_word) (bytes_of device.bank))
transport_dbg-write-read_example =
    transport_dbg-write-read bytes_of with_bytes (λ bs d. refl) env device
      (load_access write start_word) (load_access read blank) start_word blank
      (load-IsWithin write start_word refl) (load-IsWithin read blank refl) refl refl refl refl
