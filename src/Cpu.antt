-- ===== src/Cpu.antt =====
-- cpu/cpu.hpp and cpu/cpu.cpp: the state of `Cpu_module`, its statistics and its debug transport. The tasks that run on
-- it are other code. Reports below FATAL are left out.
pub mod Dmi
pub mod Loosely
pub mod Approximately
pub mod Words
pub mod Summary
pub mod Platform
pub mod Waiting
use sc_platform.Prelude.{
  ℕ, zero, suc, ◌+◌, ◌-◌, ◌*◌, ◌/◌, ◌%◌, ◌^◌, ◌≤◌, ◌<◌, min, max, bit_and, bit_or, bit_xor, ◌≡◌,
  refl, sym, ap, ap₂, ◌∙◌, ◌≢◌, ◌↔◌, ◌⊎◌, inl, inr, Bool, true, false, not, ◌&&◌, ◌||◌, Option,
  none, some, List, [], ◌∷◌, ◌++◌, map, arith, ltb, leb, ◌==◌, if◌then◌else◌, Bool-cases,
  Option-cases, ==_iff, length, get_elem?, set, take, drop, replicate, slice, overwrite, resize,
  length-overwrite, length-resize, length-slice, slice-overwrite, get_elem?-overwrite_below,
  get_elem?-overwrite_above, get_elem?-resize, length-append, length-take, length-drop,
  length-replicate, length-set, get_elem?-set_self, get_elem?-set_ne, take-append, drop-append,
  get_elem?-lt, get_elem?-ge, All, Among, All-Among, Outcome, done, aborted, undefined, ◌>>=◌, ◌>>◌,
  require, defined, >>=-eq-done, IsDefined, >>=-IsDefined, require-IsDefined, if-IsDefined,
  IsDefined-cases, Ensures, >>=-Ensures, if-Ensures, Ensures-done, require-Ensures, Ensures-map,
}
use sc_platform.Common.{
  Payload, Command, read, write, ignore, Style, default, lt, at, incomplete_response, max_addr, u64,
  u32,
}

-- `m_stat`, with a field for each of its keys.
pub record Statistics : Type 0 where
  pub reads : ℕ
  pub bytes_read : ℕ
  pub writes : ℕ
  pub bytes_written : ℕ
  pub others : ℕ
  pub other_bytes : ℕ
  pub lt_style : ℕ
  pub at_style : ℕ
  pub other_style : ℕ
  pub highest : ℕ
  pub lowest : ℕ

abbrev pub no_statistics : Statistics
no_statistics = record {
  reads = 0;
  bytes_read = 0;
  writes = 0;
  bytes_written = 0;
  others = 0;
  other_bytes = 0;
  lt_style = 0;
  at_style = 0;
  other_style = 0;
  highest = 0;
  lowest = 0;
}

unfoldable pub start_of_simulation : Statistics → Statistics
start_of_simulation s = record s { lowest = max_addr }

count_command : Command → ℕ → Statistics → Statistics
count_command read len s = record s {
  reads = u64 (s.reads + 1);
  bytes_read = u64 (s.bytes_read + len);
}
count_command write len s = record s {
  writes = u64 (s.writes + 1);
  bytes_written = u64 (s.bytes_written + len);
}
count_command ignore len s = record s {
  others = u64 (s.others + 1);
  other_bytes = u64 (s.other_bytes + len);
}

count_style : Style → Statistics → Statistics
count_style lt s = record s { lt_style = u64 (s.lt_style + 1) }
count_style at s = record s { at_style = u64 (s.at_style + 1) }
count_style _ s = record s { other_style = u64 (s.other_style + 1) }

note_range : ℕ → ℕ → Statistics → Statistics
note_range address end s = record s {
  highest = if ltb s.highest end then end else s.highest;
  lowest = if ltb address s.lowest then address else s.lowest;
}

unfoldable pub record_transaction : Command → ℕ → ℕ → Style → Statistics → Statistics
unfolding count_command count_style note_range
record_transaction command address len style s =
    note_range address (u64 (address + len)) (count_style style (count_command command len s))

-- What `allocate_acquire_and_set` and `transport_dbg` make of a transaction; the streaming width is the length.
abbrev pub transaction : Command → ℕ → List ℕ → ℕ → Payload
transaction command address bytes len = record {
  command = command;
  address = address;
  bytes = some bytes;
  data_length = len;
  streaming_width = len;
  byte_enabled = false;
  response = incomplete_response;
}

-- `target` is the debug call of the module bound to `init_socket`; a shorter transfer is only reported.
unfoldable pub transport_dbg : (Payload → Outcome Payload) → Command → ℕ → List ℕ → Outcome Payload
transport_dbg target command address vec =
    target (transaction command address vec (u32 (length vec)))

unfoldable pub put : (Payload → Outcome Payload) → ℕ → List ℕ → Outcome Payload
unfolding transport_dbg
put target address vec = do require (ltb 0 (length vec)); transport_dbg target write address vec

unfoldable pub get : (Payload → Outcome Payload) → ℕ → ℕ → List ℕ → Outcome Payload
unfolding transport_dbg resize
get target address depth vec = do
  require (ltb 0 depth)
  transport_dbg target read address (resize depth 0 vec)
