-- ===== src/Tests/Cpus.antt =====
-- The processor of cpu/cpu.cpp on a bus of a ROM and a RAM, and its table of regions.
use sc_platform.Prelude.{
  ℕ, ◌≡◌, refl, inl, List, true, false, none, some, [], ◌∷◌, arith, done, aborted,
}
use sc_platform.Common.{read, write, lt, at}
use sc_platform.Bus.Route.{begin_req, end_req, accepted}
use sc_platform.Memory.{Memory, first_error}
use sc_platform.Memory.Safety.{IsValid}
use sc_platform.Memory.Contents.{IsServable}
use sc_platform.Cpu.Summary.{Transfer, record_all, record_all-summary}
use sc_platform.Cpu.{start_of_simulation, no_statistics, transaction}
use sc_platform.Cpu.Dmi.{Region, overlaps, invalidate_direct_mem_ptr}
use sc_platform.Cpu.Dmi.Invalidation.{invalidate-untouched, invalidate_spares}
use sc_platform.Cpu.Loosely.{Cpu, Moved, to_bytes, write_word, read_word}
use sc_platform.Cpu.Platform.{Memories, platform, read_word-write_word}
use sc_platform.Cpu.Approximately.{Initiator, wait_transport_done}
use sc_platform.Cpu.Waiting
use sc_platform.Handshake.{acquire, idle, targ_peq_cb}
use sc_platform.Handshake.Stall
use sc_platform.Cpu.Waiting.{sent, System, called, transport_never_returns}
use sc_platform.Tests.Buses.{ram}
use sc_platform.Tests.Memories.{env, memory}
use sc_platform.Tests.Routes.{bus, bus-IsReady}

abbrev region : ℕ → ℕ → ℕ → Region
region n start end = record {
  block = n;
  start_address = start;
  end_address = end;
  read_allowed = true;
  write_allowed = true;
  read_latency = 0;
  write_latency = 0;
}

-- Regions that end at 255, 511 and 1023.
abbrev low : Region
low = region 0 0 255

abbrev middle : Region
middle = region 1 256 511

abbrev high : Region
high = region 2 512 1023

invalidate-untouched_example :
    invalidate_direct_mem_ptr 300 400 (low ∷ middle ∷ high ∷ []) ≡ low ∷ high ∷ []
unfolding overlaps
invalidate-untouched_example =
    invalidate-untouched 300 400 (low ∷ middle ∷ high ∷ [])
      ((λ h. absurd (ground (arith, h))), ((λ h. refl), ((λ h. tt), tt)))

invalidate_spares_example :
    invalidate_direct_mem_ptr 300 1000 (low ∷ middle ∷ high ∷ [])
    ≡ low ∷ high ∷ invalidate_direct_mem_ptr 300 1000 []
unfolding overlaps
invalidate_spares_example = invalidate_spares 300 1000 (low ∷ []) middle high [] (refl, tt) refl

abbrev fresh : Memory
fresh = memory 4096 (1 ∷ 2 ∷ 3 ∷ 4 ∷ []) (false ∷ false ∷ false ∷ false ∷ [])

abbrev memories : Memories
memories port = fresh

abbrev processor : Cpu
processor = record {
  coding_style = lt;
  prev_style = at;
  dmi_table = [];
  local_time = 7;
  statistics = no_statistics;
}

fresh-IsValid : IsValid fresh
fresh-IsValid = record {
  used_fits = refl;
  allocated = omega arith;
  within = omega arith;
  small = omega arith;
}

-- The value 513 in four bytes at the RAM's offset 100.
word-IsServable : IsServable fresh (transaction write 100 (to_bytes 4 513) 4) (to_bytes 4 513)
word-IsServable = record {
  buffered = record { holds = refl; long = unfold to_bytes in omega arith; no_wrap = omega arith };
  fine = unfold first_error in refl;
}

read_word-write_word_example :
    (m m' : Moved Memories) × (write_word
        (platform env bus)
        (λ c w command address bytes len. aborted)
        4
        processor
        memories
        4196
        513
      ≡ done m)
    × (read_word
          (platform env bus)
          (λ c w command address bytes len. aborted)
          4
          m.cpu
          m.world
          4196
          9
        ≡ done (m', 513))
read_word-write_word_example =
    read_word-write_word env bus ram (λ c w command address bytes len. aborted) processor memories 4
      4196 513 9 bus-IsReady (inl refl) (omega arith, omega arith) (λ e. omega arith) (omega arith)
      refl refl fresh-IsValid word-IsServable (omega arith)

abbrev quiet : Initiator
quiet = record { request_in_progress = none; actions = [] }

-- The request has arrived at the target.
abbrev arrived : System
arrived = record (called quiet 5) {
  target = record idle { end_req_pending = some 5; calls = acquire 5 ∷ [] };
}

arrived-Reach : Waiting.Reach (called quiet 5) arrived
unfolding targ_peq_cb idle
arrived-Reach =
    Waiting.next Waiting.here (Waiting.target_step (Stall.phase 5 begin_req accepted refl))

transport_never_returns_example :
    (arrived.thread ≡ wait_transport_done) × (sent 5 end_req arrived.target.calls ≡ false)
transport_never_returns_example =
    transport_never_returns quiet 5 arrived 5 end_req refl refl arrived-Reach

abbrev transfers : List Transfer
transfers =
    record { command = write; address = 4196; len = 4; style = lt }
    ∷ record { command = read; address = 4100; len = 2; style = lt }
    ∷ []

record_all-summary_example :
    ((record_all (start_of_simulation no_statistics) transfers).lowest ≡ 4100)
    × ((record_all (start_of_simulation no_statistics) transfers).highest ≡ 4200)
    × ((record_all (start_of_simulation no_statistics) transfers).reads ≡ 1)
    × ((record_all (start_of_simulation no_statistics) transfers).bytes_read ≡ 2)
record_all-summary_example = record_all-summary transfers (omega arith, (omega arith, tt))
