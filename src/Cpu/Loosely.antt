-- ===== src/Cpu/Loosely.antt =====
-- `Cpu_module::transport` of cpu/cpu.cpp for the loosely timed style, and the reads and writes of words over it. The
-- rest of the platform is a `Fabric`; the mutex, which keeps calls apart, is left out.
use sc_platform.Prelude.{
  ℕ, zero, suc, ◌+◌, ◌-◌, ◌*◌, ◌/◌, ◌%◌, Bool, Option, none, some, List, [], ◌∷◌, ◌++◌,
  if◌then◌else◌, Outcome, done, aborted, ◌>>=◌, defined,
}
use sc_platform.Common.{Payload, Command, read, write, ignore, Style, default, lt, at}
use sc_platform.Memory.{copy_in, copy_out}
use sc_platform.Cpu.{Statistics, record_transaction, transaction}
use sc_platform.Cpu.Dmi.{Region, find_region}

-- What a blocking call answers, with the hint that a region may be asked for.
pub record Reply : Type 0 where
  pub trans : Payload
  pub delay : ℕ
  pub dmi_allowed : Bool

-- What is bound to `init_socket`, the host's memory that regions point to, and the quantum keeper: the local time
-- that `set_and_sync` leaves.
pub record Fabric (World : Type 0) : Type 0 where
  pub b_transport : World → Payload → ℕ → Outcome (World × Reply)
  pub get_direct_mem_ptr : World → Payload → Outcome (World × Option Region)
  pub block : World → ℕ → List ℕ
  pub set_block : World → ℕ → List ℕ → World
  pub sync : ℕ → ℕ

pub record Cpu : Type 0 where
  pub coding_style : Style
  pub prev_style : Style
  pub dmi_table : List Region
  pub local_time : ℕ
  pub statistics : Statistics

-- What a call leaves; `bytes` is what the data pointer points to.
pub record Moved (World : Type 0) : Type 0 where
  pub cpu : Cpu
  pub world : World
  pub bytes : List ℕ

abbrev pub keep_region : List Region → Option Region → List Region
keep_region table none = table
keep_region table (some r) = table ++ r ∷ []

abbrev pub pick_style : Cpu → Style → Style
pick_style c default = c.coding_style
pick_style c style = style

-- The bytes of a word of `n` bytes, the lowest first, as the host has them, and the word.
unfoldable pub to_bytes : ℕ → ℕ → List ℕ
to_bytes zero value = []
to_bytes (suc n) value = (value % 256) ∷ to_bytes n (value / 256)

unfoldable pub of_bytes : List ℕ → ℕ
of_bytes [] = 0
of_bytes (b ∷ bs) = b + of_bytes bs * 256

module _ {World : Type 0} (f : Fabric World) where
  -- Through a region of the table. The length is not compared with the region's end.
  unfoldable pub direct : Cpu → World → Command → ℕ → List ℕ → ℕ → Region → Outcome (Moved World)
  unfolding copy_in copy_out
  direct c w write address bytes len r = do
    mem ← copy_in (address - r.start_address) len (f.block w r.block) bytes
    done (record {
      cpu = record c { local_time = c.local_time + r.write_latency };
      world = f.set_block w r.block mem;
      bytes = bytes;
    })
  direct c w read address bytes len r = do
    bytes' ← copy_out (address - r.start_address) len (f.block w r.block) bytes
    done (record {
      cpu = record c { local_time = c.local_time + r.read_latency };
      world = w;
      bytes = bytes';
    })
  direct c w ignore address bytes len r = done (record { cpu = c; world = w; bytes = bytes })

  -- The transaction is used again to ask for a region.
  unfoldable pub ask_region : World → Reply → ℕ → Outcome (World × Option Region)
  ask_region w r address =
      if r.dmi_allowed
      then f.get_direct_mem_ptr w (record r.trans { address = address })
      else done (w, none)

  -- What is done with the answer of the bus.
  unfoldable pub settle : Cpu → ℕ → World × Reply → Outcome (Moved World)
  unfolding ask_region
  settle c address (w, r) = do
    bytes' ← defined r.trans.bytes
    (w', region) ← ask_region w r address
    done (record {
      cpu = record c { local_time = f.sync r.delay; dmi_table = keep_region c.dmi_table region };
      world = w';
      bytes = bytes';
    })

  unfoldable pub regular : Cpu → World → Command → ℕ → List ℕ → ℕ → Outcome (Moved World)
  unfolding settle
  regular c w command address bytes len = do
    answered ← f.b_transport w (transaction command address bytes len) c.local_time
    settle c address answered

  unfoldable pub loosely_timed : Cpu → World → Command → ℕ → List ℕ → ℕ → Outcome (Moved World)
  unfolding direct regular find_region
  loosely_timed c0 w command address bytes len =
      let c = record c0 { prev_style = lt } in
      elim (find_region command address c.dmi_table) [
        | none ↦ regular c w command address bytes len
        | some r ↦ direct c w command address bytes len r
      ]

  -- `approximately` is the call for the other style.
  module _ (approximately : Cpu → World → Command → ℕ → List ℕ → ℕ → Outcome (Moved World)) where
    unfoldable pub by_style : Cpu → World → Command → ℕ → List ℕ → ℕ → Style → Outcome (Moved World)
    unfolding loosely_timed
    by_style c w command address bytes len lt = loosely_timed c w command address bytes len
    by_style c w command address bytes len at =
        approximately (record c { prev_style = at }) w command address bytes len
    by_style c w command address bytes len _ = aborted

    unfoldable pub transport :
        Cpu → World → Command → ℕ → List ℕ → ℕ → Style → Outcome (Moved World)
    unfolding by_style record_transaction
    transport c w command address bytes len style =
        let style' = pick_style c style in
        let c' = record c {
          statistics = record_transaction command address len style' c.statistics;
        } in
        by_style c' w command address bytes len style'

    -- `n` is the word's number of bytes: 1, 2, 4 or 8.
    unfoldable pub write_word : ℕ → Cpu → World → ℕ → ℕ → Outcome (Moved World)
    unfolding transport
    write_word n c w address value = transport c w write address (to_bytes n value) n default

    unfoldable pub read_word : ℕ → Cpu → World → ℕ → ℕ → Outcome (Moved World × ℕ)
    unfolding transport
    read_word n c w address old = do
      m ← transport c w read address (to_bytes n old) n default
      done (m, of_bytes m.bytes)
