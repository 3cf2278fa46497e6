-- ===== src/Cpu/Summary.antt =====
-- The summary that cpu/cpu.cpp prints at the end: what its statistics come to over a run of transactions.
use sc_platform.Prelude.{
  ℕ, ◌+◌, ◌%◌, ◌^◌, ◌<◌, min, max, ◌≡◌, refl, ap, ◌∙◌, Bool, true, false, List, [], ◌∷◌, arith,
  if◌then◌else◌, All,
}
use sc_platform.Common.{Command, read, Style, max_addr}
use sc_platform.Cpu.{
  Statistics, no_statistics, start_of_simulation, record_transaction, count_command, count_style,
  note_range,
}

pub record Transfer : Type 0 where
  pub command : Command
  pub address : ℕ
  pub len : ℕ
  pub style : Style

-- The transfers in their order.
unfoldable pub record_all : Statistics → List Transfer → Statistics
unfolding record_transaction
record_all s [] = s
record_all s (t ∷ ts) = record_all (record_transaction t.command t.address t.len t.style s) ts

abbrev is_read : Command → Bool
is_read read = true
is_read _ = false

-- What a transfer adds to the reads and to the bytes read.
abbrev pub read_once : Transfer → ℕ
read_once t = if is_read t.command then 1 else 0

abbrev pub read_length : Transfer → ℕ
read_length t = if is_read t.command then t.len else 0

abbrev pub total : (Transfer → ℕ) → List Transfer → ℕ
total f [] = 0
total f (t ∷ ts) = f t + total f ts

-- The least address, up to a bound, and the greatest end.
abbrev pub least : ℕ → List Transfer → ℕ
least a [] = a
least a (t ∷ ts) = min t.address (least a ts)

abbrev pub greatest : List Transfer → ℕ
greatest [] = 0
greatest (t ∷ ts) = max (t.address + t.len) (greatest ts)

-- No transfer ends past the address space.
abbrev pub Ends : List Transfer → Type 0
Ends = All (λ t. t.address + t.len < 2 ^ 64)

step_range :
    (s : Statistics) (t : Transfer)
    → t.address + t.len < 2 ^ 64
    → ((record_transaction t.command t.address t.len t.style s).lowest ≡ min t.address s.lowest)
      × ((record_transaction t.command t.address t.len t.style s).highest
          ≡ max (t.address + t.len) s.highest)
unfolding record_transaction count_command count_style note_range
step_range s t h = ground arith

least-min : (a b : ℕ) (ts : List Transfer) → least (min a b) ts ≡ min a (least b ts)
least-min a b [] = refl
least-min a b (t ∷ ts) = ground (arith, least-min a b ts)

record_all-range :
    (s : Statistics) (ts : List Transfer)
    → Ends ts
    → ((record_all s ts).lowest ≡ least s.lowest ts)
      × ((record_all s ts).highest ≡ max s.highest (greatest ts))
unfolding record_all
record_all-range s [] h = (refl, omega arith)
record_all-range s (t ∷ ts) h =
    let s' = record_transaction t.command t.address t.len t.style s in
    let (lo, hi) = record_all-range s' ts h.1 in
    let (lo1, hi1) = step_range s t h.0 in
    (lo ∙ ap (λ x. least x ts) lo1 ∙ least-min t.address s.lowest ts, omega (arith, hi, hi1))

step_reads :
    (s : Statistics) (t : Transfer)
    → s.reads < 2 ^ 64
    → s.bytes_read < 2 ^ 64
    → ((record_transaction t.command t.address t.len t.style s).reads
        ≡ (s.reads + read_once t) % 2 ^ 64)
      × ((record_transaction t.command t.address t.len t.style s).bytes_read
          ≡ (s.bytes_read + read_length t) % 2 ^ 64)
unfolding record_transaction count_command count_style note_range
step_reads s t h g = ground arith

record_all-reads :
    (s : Statistics) (ts : List Transfer)
    → s.reads < 2 ^ 64
    → s.bytes_read < 2 ^ 64
    → ((record_all s ts).reads ≡ (s.reads + total read_once ts) % 2 ^ 64)
      × ((record_all s ts).bytes_read ≡ (s.bytes_read + total read_length ts) % 2 ^ 64)
unfolding record_all
record_all-reads s [] h g = (omega (arith, h), omega (arith, g))
record_all-reads s (t ∷ ts) h g =
    let s' = record_transaction t.command t.address t.len t.style s in
    let (n, b) = step_reads s t h g in
    let (ns, bs) = record_all-reads s' ts (omega (arith, n)) (omega (arith, b)) in
    (omega (arith, n, ns), omega (arith, b, bs))

-- Over a run of transfers of which none ends past the address space, from the start of the simulation:
-- the lowest address is the least one, up to `MAX_ADDR`, the highest is the greatest end, and the reads
-- and the bytes read are counted in 64 bits.
pub record_all-summary :
    (ts : List Transfer)
    → Ends ts
    → ((record_all (start_of_simulation no_statistics) ts).lowest ≡ least max_addr ts)
      × ((record_all (start_of_simulation no_statistics) ts).highest ≡ greatest ts)
      × ((record_all (start_of_simulation no_statistics) ts).reads ≡ total read_once ts % 2 ^ 64)
      × ((record_all (start_of_simulation no_statistics) ts).bytes_read
          ≡ total read_length ts % 2 ^ 64)
unfolding start_of_simulation
record_all-summary ts h =
    let s = start_of_simulation no_statistics in
    let (lo, hi) = record_all-range s ts h in
    let (n, b) = record_all-reads s ts (omega arith) (omega arith) in
    (lo, hi ∙ omega arith, n ∙ omega arith, b ∙ omega arith)
