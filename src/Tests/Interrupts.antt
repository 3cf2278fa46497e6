-- ===== src/Tests/Interrupts.antt =====
-- The channel of interrupt/interrupt.hpp and the controller of interrupt/pic.cpp at concrete inputs.
use Prim.Native.String.{String}
use sc_platform.Prelude.{
  ℕ, ◌≤◌, ◌<◌, ◌≡◌, refl, Bool, true, false, Option, none, some, List, [], ◌∷◌, ◌++◌, arith,
  get_elem?, replicate,
}
use sc_platform.Common.{Payload, write, incomplete_response}
use sc_platform.Interrupt.{Channel, notifies_after, gets, run, drain, pending, has_pending}
use sc_platform.Interrupt.Order.{IsAccounted, run-IsAccounted, drain_pending}
use sc_platform.Pic.{Pic, Source}
use sc_platform.Pic.Actions.{next_irq, activate, clear}
use sc_platform.Pic.Next.{next_irq_highest}
use sc_platform.Pic.Transport.{Settings}
use sc_platform.Tests.Timers.{kernel}

abbrev channel : List (ℕ × String) → Channel (Option ℕ)
channel m = record { sent = 3; taken = 0; scheduled = m; event = none }

abbrev three : List (ℕ × String)
three = (5, "uart") ∷ (5, "timer") ∷ (9, "gpio") ∷ []

three-IsAccounted : IsAccounted kernel (channel three)
three-IsAccounted = record { ordered = ground arith; counted = omega arith }

run-IsAccounted_example :
    IsAccounted kernel
      (run kernel (gets 6 ∷ notifies_after 6 "dma" 2 ∷ gets 6 ∷ []) (channel three))
run-IsAccounted_example =
    run-IsAccounted kernel (gets 6 ∷ notifies_after 6 "dma" 2 ∷ gets 6 ∷ []) (channel three)
      three-IsAccounted (omega arith)

drain_pending_example :
    let r = drain kernel 6 2 (channel three) in
    (r.0 ≡ "uart" ∷ "timer" ∷ [])
    × (r.1.scheduled ≡ (9, "gpio") ∷ [])
    × (r.1.taken ≡ 2)
    × (has_pending kernel 6 r.1 ≡ false)
unfolding pending
drain_pending_example = drain_pending kernel 6 (channel three) (omega arith)

abbrev source : Bool → ℕ → Source
source pending priority = record {
  pending = pending;
  active = false;
  enabled = true;
  priority = priority;
}

abbrev sources : List Source
sources = source true 3 ∷ source true 7 ∷ source false 9 ∷ []

next_irq_highest_example :
    let n = (next_irq 2 sources).0 in
    (y : Source) × (get_elem? sources n ≡ some y)
    × (y.pending ≡ true)
    × (2 < y.priority)
    × (3 ≤ y.priority)
    × ((next_irq 2 sources).1 ≡ activate n sources)
next_irq_highest_example =
    next_irq_highest 2 0 sources (source true 3) refl refl (omega arith) (omega arith)

-- A controller with one target, whose TARGET register holds the word 0x80.
abbrev controller : Pic
controller = record {
  registers = replicate 8 0 ++ 0x80 ∷ replicate 23 0;
  source_irq = sources;
  source_targets = 1 ∷ 1 ∷ 1 ∷ [];
  target_irq = record { clearall = false; enabled = false; mask = 0 } ∷ [];
  target_level = [] ∷ [];
  target_select = 0 ∷ [];
  target_id = ("cpu", 0) ∷ [];
}

abbrev controller_after : Pic
controller_after = record controller {
  source_irq = clear sources;
  target_irq = record { clearall = true; enabled = true; mask = 1 } ∷ [];
  target_level = (1 ∷ []) ∷ [];
}

abbrev settings : Settings
settings = record {
  target_size = 64;
  max_burst = 4;
  addr_clocks = 1;
  read_clocks = 1;
  write_clocks = 1;
}

abbrev select : Payload
select = record {
  command = write;
  address = 20;
  bytes = some (0 ∷ 0 ∷ 0 ∷ 0 ∷ []);
  data_length = 4;
  streaming_width = 4;
  byte_enabled = false;
  response = incomplete_response;
}
