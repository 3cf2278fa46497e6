-- ===== src/Tests/Memories.antt =====
-- The memory of memory/memory.cpp at a size of 16 bytes.
use sc_platform.Prelude.{
  ℕ, ◌≡◌, refl, inl, Bool, true, false, some, List, [], ◌∷◌, arith, length, get_elem?, overwrite,
  done,
}
use sc_platform.Common.{Payload, Command, read, write, incomplete_response, rw, enabled, disabled}
use sc_platform.Config.{Configuration, word, feature}
use sc_platform.Memory.{Memory, Env, Served, first_error, b_transport}
use sc_platform.Memory.Safety.{IsValid, IsBuffered, b_transport_total}
use sc_platform.Memory.Contents.{IsServable, b_transport-read-write, b_transport-write_elsewhere}
use sc_platform.Memory.Image.{image}
use sc_platform.Memory.Refinement.{Transfer, transport_run, abstract_run, transport_run-refines}

abbrev pub env : Env
env = record { error_at_target = false; bus_width = 32; period = 10 }

abbrev pub memory : ℕ → List ℕ → List Bool → Memory
memory depth bytes used = record {
  configuration = record { data_map = []; dflt_map = []; reqd_key_set = [] };
  target_size = depth;
  dmi_allowed = enabled;
  access = rw;
  byte_enables = disabled;
  alignment = 1;
  max_burst = 0;
  addr_clocks = 1;
  read_clocks = 2;
  write_clocks = 2;
  dmi_granted = false;
  mem_vec = bytes;
  used_vec = used;
}

-- 16 bytes of which four are allocated.
abbrev small : Memory
small = memory 16 (1 ∷ 2 ∷ 3 ∷ 4 ∷ []) (false ∷ false ∷ false ∷ false ∷ [])

-- Four bytes, all allocated.
abbrev pub full : Memory
full = memory 4 (1 ∷ 2 ∷ 3 ∷ 4 ∷ []) (false ∷ false ∷ false ∷ false ∷ [])

abbrev pub payload : Command → ℕ → List ℕ → Payload
payload command address bytes = record {
  command = command;
  address = address;
  bytes = some bytes;
  data_length = 2;
  streaming_width = 2;
  byte_enabled = false;
  response = incomplete_response;
}

small-IsValid : IsValid small
small-IsValid = record {
  used_fits = refl;
  allocated = omega arith;
  within = omega arith;
  small = omega arith;
}

abbrev fresh : List ℕ
fresh = 7 ∷ 8 ∷ []

abbrev blank : List ℕ
blank = 0 ∷ 0 ∷ []

payload-IsBuffered :
    (c : Command) (bytes : List ℕ) → length bytes ≡ 2 → IsBuffered (payload c 6 bytes) bytes
payload-IsBuffered c bytes n = record {
  holds = refl;
  long = omega (arith, n);
  no_wrap = omega arith;
}

write-IsServable : IsServable small (payload write 6 fresh) fresh
write-IsServable = record {
  buffered = payload-IsBuffered write fresh refl;
  fine = unfold first_error in refl;
}

read-IsServable : IsServable small (payload read 6 blank) blank
read-IsServable = record {
  buffered = payload-IsBuffered read blank refl;
  fine = unfold first_error in refl;
}

b_transport_total_example :
    (s : Served) × (b_transport env small (payload write 6 fresh) 0 ≡ done s) × IsValid s.memory
b_transport_total_example =
    b_transport_total env small (payload write 6 fresh) fresh 0 small-IsValid
      (payload-IsBuffered write fresh refl)

b_transport-read-write_example :
    (s t : Served) × (b_transport env small (payload write 6 fresh) 0 ≡ done s)
    × (b_transport env s.memory (payload read 6 blank) 5 ≡ done t)
    × (t.trans.bytes ≡ some (7 ∷ 8 ∷ []))
    × (t.memory ≡ s.memory)
unfolding overwrite
b_transport-read-write_example =
    b_transport-read-write env small (payload write 6 fresh) (payload read 6 blank) fresh blank 0 5
      small-IsValid write-IsServable read-IsServable refl refl refl refl

b_transport-write_elsewhere_example :
    (s : Served) × (b_transport env small (payload write 6 fresh) 0 ≡ done s)
    × (get_elem? s.memory.mem_vec 3 ≡ some 4)
    × (get_elem? s.memory.used_vec 3 ≡ some false)
b_transport-write_elsewhere_example =
    b_transport-write_elsewhere env small (payload write 6 fresh) fresh 0 3 small-IsValid
      write-IsServable refl (omega arith) (inl (omega arith))

-- A configuration with the defaults of the platform and one value of its own.
abbrev partial : Configuration
partial = record {
  data_map = ("dmi_allowed", feature disabled) ∷ [];
  dflt_map = ("target_size", word 0) ∷ ("dmi_allowed", feature disabled) ∷ [];
  reqd_key_set = "target_size" ∷ [];
}

-- A write, and a read of the same two bytes.
abbrev transfers : List Transfer
transfers =
    record { trans = payload write 6 fresh; ptr = fresh; is_write = true }
    ∷ record { trans = payload read 6 blank; ptr = blank; is_write = false }
    ∷ []

transport_run-refines_example :
    (m : Memory) × (transport_run env transfers small
      ≡ done (m, (abstract_run transfers (image small)).1))
    × (image m ≡ (abstract_run transfers (image small)).0)
transport_run-refines_example =
    transport_run-refines env transfers small small-IsValid
      ((write-IsServable, refl), ((read-IsServable, refl), tt))
