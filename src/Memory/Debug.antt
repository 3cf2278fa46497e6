-- ===== src/Memory/Debug.antt =====
-- Debug access, configuration and direct memory pointers of memory/memory.cpp.
use sc_platform.Prelude.{
  ℕ, ◌+◌, ◌-◌, ◌*◌, ◌^◌, ◌≤◌, ◌<◌, ◌≡◌, true, false, not, none, some, List, arith, ◌==◌, length,
  aborted,
}
use sc_platform.Common.{u32, Payload, lt, address_error_response, enabled, u64}
use sc_platform.Config.{Configuration, lookup, word, is_empty}
use sc_platform.Memory.{
  is_ro, Memory, Env, DmiData, first_error, set_response, is_ignore, configure, truncate,
  transport_dbg, get_direct_mem_ptr, unserved,
}
use sc_platform.Memory.Safety.{end_of, payload_is_ok-rejects}

-- The truncated length still reaches one byte beyond the end.
truncate_reaches :
    (target adr len : ℕ)
    → target < 2 ^ 32
    → len < 2 ^ 32
    → adr + 2 ^ 32 < 2 ^ 64
    → target ≤ adr + len
    → 0 < adr + len
    → target ≤ u64 (adr + truncate target adr len)
unfolding truncate
truncate_reaches target adr len t l a past some_byte = ground arith

-- A debug access whose last byte lies at or beyond the end less one is refused, never shortened: it
-- returns no bytes, with an address error unless errors are reported at the target, and the memory as
-- it was. The memory has its full size, the payload carries no configuration and has a buffer, and the
-- address is not within 4 GB of wrapping around.
pub transport_dbg_past_end :
    (env : Env) (m : Memory) (trans : Payload) (ptr : List ℕ)
    → length m.mem_vec ≡ m.target_size
    → 0 < m.target_size
    → m.target_size < 2 ^ 32
    → is_ignore trans.command ≡ false
    → trans.bytes ≡ some ptr
    → trans.data_length < 2 ^ 32
    → trans.address + 2 ^ 32 < 2 ^ 64
    → m.target_size ≤ end_of trans
    → transport_dbg env m trans none ≡ unserved m (set_response env trans address_error_response) 0
unfolding transport_dbg
transport_dbg_past_end env m trans ptr full some_size size acts holds len adr past =
    let n = truncate m.target_size trans.address trans.data_length in
    let refused : first_error m trans n lt ≡ some address_error_response =
      unfold first_error in
      ground (
        arith,
        truncate_reaches m.target_size trans.address trans.data_length size len adr past
            (omega arith),
      ) in
    let sized : (m.target_size == length m.mem_vec) ≡ true = ground arith in
    rw
      (sized, acts, payload_is_ok-rejects env m trans ptr n lt address_error_response holds refused)

-- A configuration that is sent without a size sets the size to its default, zero, and the resize that
-- follows aborts.
pub transport_dbg_partial_configuration :
    (env : Env) (m : Memory) (trans : Payload) (c : Configuration)
    → is_empty c ≡ false
    → lookup "target_size" c.data_map ≡ none
    → lookup "target_size" c.dflt_map ≡ some (word 0)
    → 0 < length m.mem_vec
    → transport_dbg env m trans (some c) ≡ aborted
unfolding transport_dbg
transport_dbg_partial_configuration env m trans c given no_size zero_size allocated = ground arith

-- Whatever value a configuration gives to "dmi_allowed", the module does not take it, as long as the
-- configuration has no key of that name with a space at its end.
pub configure-dmi_allowed :
    (m : Memory) (c : Configuration)
    → lookup "dmi_allowed " c.data_map ≡ none
    → lookup "dmi_allowed " c.dflt_map ≡ none
    → (configure m (some c)).0.dmi_allowed ≡ m.dmi_allowed
unfolding configure
configure-dmi_allowed m c no_data no_dflt = ground arith

-- The range of a granted pointer is the configured size, so on a memory that has not grown to it the
-- range ends beyond the bytes that the pointer points to.
pub get_direct_mem_ptr_beyond :
    (env : Env) (m : Memory)
    → m.dmi_allowed ≡ enabled
    → length m.mem_vec < m.target_size
    → m.target_size < 2 ^ 32
    → (d : DmiData) × ((get_direct_mem_ptr env m).1 ≡ some d) × (length m.mem_vec ≤ d.end_address)
unfolding get_direct_mem_ptr
get_direct_mem_ptr_beyond env m allowed small size = (
  record {
    start_address = 0;
    end_address = u32 (m.target_size + 2 ^ 32 - 1);
    read_latency = env.period * m.read_clocks;
    write_latency = env.period * m.write_clocks;
    writable = not (is_ro m.access);
  },
  ground arith,
  omega arith,
)
