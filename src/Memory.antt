-- ===== src/Memory.antt =====
-- memory/memory.cpp: `Memory_module`, a RAM or ROM behind a target socket. Its handshake with a
-- nonblocking initiator is in `Handshake`. Reports below FATAL are left out. The system clock's period
-- is `Env.period`, and a time is a number of units of the kernel's time resolution.

pub mod Safety
pub mod Contents
pub mod Debug
pub mod Image
pub mod Refinement
use sc_platform.Prelude.{
  ℕ, ◌+◌, ◌-◌, ◌*◌, ◌/◌, ◌^◌, min, Bool, true, false, not, ◌&&◌, Option, none, some, List, [], ◌∷◌,
  ltb, leb, ◌==◌, if◌then◌else◌, length, replicate, slice, overwrite, resize, Outcome, done,
  aborted, undefined, ◌>>=◌, ◌>>◌, require, defined,
}
use sc_platform.Common.{
  Payload, Command, read, write, ignore, Response, ok_response, address_error_response,
  byte_enable_error_response, burst_error_response, generic_error_response, command_error_response,
  Style, at, Access, ro, Feature, disabled, enabled, u32, u64,
}
use sc_platform.Config.{
  Configuration, is_empty, update, get_field, as_word, as_size, as_feature, as_access,
}

pub record Memory : Type 0 where
  pub configuration : Configuration
  pub target_size : ℕ
  pub dmi_allowed : Feature
  pub access : Access
  pub byte_enables : Feature
  pub alignment : ℕ
  pub max_burst : ℕ
  pub addr_clocks : ℕ
  pub read_clocks : ℕ
  pub write_clocks : ℕ
  pub dmi_granted : Bool
  pub mem_vec : List ℕ
  pub used_vec : List Bool

-- The global `g_error_at_target`, the width of the socket in bits, and the clock's period.
pub record Env : Type 0 where
  pub error_at_target : Bool
  pub bus_width : ℕ
  pub period : ℕ

abbrev pub is_read : Command → Bool
is_read read = true
is_read _ = false

abbrev pub is_write : Command → Bool
is_write write = true
is_write _ = false

abbrev pub is_ignore : Command → Bool
is_ignore ignore = true
is_ignore _ = false

abbrev pub is_ro : Access → Bool
is_ro ro = true
is_ro _ = false

abbrev pub is_at : Style → Bool
is_at at = true
is_at _ = false

-- The checks of `payload_is_ok` in their order; `none` where the payload passes them all.
unfoldable pub first_error : Memory → Payload → ℕ → Style → Option Response
first_error m trans len coding_style =
    if leb m.target_size (u64 (trans.address + len))
    then some address_error_response
    else if trans.byte_enabled
    then some byte_enable_error_response
    else if is_at coding_style && (ltb 0 m.max_burst && ltb m.max_burst len)
    then some burst_error_response
    else if ltb trans.streaming_width len
    then some generic_error_response
    else if is_ro m.access && is_write trans.command
    then some command_error_response
    else none

abbrev pub set_response : Env → Payload → Response → Payload
set_response env trans r = record trans {
  response = if env.error_at_target then ok_response else r;
}

unfoldable pub verdict : Env → Payload → Option Response → Bool × Payload
verdict env trans none = (true, trans)
verdict env trans (some r) = (false, set_response env trans r)

-- The null data pointer is an assertion failure.
unfoldable pub payload_is_ok : Env → Memory → Payload → ℕ → Style → Outcome (Bool × Payload)
unfolding first_error verdict
payload_is_ok env m trans len coding_style = elim trans.bytes [
  | none ↦ aborted
  | some _ ↦ done (verdict env trans (first_error m trans len coding_style))
]

-- `resize( depth )`, with the pattern 0xEA; `sc_assert( depth > 0 and depth <= m_target_size )`.
unfoldable pub resize_memory : Memory → ℕ → Outcome Memory
unfolding resize
resize_memory m depth = do
  require (ltb 0 depth && leb depth m.target_size)
  done
      (record m { mem_vec = resize depth 0xEA m.mem_vec; used_vec = resize depth false m.used_vec })

-- Grow to 1K beyond the access, within the configured size.
unfoldable pub grow : Memory → ℕ → Outcome Memory
unfolding resize_memory
grow m end =
    if ltb (length m.mem_vec) end
    then resize_memory m (min (u32 (end + 1024)) m.target_size)
    else done m

-- Rounds of the socket's width in bytes, in 32 bits.
abbrev pub beats : Env → ℕ → ℕ
beats env len = let sbw = env.bus_width / 8 in u32 (len + sbw + 2 ^ 32 - 1) / sbw

-- `memcpy( ptr, mem + adr, len )`: defined where both ranges lie in their vectors.
unfoldable pub copy_out : ℕ → ℕ → List ℕ → List ℕ → Outcome (List ℕ)
unfolding overwrite
copy_out adr len mem buffer =
    if leb (adr + len) (length mem) && leb len (length buffer)
    then done (overwrite 0 (slice adr len mem) buffer)
    else undefined

-- `memcpy( mem + adr, ptr, len )`.
unfoldable pub copy_in : ℕ → ℕ → List ℕ → List ℕ → Outcome (List ℕ)
unfolding overwrite
copy_in adr len mem buffer =
    if leb (adr + len) (length mem) && leb len (length buffer)
    then done (overwrite adr (slice 0 len buffer) mem)
    else undefined

-- The used flags of a range that was written, if there are any flags.
unfoldable pub mark_used : ℕ → ℕ → List Bool → Outcome (List Bool)
unfolding overwrite
mark_used adr len [] = done []
mark_used adr len (u ∷ us) =
    if leb (adr + len) (length (u ∷ us))
    then done (overwrite adr (replicate len true) (u ∷ us))
    else undefined

-- What a call leaves: the memory, the payload, the annotated delay, and the length it returns.
pub record Served : Type 0 where
  pub memory : Memory
  pub trans : Payload
  pub delay : ℕ
  pub length : ℕ

-- The bytes that the payload points to; a null pointer is never read.
abbrev pub buffer : Payload → Outcome (List ℕ)
buffer trans = defined trans.bytes

abbrev pub served_ok : Memory → Payload → ℕ → ℕ → Outcome Served
served_ok m trans delay len = done (record {
  memory = m;
  trans = record trans { response = ok_response };
  delay = delay;
  length = len;
})

unfoldable pub serve_read : Env → Memory → Payload → ℕ → ℕ → Outcome Served
unfolding copy_out
serve_read env m trans delay len = do
  ptr ← buffer trans
  ptr' ← copy_out trans.address len m.mem_vec ptr
  served_ok m (record trans { bytes = some ptr' })
      (delay + env.period * m.read_clocks * beats env len) len

unfoldable pub serve_write : Env → Memory → Payload → ℕ → ℕ → Outcome Served
unfolding copy_in mark_used
serve_write env m trans delay len = do
  ptr ← buffer trans
  mem ← copy_in trans.address len m.mem_vec ptr
  used ← mark_used trans.address len m.used_vec
  served_ok (record m { mem_vec = mem; used_vec = used }) trans
      (delay + env.period * m.write_clocks * beats env len) len

-- The transfer by the payload's command.
unfoldable pub serve : Env → Memory → Payload → ℕ → ℕ → Command → Outcome Served
unfolding serve_read serve_write
serve env m trans delay len read = serve_read env m trans delay len
serve env m trans delay len write = serve_write env m trans delay len
serve env m trans delay len ignore = served_ok m trans delay 0

unfoldable pub transport : Env → Memory → Payload → ℕ → ℕ → Outcome Served
unfolding grow serve
transport env m trans delay len = do
  require (ltb (u64 (trans.address + len)) m.target_size)
  m' ← grow m (u64 (trans.address + len))
  serve env m' trans (delay + env.period * m.addr_clocks) len trans.command

-- A payload that is not served leaves all but its response as it was.
abbrev pub unserved_state : Memory → Payload → ℕ → Served
unserved_state m trans delay = record { memory = m; trans = trans; delay = delay; length = 0 }

abbrev pub unserved : Memory → Payload → ℕ → Outcome Served
unserved m trans delay = done (unserved_state m trans delay)

unfoldable pub serve_if : Env → Memory → ℕ → ℕ → Bool × Payload → Outcome Served
unfolding transport
serve_if env m delay len (true, trans) = transport env m trans delay len
serve_if env m delay len (false, trans) = unserved m trans delay

unfoldable pub b_transport : Env → Memory → Payload → ℕ → Outcome Served
unfolding payload_is_ok serve_if
b_transport env m trans delay = do
  checked ← payload_is_ok env m trans trans.data_length Style.lt
  serve_if env m delay trans.data_length checked

-- `execute_transaction`: the same for an approximately timed payload, with a delay of its own.
unfoldable pub execute_transaction : Env → Memory → Payload → Outcome Served
unfolding payload_is_ok serve_if
execute_transaction env m trans = do
  checked ← payload_is_ok env m trans trans.data_length at
  serve_if env m 0 trans.data_length checked

-- The fields that the module takes from a configuration it is sent. The key "dmi_allowed " ends in a
-- space, as in the source.
take_settings : Memory → Configuration → Memory
unfolding get_field
take_settings m c = record m {
  target_size = get_field as_word c "target_size" m.target_size;
  dmi_allowed = get_field as_feature c "dmi_allowed " m.dmi_allowed;
  access = get_field as_access c "access" m.access;
  byte_enables = get_field as_feature c "byte_enables" m.byte_enables;
  alignment = get_field as_size c "alignment" m.alignment;
  max_burst = get_field as_size c "max_burst" m.max_burst;
  addr_clocks = get_field as_word c "addr_clocks" m.addr_clocks;
  read_clocks = get_field as_word c "read_clocks" m.read_clocks;
  write_clocks = get_field as_word c "write_clocks" m.write_clocks;
}

-- `configure`: the extension's configuration before, if the payload carries one; the module, and the
-- extension's configuration after.
unfoldable pub configure : Memory → Option Configuration → Memory × Option Configuration
unfolding take_settings is_empty update
configure m none = (m, none)
configure m (some c) =
    if is_empty c
    then (m, some m.configuration)
    else (take_settings (record m { configuration = update m.configuration c }) c, some c)

-- The truncation of a debug access that reaches beyond the end, in 64 and 32 bits.
unfoldable pub truncate : ℕ → ℕ → ℕ → ℕ
truncate target_size adr len =
    let beyond = u64 (adr + len + 2 ^ 64 - 1) in
    if ltb target_size beyond then u32 (len + 2 ^ 64 - (beyond - target_size)) else len

unfoldable pub dbg_access : Env → Memory → Payload → Outcome Served
unfolding truncate payload_is_ok serve_if
dbg_access env m trans = do
  let len = truncate m.target_size trans.address trans.data_length
  checked ← payload_is_ok env m trans len Style.lt
  serve_if env m 0 len checked

unfoldable pub transport_dbg : Env → Memory → Payload → Option Configuration → Outcome Served
unfolding configure resize_memory dbg_access
transport_dbg env m trans ext = do
  let m' = (configure m ext).0
  m'' ← (if m'.target_size == length m'.mem_vec then done m' else resize_memory m' m'.target_size)
  (if is_ignore trans.command
      then unserved m'' (record trans { response = ok_response }) 0
      else dbg_access env m'' trans)

-- What `get_direct_mem_ptr` tells of the memory, if DMI is allowed.
pub record DmiData : Type 0 where
  pub start_address : ℕ
  pub end_address : ℕ
  pub read_latency : ℕ
  pub write_latency : ℕ
  pub writable : Bool

pub get_direct_mem_ptr : Env → Memory → Memory × Option DmiData
get_direct_mem_ptr env m = elim m.dmi_allowed [
  | disabled ↦ (m, none)
  | enabled ↦ (
    record m { dmi_granted = true },
    some (record {
      start_address = 0;
      end_address = u32 (m.target_size + 2 ^ 32 - 1);
      read_latency = env.period * m.read_clocks;
      write_latency = env.period * m.write_clocks;
      writable = not (is_ro m.access);
    }),
  )
]
