-- ===== src/Stub.antt =====
-- top/stub.cpp: `Stub_module`, which stands for a target that is not there yet. It checks a payload and takes time as
-- a memory does, and moves no bytes. Reports below FATAL are left out.
pub mod Nonblocking
pub mod Timing
use sc_platform.Prelude.{
  ℕ, zero, suc, ◌+◌, ◌-◌, ◌*◌, ◌/◌, ◌%◌, ◌^◌, ◌≤◌, ◌<◌, min, max, bit_and, bit_or, bit_xor, ◌≡◌,
  refl, sym, ap, ap₂, ◌∙◌, ◌≢◌, ◌↔◌, ◌⊎◌, inl, inr, Bool, true, false, not, ◌&&◌, ◌||◌, Option,
  none, some, List, [], ◌∷◌, ◌++◌, map, arith, ltb, leb, ◌==◌, if◌then◌else◌, Bool-cases,
  Option-cases, ==_iff, length, get_elem?, set, take, drop, replicate, slice, overwrite, resize,
  length-overwrite, length-resize, length-slice, slice-overwrite, get_elem?-overwrite_below,
  get_elem?-overwrite_above, get_elem?-resize, length-append, length-take, length-drop,
  length-replicate, length-set, get_elem?-set_self, get_elem?-set_ne, take-append, drop-append,
  get_elem?-lt, get_elem?-ge, All, Among, All-Among, Outcome, done, aborted, undefined, ◌>>=◌, ◌>>◌,
  require, defined, >>=-eq-done, IsDefined, >>=-IsDefined, require-IsDefined, if-IsDefined,
  IsDefined-cases, Ensures, >>=-Ensures, if-Ensures, Ensures-done,
}
use sc_platform.Common.{
  Payload, Command, read, write, ignore, Response, ok_response, address_error_response,
  byte_enable_error_response, burst_error_response, generic_error_response, command_error_response,
  Style, Access, Feature, u32, u64,
}
use sc_platform.Config.{
  Configuration, is_empty, update, get_field, as_word, as_size, as_feature, as_access,
}
use sc_platform.Memory.{Env, is_write, is_ignore, is_ro, is_at, set_response, beats}

pub record Stub : Type 0 where
  pub configuration : Configuration
  pub target_size : ℕ
  pub dmi_allowed : Feature
  pub access : Access
  pub byte_enables : Feature
  pub alignment : ℕ
  pub max_burst : ℕ
  pub addr_clocks : ℕ
  pub read_clocks : ℕ
  pub write_clocks : ℕ

-- The checks of `payload_is_ok` in their order; `none` where the payload passes them all.
unfoldable pub payload_error : Stub → Payload → ℕ → Style → Option Response
payload_error s trans len coding_style =
    if leb s.target_size (u64 (trans.address + len))
    then some address_error_response
    else if trans.byte_enabled
    then some byte_enable_error_response
    else if is_at coding_style && (ltb 0 s.max_burst && ltb s.max_burst len)
    then some burst_error_response
    else if ltb trans.streaming_width len
    then some generic_error_response
    else if is_ro s.access && is_write trans.command
    then some command_error_response
    else none

-- What a call leaves: the payload, the annotated delay, and the length that it returns.
pub record Answered : Type 0 where
  pub trans : Payload
  pub delay : ℕ
  pub length : ℕ

unfoldable pub serve : Env → Stub → Payload → ℕ → ℕ → Command → Answered
serve env s trans delay len read = record {
  trans = record trans { response = ok_response };
  delay = delay + env.period * s.read_clocks * beats env len;
  length = len;
}
serve env s trans delay len write = record {
  trans = record trans { response = ok_response };
  delay = delay + env.period * s.write_clocks * beats env len;
  length = len;
}
serve env s trans delay len ignore = record {
  trans = record trans { response = ok_response };
  delay = delay;
  length = 0;
}

unfoldable pub transport : Env → Stub → Payload → ℕ → ℕ → Outcome Answered
unfolding serve
transport env s trans delay len = do
  require (ltb (u64 (trans.address + len)) s.target_size)
  done (serve env s trans (delay + env.period * s.addr_clocks) len trans.command)

unfoldable pub transport_if : Env → Stub → Payload → ℕ → Option Response → Outcome Answered
unfolding transport
transport_if env s trans delay none = transport env s trans delay trans.data_length
transport_if env s trans delay (some r) =
    done (record { trans = set_response env trans r; delay = delay; length = 0 })

-- The null data pointer is an assertion failure.
unfoldable pub call : Env → Style → Stub → Payload → ℕ → Outcome Answered
unfolding transport_if payload_error
call env style s trans delay = elim trans.bytes [
  | none ↦ aborted
  | some _ ↦ transport_if env s trans delay (payload_error s trans trans.data_length style)
]

unfoldable pub b_transport : Env → Stub → Payload → ℕ → Outcome Answered
unfolding call
b_transport env s trans delay = call env Style.lt s trans delay

unfoldable pub execute_transaction : Env → Stub → Payload → Outcome Answered
unfolding call
execute_transaction env s trans = call env Style.at s trans 0

-- The key "dmi_allowed " ends in a space, as in the source.
take_settings : Stub → Configuration → Stub
unfolding get_field
take_settings s c = record s {
  target_size = get_field as_word c "target_size" s.target_size;
  dmi_allowed = get_field as_feature c "dmi_allowed " s.dmi_allowed;
  access = get_field as_access c "access" s.access;
  byte_enables = get_field as_feature c "byte_enables" s.byte_enables;
  alignment = get_field as_size c "alignment" s.alignment;
  max_burst = get_field as_size c "max_burst" s.max_burst;
  addr_clocks = get_field as_word c "addr_clocks" s.addr_clocks;
  read_clocks = get_field as_word c "read_clocks" s.read_clocks;
  write_clocks = get_field as_word c "write_clocks" s.write_clocks;
}

unfoldable pub configure : Stub → Option Configuration → Stub × Option Configuration
unfolding take_settings is_empty update
configure s none = (s, none)
configure s (some c) =
    if is_empty c
    then (s, some s.configuration)
    else (take_settings (record s { configuration = update s.configuration c }) c, some c)

-- Only the configuration is served; a debug access leaves even its response as it was.
unfoldable pub transport_dbg : Stub → Payload → Option Configuration → Stub × Answered
unfolding configure
transport_dbg s trans ext =
    let answer =
      if is_ignore trans.command then record trans { response = ok_response } else trans in
    ((configure s ext).0, record { trans = answer; delay = 0; length = 0 })
