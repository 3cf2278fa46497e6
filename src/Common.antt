-- ===== src/Common.antt =====
-- common/common.hpp: the platform's integer widths, constants and enumerations, and the attributes
-- of a TLM-2.0 generic payload that the modules exchange.
--
-- `Addr_t` is a 64-bit word and `Depth_t` a 32-bit one; both are native numbers here, and each
-- operation that may leave the width is reduced by `u64` or `u32`.
use sc_platform.Prelude.{ℕ, ◌+◌, ◌-◌, ◌%◌, ◌^◌, Bool, List, Option}

abbrev pub u64 : ℕ → ℕ
u64 n = n % 2 ^ 64

abbrev pub u32 : ℕ → ℕ
u32 n = n % 2 ^ 32

-- a - b of two 64-bit words.
abbrev pub sub_u64 : ℕ → ℕ → ℕ
sub_u64 a b = u64 (a + 2 ^ 64 - b)

abbrev pub max_addr : ℕ
max_addr = 2 ^ 64 - 1

abbrev pub bad_addr : ℕ
bad_addr = 2 ^ 64 - 2

-- `Port_t` is an int; a port is its bit pattern, so `~Port_t( 0 )` is 2^32 - 1.
abbrev pub bad_port : ℕ
bad_port = 2 ^ 32 - 1

abbrev pub unassigned : ℕ
unassigned = 0

-- The `none` of the source is `disabled` here, and `inaccessible` in `Access`.
pub data Feature : Type 0 where
  disabled enabled : Feature

pub data Access : Type 0 where
  inaccessible rw ro wo rc rs w1c w0c w1s w0s w1t w0t raz : Access

pub data Style : Type 0 where
  unknown default lt at td : Style

-- `tlm_command` and `tlm_response_status`.
pub data Command : Type 0 where
  read write ignore : Command

pub data Response : Type 0 where
  ok_response incomplete_response generic_error_response address_error_response : Response
  command_error_response burst_error_response byte_enable_error_response : Response

-- The attributes of a generic payload. `bytes` is what `data_ptr` points to, `none` where it is null.
pub record Payload : Type 0 where
  pub command : Command
  pub address : ℕ
  pub bytes : Option (List ℕ)
  pub data_length : ℕ
  pub streaming_width : ℕ
  pub byte_enabled : Bool
  pub response : Response
