-- ===== src/Pic/Transport.antt =====
-- `Pic_module::payload_is_ok`, `transport`, `b_transport` and `execute_transaction` of
-- interrupt/pic.cpp, and what `pic_thread` does with an interrupt that it takes.
use Prim.Native.String.{String}
use sc_platform.Prelude.{
  ℕ, zero, suc, ◌+◌, ◌*◌, ◌/◌, ◌%◌, ◌^◌, true, not, ◌&&◌, ◌||◌, Option, none, some, List, [], ◌∷◌,
  ltb, leb, ◌==◌, if◌then◌else◌, length, get_elem?, set, Outcome, done, aborted, undefined, ◌>>=◌,
  ◌>>◌, require, defined,
}
use sc_platform.Common.{
  Payload, Command, read, write, ignore, Response, ok_response, address_error_response,
  byte_enable_error_response, burst_error_response, generic_error_response, Style, u64,
}
use sc_platform.Memory.{Env, set_response, is_at, beats, copy_in, copy_out}
use sc_platform.Pic.{Pic}
use sc_platform.Pic.Actions.{write_actions, read_actions}

pub record Settings : Type 0 where
  pub target_size : ℕ
  pub max_burst : ℕ
  pub addr_clocks : ℕ
  pub read_clocks : ℕ
  pub write_clocks : ℕ

-- The checks in their order; `none` where the payload passes them all.
unfoldable pub pic_error : Settings → Payload → ℕ → Style → Option Response
pic_error st trans len style =
    if leb st.target_size (u64 (trans.address + len)) || not (trans.address % 4 == 0)
    then some address_error_response
    else if trans.byte_enabled
    then some byte_enable_error_response
    else if not (len % 4 == 0) || (is_at style && (ltb 0 st.max_burst && ltb st.max_burst len))
    then some burst_error_response
    else if ltb trans.streaming_width len
    then some generic_error_response
    else none

pub record Handled : Type 0 where
  pub pic : Pic
  pub trans : Payload
  pub delay : ℕ

unfoldable pub pic_write : Env → Settings → Option String → Payload → ℕ → Pic → Outcome Handled
unfolding copy_in write_actions
pic_write env st cpu trans delay s = do
  ptr ← defined trans.bytes
  regs ← copy_in trans.address trans.data_length s.registers ptr
  s' ← write_actions trans.address cpu (record s { registers = regs })
  done (record {
    pic = s';
    trans = record trans { response = ok_response };
    delay = delay + env.period * st.write_clocks * beats env trans.data_length;
  })

unfoldable pub pic_read : Env → Settings → Option String → Payload → ℕ → Pic → Outcome Handled
unfolding copy_out read_actions
pic_read env st cpu trans delay s = do
  s' ← read_actions trans.address cpu s
  ptr ← defined trans.bytes
  ptr' ← copy_out trans.address trans.data_length s'.registers ptr
  done (record {
    pic = s';
    trans = record trans { response = ok_response; bytes = some ptr' };
    delay = delay + env.period * st.read_clocks * beats env trans.data_length;
  })

unfoldable pub pic_serve :
    Env → Settings → Option String → Payload → ℕ → Pic → Command → Outcome Handled
unfolding pic_write pic_read
pic_serve env st cpu trans delay s write = pic_write env st cpu trans delay s
pic_serve env st cpu trans delay s read = pic_read env st cpu trans delay s
pic_serve env st cpu trans delay s ignore =
    done (record { pic = s; trans = record trans { response = ok_response }; delay = delay })

unfoldable pub pic_transport : Env → Settings → Option String → Payload → ℕ → Pic → Outcome Handled
unfolding pic_serve
pic_transport env st cpu trans delay s = do
  require (ltb (u64 (trans.address + trans.data_length)) st.target_size)
  pic_serve env st cpu trans (delay + env.period * st.addr_clocks) s trans.command

unfoldable pub pic_if :
    Env → Settings → Option String → Payload → ℕ → Pic → Option Response → Outcome Handled
unfolding pic_transport
pic_if env st cpu trans delay s none = pic_transport env st cpu trans delay s
pic_if env st cpu trans delay s (some r) =
    done (record { pic = s; trans = set_response env trans r; delay = delay })

-- `b_transport`, with the style `lt`, and `execute_transaction`, with `at` and no delay.
unfoldable pub pic_call :
    Env → Settings → Style → Option String → Payload → ℕ → Pic → Outcome Handled
unfolding pic_if pic_error
pic_call env st style cpu trans delay s = elim trans.bytes [
  | none ↦ aborted
  | some _ ↦ pic_if env st cpu trans delay s (pic_error st trans trans.data_length style)
]

-- The targets from number `i` to the last bound port: the ports that are notified, in order. The
-- source indexes the ports by the interrupt's number.
unfoldable pub notify_targets : ℕ → ℕ → ℕ → ℕ → ℕ → ℕ → List (List ℕ) → Outcome (List ℕ)
notify_targets ports i zero irq priority targets levels = done []
notify_targets ports i (suc n) irq priority targets levels =
    let rest = notify_targets ports (i + 1) n irq priority targets levels in
    if not (targets / 2 ^ i % 2 == 1) then rest else (do
      level ← defined (get_elem? levels i)
      front ← defined (get_elem? level 0)
      (if ltb front priority
          then (if ltb irq ports then (do later ← rest; done (irq ∷ later)) else undefined)
          else rest))

-- An interrupt of the number `irq` is taken: the module, and the ports that are notified of the
-- `ports` that are bound.
unfoldable pub take_interrupt : ℕ → ℕ → Pic → Outcome (Pic × List ℕ)
unfolding notify_targets
take_interrupt ports irq s = do
  require (ltb irq (length s.source_irq))
  x ← defined (get_elem? s.source_irq irq)
  let s' = record s { source_irq = set s.source_irq irq (record x { pending = true }) }
  targets ← defined (get_elem? s.source_targets irq)
  (if not x.enabled then done (s', []) else (do
    notified ← notify_targets ports 0 ports irq x.priority targets s.target_level
    done (s', notified)))
