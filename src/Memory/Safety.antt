-- ===== src/Memory/Safety.antt =====
-- When a blocking transaction of memory/memory.cpp is served, and that it stays inside the vectors.
use sc_platform.Prelude.{
  ℕ, zero, suc, ◌+◌, ◌*◌, ◌^◌, ◌≤◌, ◌<◌, min, ◌≡◌, refl, ap, ◌∙◌, inl, inr, Bool, true, false, none,
  some, List, [], ◌∷◌, arith, ltb, if◌then◌else◌, Option-cases, length, replicate, slice, overwrite,
  resize, length-overwrite, length-resize, Outcome, done, undefined,
}
use sc_platform.Common.{
  Response, Payload, Command, read, write, ignore, ok_response, Style, lt, u64,
}
use sc_platform.Memory.{
  payload_is_ok, unserved_state, Memory, Env, Served, first_error, set_response, grow, beats,
  copy_out, copy_in, mark_used, serve_read, serve_write, serve, transport, b_transport,
}

-- Both vectors have one length, at most the configured size, and the growth by 1K fits 32 bits.
pub record IsValid (m : Memory) : Type 0 where
  pub used_fits : length m.used_vec ≡ length m.mem_vec
  pub allocated : 0 < length m.mem_vec
  pub within : length m.mem_vec ≤ m.target_size
  pub small : m.target_size + 1024 ≤ 2 ^ 32

-- The memory once an access up to `end` has room.
abbrev pub grown : Memory → ℕ → Memory
grown m end =
    let depth = min (end + 1024) m.target_size in
    if ltb (length m.mem_vec) end
    then record m {
      mem_vec = resize depth 0xEA m.mem_vec;
      used_vec = resize depth false m.used_vec;
    }
    else m

pub grow-done :
    (m : Memory) (end : ℕ) → IsValid m → end < m.target_size → grow m end ≡ done (grown m end)
unfolding grow
grow-done m end v h = ground arith

pub grown-IsValid :
    (m : Memory) (end : ℕ)
    → IsValid m
    → end < m.target_size
    → IsValid (grown m end) × (end ≤ length (grown m end).mem_vec)
grown-IsValid m end v h =
    let depth = min (end + 1024) m.target_size in
    ground (arith, length-resize depth 0xEA m.mem_vec, length-resize depth false m.used_vec)

-- A payload whose buffer holds its data length, at an address that does not wrap around.
pub record IsBuffered (trans : Payload) (ptr : List ℕ) : Type 0 where
  pub holds : trans.bytes ≡ some ptr
  pub long : trans.data_length ≤ length ptr
  pub no_wrap : trans.address + trans.data_length < 2 ^ 64

abbrev pub end_of : Payload → ℕ
end_of trans = trans.address + trans.data_length

copy_in-done :
    (adr len : ℕ) (mem ptr : List ℕ)
    → adr + len ≤ length mem
    → len ≤ length ptr
    → copy_in adr len mem ptr ≡ done (overwrite adr (slice 0 len ptr) mem)
unfolding copy_in
copy_in-done adr len mem ptr h k = ground arith

copy_out-done :
    (adr len : ℕ) (mem ptr : List ℕ)
    → adr + len ≤ length mem
    → len ≤ length ptr
    → copy_out adr len mem ptr ≡ done (overwrite 0 (slice adr len mem) ptr)
unfolding copy_out
copy_out-done adr len mem ptr h k = ground arith

mark_used-done :
    (adr len : ℕ) (us : List Bool)
    → adr + len ≤ length us
    → mark_used adr len us ≡ done (overwrite adr (replicate len true) us)
unfolding mark_used
mark_used-done zero zero [] h = refl
mark_used-done zero (suc len) [] h = absurd (omega arith)
mark_used-done (suc adr) len [] h = absurd (omega arith)
mark_used-done adr len (u ∷ us) h = ground arith

-- The memory after a write of the payload's bytes.
abbrev pub written : Memory → Payload → List ℕ → Memory
written m trans ptr = record m {
  mem_vec = overwrite trans.address (slice 0 trans.data_length ptr) m.mem_vec;
  used_vec = overwrite trans.address (replicate trans.data_length true) m.used_vec;
}

-- The payload's bytes after a read.
abbrev pub filled : Memory → Payload → List ℕ → List ℕ
filled m trans ptr = overwrite 0 (slice trans.address trans.data_length m.mem_vec) ptr

pub serve_write-done :
    (env : Env) (m : Memory) (trans : Payload) (ptr : List ℕ) (delay : ℕ)
    → IsValid m
    → IsBuffered trans ptr
    → end_of trans ≤ length m.mem_vec
    → serve_write env m trans delay trans.data_length
      ≡ done (record {
        memory = written m trans ptr;
        trans = record trans { response = ok_response };
        delay = delay + env.period * m.write_clocks * beats env trans.data_length;
        length = trans.data_length;
      })
unfolding serve_write
serve_write-done env m trans ptr delay v b h =
    rw (b.holds, copy_in-done trans.address trans.data_length m.mem_vec ptr h b.long)
      (rw (mark_used-done trans.address trans.data_length m.used_vec (omega (arith, v.used_fits))))

pub serve_read-done :
    (env : Env) (m : Memory) (trans : Payload) (ptr : List ℕ) (delay : ℕ)
    → IsBuffered trans ptr
    → end_of trans ≤ length m.mem_vec
    → serve_read env m trans delay trans.data_length
      ≡ done (record {
        memory = m;
        trans = record trans { response = ok_response; bytes = some (filled m trans ptr) };
        delay = delay + env.period * m.read_clocks * beats env trans.data_length;
        length = trans.data_length;
      })
unfolding serve_read
serve_read-done env m trans ptr delay b h =
    rw (b.holds, copy_out-done trans.address trans.data_length m.mem_vec ptr h b.long)

pub written-IsValid :
    (m : Memory) (trans : Payload) (ptr : List ℕ) → IsValid m → IsValid (written m trans ptr)
written-IsValid m trans ptr v = ground (
  arith,
  length-overwrite trans.address (slice 0 trans.data_length ptr) m.mem_vec,
  length-overwrite trans.address (replicate trans.data_length true) m.used_vec,
)

abbrev Completes : Outcome Served → Type 0
Completes r = (s : Served) × (r ≡ done s) × IsValid s.memory × (s.trans.response ≡ ok_response)

serve-Completes :
    (env : Env) (m : Memory) (trans : Payload) (ptr : List ℕ) (delay : ℕ) (c : Command)
    → IsValid m
    → IsBuffered trans ptr
    → end_of trans ≤ length m.mem_vec
    → Completes (serve env m trans delay trans.data_length c)
unfolding serve
serve-Completes env m trans ptr delay read v b h =
    (_, serve_read-done env m trans ptr delay b h, v, refl)
serve-Completes env m trans ptr delay write v b h =
    (_, serve_write-done env m trans ptr delay v b h, written-IsValid m trans ptr v, refl)
serve-Completes env m trans ptr delay ignore v b h = (_, refl, v, refl)

-- A transport in range is the transfer, on the grown memory and after the address phase.
pub transport-serves :
    (env : Env) (m : Memory) (trans : Payload) (ptr : List ℕ) (delay : ℕ)
    → IsValid m
    → IsBuffered trans ptr
    → end_of trans < m.target_size
    → transport env m trans delay trans.data_length
      ≡ serve env
          (grown m (end_of trans))
          trans
          (delay + env.period * m.addr_clocks)
          trans.data_length
          trans.command
unfolding transport
transport-serves env m trans ptr delay v b h =
    let e : u64 (end_of trans) ≡ end_of trans = omega (arith, b.no_wrap) in
    let inside : ltb (end_of trans) m.target_size ≡ true = ground arith in
    rw (e, inside, grow-done m (end_of trans) v h)

transport-Completes :
    (env : Env) (m : Memory) (trans : Payload) (ptr : List ℕ) (delay : ℕ)
    → IsValid m
    → IsBuffered trans ptr
    → end_of trans < m.target_size
    → Completes (transport env m trans delay trans.data_length)
transport-Completes env m trans ptr delay v b h =
    let (v', room) = grown-IsValid m (end_of trans) v h in
    rw (transport-serves env m trans ptr delay v b h)
      (serve-Completes env (grown m (end_of trans)) trans ptr _ trans.command v' b room)

pub accepted-inside :
    (m : Memory) (trans : Payload) (style : Style)
    → end_of trans < 2 ^ 64
    → first_error m trans trans.data_length style ≡ none
    → end_of trans < m.target_size
unfolding first_error
accepted-inside m trans style h fine = ground arith

pub payload_is_ok-accepts :
    (env : Env) (m : Memory) (trans : Payload) (ptr : List ℕ) (len : ℕ) (style : Style)
    → trans.bytes ≡ some ptr
    → first_error m trans len style ≡ none
    → payload_is_ok env m trans len style ≡ done (true, trans)
unfolding payload_is_ok
payload_is_ok-accepts env m trans ptr len style holds fine = ground arith

pub payload_is_ok-rejects :
    (env : Env) (m : Memory) (trans : Payload) (ptr : List ℕ) (len : ℕ) (style : Style)
    (r : Response)
    → trans.bytes ≡ some ptr
    → first_error m trans len style ≡ some r
    → payload_is_ok env m trans len style ≡ done (false, set_response env trans r)
unfolding payload_is_ok
payload_is_ok-rejects env m trans ptr len style r holds bad = ground arith

-- A memory is valid if its two vectors have one length, which is not 0 and at most the configured size,
-- and 1024 more than that size is at most 2^32. On a valid memory a blocking transaction
-- whose buffer holds its length, and whose address and length have a sum below 2^64, always completes
-- within the vectors, and the memory stays valid.
pub b_transport_total :
    (env : Env) (m : Memory) (trans : Payload) (ptr : List ℕ) (delay : ℕ)
    → IsValid m
    → IsBuffered trans ptr
    → (s : Served) × (b_transport env m trans delay ≡ done s) × IsValid s.memory
unfolding b_transport
b_transport_total env m trans ptr delay v b =
    elim (Option-cases (first_error m trans trans.data_length lt)) [
      | inl fine ↦
          let (s, e, v', r) =
            transport-Completes env m trans ptr delay v b
              (accepted-inside m trans lt b.no_wrap fine) in
          (s, rw (payload_is_ok-accepts env m trans ptr trans.data_length lt b.holds fine) e, v')
      | inr (r, bad) ↦ (
        unserved_state m (set_response env trans r) delay,
        rw (payload_is_ok-rejects env m trans ptr trans.data_length lt r b.holds bad),
        v,
      )
    ]

copy_out-beyond :
    (adr len : ℕ) (mem ptr : List ℕ) → length mem < adr + len → copy_out adr len mem ptr ≡ undefined
unfolding copy_out
copy_out-beyond adr len mem ptr h = ground arith

serve_read-beyond :
    (env : Env) (m : Memory) (trans : Payload) (ptr : List ℕ) (delay len : ℕ)
    → trans.bytes ≡ some ptr
    → length m.mem_vec < trans.address + len
    → serve_read env m trans delay len ≡ undefined
unfolding serve_read
serve_read-beyond env m trans ptr delay len holds h =
    rw (holds, copy_out-beyond trans.address len m.mem_vec ptr h)

grown-small : (m : Memory) (end : ℕ) → IsValid m → length (grown m end).mem_vec ≤ m.target_size
grown-small m end v = ground (arith, length-resize (min (end + 1024) m.target_size) 0xEA m.mem_vec)

-- Where address plus length wraps around 64 bits to a sum in range, the range check of a read passes
-- and the copy is outside the vector: on a valid memory, with a payload that passes the other checks.
pub b_transport_wraps :
    (env : Env) (m : Memory) (trans : Payload) (ptr : List ℕ) (delay : ℕ)
    → IsValid m
    → trans.bytes ≡ some ptr
    → trans.command ≡ read
    → 2 ^ 64 ≤ end_of trans
    → u64 (end_of trans) < m.target_size
    → trans.byte_enabled ≡ false
    → trans.data_length ≤ trans.streaming_width
    → b_transport env m trans delay ≡ undefined
unfolding b_transport
b_transport_wraps env m trans ptr delay v holds reads wraps inside plain wide =
    let m' = grown m (u64 (end_of trans)) in
    let passes : ltb (u64 (end_of trans)) m.target_size ≡ true = ground arith in
    rw
      (payload_is_ok-accepts env m trans ptr trans.data_length lt holds
        (unfold first_error in ground arith))
      (rw (passes, grow-done m (u64 (end_of trans)) v inside)
        (ap (serve env m' trans (delay + env.period * m.addr_clocks) trans.data_length) reads
          ∙ serve_read-beyond env m' trans ptr _ trans.data_length holds
              (omega (arith, grown-small m (u64 (end_of trans)) v, v.small))))
