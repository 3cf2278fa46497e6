-- ===== src/Memory/Contents.antt =====
-- What a memory of memory/memory.cpp holds: a write reads back, and nothing else changes.
use sc_platform.Prelude.{
  ℕ, ◌+◌, ◌*◌, ◌≤◌, ◌<◌, min, ◌≡◌, refl, sym, ap, ◌∙◌, ◌⊎◌, inl, inr, Bool, true, false, none, some,
  List, arith, ltb, Bool-cases, length, get_elem?, replicate, slice, overwrite, length-overwrite,
  length-slice, slice-overwrite, get_elem?-overwrite_below, get_elem?-overwrite_above,
  get_elem?-resize, length-replicate, done,
}
use sc_platform.Common.{Payload, read, write, ok_response, lt}
use sc_platform.Memory.{Memory, Env, Served, first_error, serve, b_transport, beats}
use sc_platform.Memory.Safety.{
  IsValid, IsBuffered, end_of, grown, grown-IsValid, transport-serves, written-IsValid, written,
  filled, serve_read-done, serve_write-done, accepted-inside, payload_is_ok-accepts,
}

-- A payload that passes every check, whose buffer holds its length, and whose address and length have a sum
-- below 2^64.
pub record IsServable (m : Memory) (trans : Payload) (ptr : List ℕ) : Type 0 where
  pub buffered : IsBuffered trans ptr
  pub fine : first_error m trans trans.data_length lt ≡ none

-- The annotated delay after the address and data phases.
abbrev pub delay_after : Env → ℕ → ℕ → ℕ → ℕ → ℕ
delay_after env addr_clocks data_clocks delay len =
    delay + env.period * addr_clocks + env.period * data_clocks * beats env len

abbrev pub after_write : Env → Memory → Payload → List ℕ → ℕ → Served
after_write env m trans ptr delay = record {
  memory = written (grown m (end_of trans)) trans ptr;
  trans = record trans { response = ok_response };
  delay = delay_after env m.addr_clocks m.write_clocks delay trans.data_length;
  length = trans.data_length;
}

abbrev pub after_read : Env → Memory → Payload → List ℕ → ℕ → Served
after_read env m trans ptr delay =
    let m' = grown m (end_of trans) in
    record {
      memory = m';
      trans = record trans { response = ok_response; bytes = some (filled m' trans ptr) };
      delay = delay_after env m.addr_clocks m.read_clocks delay trans.data_length;
      length = trans.data_length;
    }

grown-clocks :
    (m : Memory) (end : ℕ)
    → ((grown m end).write_clocks ≡ m.write_clocks)
      × ((grown m end).read_clocks ≡ m.read_clocks)
      × ((grown m end).addr_clocks ≡ m.addr_clocks)
grown-clocks m end = ground arith

pub b_transport-write :
    (env : Env) (m : Memory) (trans : Payload) (ptr : List ℕ) (delay : ℕ)
    → IsValid m
    → IsServable m trans ptr
    → trans.command ≡ write
    → b_transport env m trans delay ≡ done (after_write env m trans ptr delay)
unfolding b_transport
b_transport-write env m trans ptr delay v s w =
    let end = end_of trans in
    let inside = accepted-inside m trans lt s.buffered.no_wrap s.fine in
    let (v', room) = grown-IsValid m end v inside in
    let d = delay + env.period * m.addr_clocks in
    rw (payload_is_ok-accepts env m trans ptr trans.data_length lt s.buffered.holds s.fine) (
      transport-serves env m trans ptr delay v s.buffered inside
      ∙ ap (serve env (grown m end) trans d trans.data_length) w
      ∙ serve_write-done env (grown m end) trans ptr d v' s.buffered room
      ∙ ap
          (λ c. done (record {
            memory = written (grown m end) trans ptr;
            trans = record trans { response = ok_response };
            delay = d + env.period * c * beats env trans.data_length;
            length = trans.data_length;
          }))
          (grown-clocks m end).0)

pub b_transport-read :
    (env : Env) (m : Memory) (trans : Payload) (ptr : List ℕ) (delay : ℕ)
    → IsValid m
    → IsServable m trans ptr
    → trans.command ≡ read
    → b_transport env m trans delay ≡ done (after_read env m trans ptr delay)
unfolding b_transport
b_transport-read env m trans ptr delay v s r =
    let end = end_of trans in
    let inside = accepted-inside m trans lt s.buffered.no_wrap s.fine in
    let (v', room) = grown-IsValid m end v inside in
    let d = delay + env.period * m.addr_clocks in
    rw (payload_is_ok-accepts env m trans ptr trans.data_length lt s.buffered.holds s.fine) (
      transport-serves env m trans ptr delay v s.buffered inside
      ∙ ap (serve env (grown m end) trans d trans.data_length) r
      ∙ serve_read-done env (grown m end) trans ptr d s.buffered room
      ∙ ap
          (λ c. done (record {
            memory = grown m end;
            trans = record trans {
              response = ok_response;
              bytes = some (filled (grown m end) trans ptr);
            };
            delay = d + env.period * c * beats env trans.data_length;
            length = trans.data_length;
          }))
          (grown-clocks m end).1)

grown-enough : (m : Memory) (end : ℕ) → end ≤ length m.mem_vec → grown m end ≡ m
grown-enough m end h = ground arith

pub first_error-same :
    (m : Memory) (w r : Payload) (ptr : List ℕ) (end : ℕ)
    → first_error (written (grown m end) w ptr) r r.data_length lt
      ≡ first_error m r r.data_length lt
unfolding first_error
first_error-same m w r ptr end = ground arith

written-length :
    (m : Memory) (w : Payload) (ptr : List ℕ) → length (written m w ptr).mem_vec ≡ length m.mem_vec
written-length m w ptr = length-overwrite w.address (slice 0 w.data_length ptr) m.mem_vec

filled-written :
    (m : Memory) (w r : Payload) (wptr rptr : List ℕ)
    → r.address ≡ w.address
    → r.data_length ≡ w.data_length
    → w.data_length ≤ length wptr
    → end_of w ≤ length m.mem_vec
    → filled (written m w wptr) r rptr ≡ overwrite 0 (slice 0 w.data_length wptr) rptr
filled-written m w r wptr rptr same_address same_length long room =
    let n : length (slice 0 w.data_length wptr) ≡ w.data_length =
      length-slice 0 w.data_length wptr (omega arith) in
    let back : slice w.address w.data_length (written m w wptr).mem_vec
        ≡ slice 0 w.data_length wptr =
      ap (λ k. slice w.address k (written m w wptr).mem_vec) (sym n)
      ∙ slice-overwrite w.address (slice 0 w.data_length wptr) m.mem_vec (omega arith) in
    rw (same_address, same_length) (ap (λ b. overwrite 0 b rptr) back)

-- A memory is valid if its two vectors have one length, which is not 0 and at most the configured size,
-- and 1024 more than that size is at most 2^32. On a valid memory, a read after a
-- write at the same address and length gives the bytes that were written, in the read's buffer from its
-- start on, if the address and the length have a sum below 2^64, both payloads pass the checks and their
-- buffers hold their lengths; the read leaves the memory as it was.
pub b_transport-read-write :
    (env : Env) (m : Memory) (w r : Payload) (wptr rptr : List ℕ) (delay later : ℕ)
    → IsValid m
    → IsServable m w wptr
    → IsServable m r rptr
    → w.command ≡ write
    → r.command ≡ read
    → r.address ≡ w.address
    → r.data_length ≡ w.data_length
    → (s t : Served) × (b_transport env m w delay ≡ done s)
      × (b_transport env s.memory r later ≡ done t)
      × (t.trans.bytes ≡ some (overwrite 0 (slice 0 w.data_length wptr) rptr))
      × (t.memory ≡ s.memory)
b_transport-read-write env m w r wptr rptr delay later v sw sr is_write is_read same_address
      same_length =
    let inside = accepted-inside m w lt sw.buffered.no_wrap sw.fine in
    let m' = grown m (end_of w) in
    let (v', room) = grown-IsValid m (end_of w) v inside in
    let m'' = written m' w wptr in
    let served : IsServable m'' r rptr = record {
      buffered = sr.buffered;
      fine = first_error-same m w r wptr (end_of w) ∙ sr.fine;
    } in
    let fits : end_of r ≤ length m''.mem_vec =
      omega (arith, written-length m' w wptr, same_address, same_length) in
    (
      after_write env m w wptr delay,
      after_read env m'' r rptr later,
      b_transport-write env m w wptr delay v sw is_write,
      b_transport-read env m'' r rptr later (written-IsValid m' w wptr v') served is_read,
      ap (λ k. some (filled k r rptr)) (grown-enough m'' (end_of r) fits)
          ∙ ap some
              (filled-written m' w r wptr rptr same_address same_length sw.buffered.long room),
      grown-enough m'' (end_of r) fits,
    )

grown-keeps :
    (m : Memory) (end j : ℕ)
    → IsValid m
    → end < m.target_size
    → j < length m.mem_vec
    → (get_elem? (grown m end).mem_vec j ≡ get_elem? m.mem_vec j)
      × (get_elem? (grown m end).used_vec j ≡ get_elem? m.used_vec j)
grown-keeps m end j v inside here = elim (Bool-cases (ltb (length m.mem_vec) end)) [
  | inl small ↦
      let room : j < min (end + 1024) m.target_size = ground arith in
      let flag : j < length m.used_vec = omega (arith, v.used_fits) in
      rw small (
        get_elem?-resize (min (end + 1024) m.target_size) 0xEA m.mem_vec j here room,
        get_elem?-resize (min (end + 1024) m.target_size) false m.used_vec j flag room,
      )
  | inr large ↦ rw large (refl, refl)
]

get_elem?-overwrite_outside :
    {A : Type 0} (i : ℕ) (ys xs : List A) (j : ℕ)
    → (j < i) ⊎ (i + length ys ≤ j)
    → get_elem? (overwrite i ys xs) j ≡ get_elem? xs j
get_elem?-overwrite_outside i ys xs j (inl below) = get_elem?-overwrite_below i ys xs j below
get_elem?-overwrite_outside i ys xs j (inr above) = get_elem?-overwrite_above i ys xs j above

-- A memory is valid if its two vectors have one length, which is not 0 and at most the configured size,
-- and 1024 more than that size is at most 2^32. A write to a valid memory, by a payload
-- whose address and length have a sum below 2^64, that passes the checks and whose buffer holds its
-- length, leaves every byte, and every used flag, that was allocated and lies outside its range.
pub b_transport-write_elsewhere :
    (env : Env) (m : Memory) (w : Payload) (ptr : List ℕ) (delay j : ℕ)
    → IsValid m
    → IsServable m w ptr
    → w.command ≡ write
    → j < length m.mem_vec
    → (j < w.address) ⊎ (end_of w ≤ j)
    → (s : Served) × (b_transport env m w delay ≡ done s)
      × (get_elem? s.memory.mem_vec j ≡ get_elem? m.mem_vec j)
      × (get_elem? s.memory.used_vec j ≡ get_elem? m.used_vec j)
b_transport-write_elsewhere env m w ptr delay j v s is_write here apart =
    let inside = accepted-inside m w lt s.buffered.no_wrap s.fine in
    let m' = grown m (end_of w) in
    let (mem, used) = grown-keeps m (end_of w) j v inside here in
    let ys = slice 0 w.data_length ptr in
    let us : List Bool = replicate w.data_length true in
    let n : length ys ≡ w.data_length =
      length-slice 0 w.data_length ptr (omega (arith, s.buffered.long)) in
    (
      after_write env m w ptr delay,
      b_transport-write env m w ptr delay v s is_write,
      get_elem?-overwrite_outside w.address ys m'.mem_vec j (omega arith) ∙ mem,
      get_elem?-overwrite_outside w.address us m'.used_vec j
            (omega (arith, length-replicate w.data_length true))
          ∙ used,
    )
