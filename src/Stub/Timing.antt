-- ===== src/Stub/Timing.antt =====
-- The stub of top/stub.cpp against the memory of memory/memory.cpp.
use sc_platform.Prelude.{
  ℕ, ◌+◌, ◌*◌, min, ◌≡◌, refl, sym, ap, ◌∙◌, ◌&&◌, Option, none, some, List, ltb, leb, length,
  Outcome, done, aborted, ◌>>=◌, Ensures, >>=-Ensures, if-Ensures, Ensures-done, require-Ensures,
  Ensures-map,
}
use sc_platform.Common.{Payload, Command, read, write, ignore, Response, Style, u32, u64}
use sc_platform.Memory
use sc_platform.Memory.{Env, Memory, Served, buffer, copy_in, copy_out, mark_used}
use sc_platform.Stub.{Stub, Answered, payload_error, serve, transport, transport_if, b_transport}

-- The stub with the settings of a memory.
abbrev pub stub_of : Memory → Stub
stub_of m = record {
  configuration = m.configuration;
  target_size = m.target_size;
  dmi_allowed = m.dmi_allowed;
  access = m.access;
  byte_enables = m.byte_enables;
  alignment = m.alignment;
  max_burst = m.max_burst;
  addr_clocks = m.addr_clocks;
  read_clocks = m.read_clocks;
  write_clocks = m.write_clocks;
}

-- What the stub leaves where a memory leaves `s`: the same but for the bytes.
abbrev pub without_bytes : Payload → Served → Answered
without_bytes trans s = record {
  trans = record trans { response = s.trans.response };
  delay = s.delay;
  length = s.length;
}

resize_memory-settings :
    (m : Memory) (depth : ℕ) → Ensures (λ m'. stub_of m' ≡ stub_of m) (Memory.resize_memory m depth)
unfolding Memory.resize_memory
resize_memory-settings m depth =
    require-Ensures (λ m'. stub_of m' ≡ stub_of m) (ltb 0 depth && leb depth m.target_size) _
      (λ _. refl)

grow-settings : (m : Memory) (end : ℕ) → Ensures (λ m'. stub_of m' ≡ stub_of m) (Memory.grow m end)
unfolding Memory.grow
grow-settings m end =
    let Q : Memory → Type 0 = λ m'. stub_of m' ≡ stub_of m in
    if-Ensures Q (ltb (length m.mem_vec) end) _ _
      (λ _. resize_memory-settings m (min (u32 (end + 1024)) m.target_size)) (λ _. refl)

serve-timing :
    (env : Env) (m : Memory) (trans : Payload) (delay len : ℕ) (c : Command)
    → Ensures
        (λ s. serve env (stub_of m) trans delay len c ≡ without_bytes trans s)
        (Memory.serve env m trans delay len c)
unfolding Memory.serve serve
serve-timing env m trans delay len read =
    let Q : Served → Type 0 =
      λ s. serve env (stub_of m) trans delay len read ≡ without_bytes trans s in
    >>=-Ensures Q (buffer trans) _
      (λ ptr _. >>=-Ensures Q (copy_out trans.address len m.mem_vec ptr) _ (λ ptr' _. refl))
serve-timing env m trans delay len write =
    let Q : Served → Type 0 =
      λ s. serve env (stub_of m) trans delay len write ≡ without_bytes trans s in
    >>=-Ensures Q (buffer trans) _ (λ ptr _.
      >>=-Ensures Q (copy_in trans.address len m.mem_vec ptr) _
        (λ mem _. >>=-Ensures Q (mark_used trans.address len m.used_vec) _ (λ used _. refl)))
serve-timing env m trans delay len ignore = refl

transport-timing :
    (env : Env) (m : Memory) (trans : Payload) (delay len : ℕ)
    → Ensures
        (λ s. transport env (stub_of m) trans delay len ≡ done (without_bytes trans s))
        (Memory.transport env m trans delay len)
unfolding Memory.transport transport
transport-timing env m trans delay len =
    let Q : Served → Type 0 =
      λ s. transport env (stub_of m) trans delay len ≡ done (without_bytes trans s) in
    let end = u64 (trans.address + len) in
    let later = delay + env.period * m.addr_clocks in
    require-Ensures Q (ltb end m.target_size) _ (λ room.
      >>=-Ensures Q (Memory.grow m end) _ (λ m' grown.
        let same =
          Ensures-done (λ m'. stub_of m' ≡ stub_of m) (Memory.grow m end) (grow-settings m end)
            grown in
        Ensures-map
          (λ s. serve env (stub_of m') trans later len trans.command ≡ without_bytes trans s) Q
          (Memory.serve env m' trans later len trans.command)
          (λ s served.
            rw room
              (ap done (ap (λ b. serve env b trans later len trans.command) (sym same) ∙ served)))
          (serve-timing env m' trans later len trans.command)))

by_verdict :
    (env : Env) (m : Memory) (trans : Payload) (delay : ℕ) (e : Option Response)
    → Ensures
        (λ s. transport_if env (stub_of m) trans delay e ≡ done (without_bytes trans s))
        (Memory.serve_if env m delay trans.data_length (Memory.verdict env trans e))
unfolding Memory.serve_if Memory.verdict transport_if
by_verdict env m trans delay none = transport-timing env m trans delay trans.data_length
by_verdict env m trans delay (some r) = refl

checked :
    {A : Type 0} (bytes : Option (List ℕ)) (v : A) (f : A → Outcome Served) (x : Outcome Answered)
    (w : Served → Answered)
    → Ensures (λ s. x ≡ done (w s)) (f v)
    → Ensures
        (λ s. (elim bytes [ none ↦ aborted | some _ ↦ x ]) ≡ done (w s))
        ((elim bytes [ none ↦ aborted | some _ ↦ done v ]) >>= f)
checked none v f x w h = tt
checked (some _) v f x w h = h

-- Where a memory serves or refuses a payload in a blocking call, the stub with the memory's settings gives it the
-- same response, the same delay and the same length, and leaves its bytes as they were.
pub b_transport-memory :
    (env : Env) (m : Memory) (trans : Payload) (delay : ℕ) (s : Served)
    → Memory.b_transport env m trans delay ≡ done s
    → b_transport env (stub_of m) trans delay ≡ done (without_bytes trans s)
unfolding Memory.b_transport b_transport
b_transport-memory env m trans delay s =
    Ensures-done (λ s. b_transport env (stub_of m) trans delay ≡ done (without_bytes trans s))
      (Memory.b_transport env m trans delay)
      (checked trans.bytes _ _ _ (without_bytes trans)
        (by_verdict env m trans delay (payload_error (stub_of m) trans trans.data_length Style.lt)))
