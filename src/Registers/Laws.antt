-- ===== src/Registers/Laws.antt =====
-- Debug transport of the modules with registers: what is written reads back.
use sc_platform.Prelude.{
  ℕ, ◌+◌, ◌≤◌, ◌≡◌, refl, sym, ap, ap₂, ◌∙◌, true, false, ◌&&◌, Option, none, some, List, arith,
  leb, length, slice, overwrite, length-overwrite, length-slice, slice-overwrite, Outcome, done,
  aborted,
}
use sc_platform.Common.{Response, Payload, read, write, Style}
use sc_platform.Memory.{Env, copy_in, copy_out, is_ignore, truncate}
use sc_platform.Registers.{
  Configured, Handled, configure, payload_error, transport_dbg, dbg_if, dbg_serve,
}

pub some_case :
    {A : Type 0} {ptr : List ℕ} (bytes : Option (List ℕ))
    → bytes ≡ some ptr
    → (x : Outcome A) → (elim bytes [ none ↦ aborted | some _ ↦ x ]) ≡ x
some_case none h x = cc
some_case (some b) h x = refl

module _ {Device : Type 0} (registers : Device → List ℕ) (with_registers : List ℕ → Device → Device)
    (registers-with_registers : (bytes : List ℕ) (d : Device)
      → registers (with_registers bytes d) ≡ bytes) where
  -- A payload of a debug access within the registers that passes the checks, and whose buffer holds its
  -- length.
  pub record IsWithin (m : Configured Device) (trans : Payload) (ptr : List ℕ) : Type 0 where
    pub holds : trans.bytes ≡ some ptr
    pub whole : truncate m.settings.target_size trans.address trans.data_length ≡ trans.data_length
    pub fine : payload_error m.settings trans trans.data_length Style.lt ≡ none
    pub inside : trans.address + trans.data_length ≤ length (registers m.bank)
    pub long : trans.data_length ≤ length ptr

  -- The module after a debug write.
  abbrev pub written : Configured Device → Payload → List ℕ → Configured Device
  written m w ptr = record m {
    bank =
        with_registers (overwrite w.address (slice 0 w.data_length ptr) (registers m.bank)) m.bank;
  }

  transport_dbg-serves :
      (env : Env) (m : Configured Device) (w : Payload) (ptr : List ℕ)
      → IsWithin m w ptr
      → is_ignore w.command ≡ false
      → transport_dbg registers with_registers env m w none
        ≡ dbg_serve registers with_registers m w w.data_length w.command
  unfolding transport_dbg configure dbg_if
  transport_dbg-serves env m w ptr v acts =
      let access : ℕ → Option Response → Outcome (Handled Device) =
        dbg_if registers with_registers env m w in
      let at_length : ℕ → Outcome (Handled Device) =
        λ n. access n (payload_error m.settings w n Style.lt) in
      rw acts (some_case w.bytes v.holds _)
      ∙ ap at_length v.whole
      ∙ ap (access w.data_length) v.fine

  dbg_serve-write :
      (m : Configured Device) (w : Payload) (ptr : List ℕ)
      → IsWithin m w ptr
      → dbg_serve registers with_registers m w w.data_length write
        ≡ done (record { device = written m w ptr; trans = w; delay = 0; length = w.data_length })
  unfolding dbg_serve copy_in
  dbg_serve-write m w ptr v =
      let room : (leb (w.address + w.data_length) (length (registers m.bank))
            && leb w.data_length (length ptr))
          ≡ true =
        ground (arith, v.inside, v.long) in
      rw (v.holds, room) refl

  dbg_serve-read :
      (m : Configured Device) (r : Payload) (ptr : List ℕ)
      → r.bytes ≡ some ptr
      → r.address + r.data_length ≤ length (registers m.bank)
      → r.data_length ≤ length ptr
      → dbg_serve registers with_registers m r r.data_length read
        ≡ done (record {
          device = m;
          trans = record r {
            bytes = some (overwrite 0 (slice r.address r.data_length (registers m.bank)) ptr);
          };
          delay = 0;
          length = r.data_length;
        })
  unfolding dbg_serve copy_out
  dbg_serve-read m r ptr holds inside long =
      let room : (leb (r.address + r.data_length) (length (registers m.bank))
            && leb r.data_length (length ptr))
          ≡ true =
        ground arith in
      rw (holds, room) refl

  -- A debug write followed by a debug read of the same range, neither with a configuration attached, both
  -- within the registers, not truncated, passing the checks and with buffers that hold their lengths, in a
  -- module whose registers are what they are set to: the write sets the bytes of the registers in its range
  -- and nothing else of the module or of its payload, response included; the read puts these bytes into its
  -- buffer and changes nothing else of its payload, and nothing of the module; each returns its length.
  pub transport_dbg-write-read :
      (env : Env) (m : Configured Device) (w r : Payload) (wptr rptr : List ℕ)
      → IsWithin m w wptr
      → IsWithin m r rptr
      → w.command ≡ write
      → r.command ≡ read
      → r.address ≡ w.address
      → r.data_length ≡ w.data_length
      → (s t : Handled Device) × (transport_dbg registers with_registers env m w none ≡ done s)
        × (transport_dbg registers with_registers env s.device r none ≡ done t)
        × (s.device ≡ written m w wptr)
        × (s.trans ≡ w)
        × (s.length ≡ w.data_length)
        × (t.device ≡ s.device)
        × (t.trans ≡ record r { bytes = some (overwrite 0 (slice 0 w.data_length wptr) rptr) })
        × (t.length ≡ r.data_length)
        × (registers t.device.bank
            ≡ overwrite w.address (slice 0 w.data_length wptr) (registers m.bank))
  transport_dbg-write-read env m w r wptr rptr vw vr is_write is_read same_address same_length =
      let ys = slice 0 w.data_length wptr in
      let n : length ys ≡ w.data_length =
        length-slice 0 w.data_length wptr (omega (arith, vw.long)) in
      let m' = written m w wptr in
      let told : registers m'.bank ≡ overwrite w.address ys (registers m.bank) =
        registers-with_registers (overwrite w.address ys (registers m.bank)) m.bank in
      let size : length (registers m'.bank) ≡ length (registers m.bank) =
        ap length told ∙ length-overwrite w.address ys (registers m.bank) in
      let vr' : IsWithin m' r rptr = record {
        holds = vr.holds;
        whole = vr.whole;
        fine = vr.fine;
        inside = omega (arith, vr.inside, size);
        long = vr.long;
      } in
      let back : slice r.address r.data_length (registers m'.bank) ≡ ys =
        ap (slice r.address r.data_length) told
        ∙ ap₂ (λ a k. slice a k (overwrite w.address ys (registers m.bank))) same_address
            (same_length ∙ sym n)
        ∙ slice-overwrite w.address ys (registers m.bank) (omega (arith, n, vw.inside)) in
      (
        record { device = m'; trans = w; delay = 0; length = w.data_length },
        record {
          device = m';
          trans = record r {
            bytes = some (overwrite 0 (slice r.address r.data_length (registers m'.bank)) rptr);
          };
          delay = 0;
          length = r.data_length;
        },
        transport_dbg-serves env m w wptr vw (ap is_ignore is_write)
            ∙ ap (dbg_serve registers with_registers m w w.data_length) is_write
            ∙ dbg_serve-write m w wptr vw,
        transport_dbg-serves env m' r rptr vr' (ap is_ignore is_read)
            ∙ ap (dbg_serve registers with_registers m' r r.data_length) is_read
            ∙ dbg_serve-read m' r rptr vr.holds vr'.inside vr.long,
        refl,
        refl,
        refl,
        refl,
        ap (λ ys. record r { bytes = some (overwrite 0 ys rptr) }) back,
        refl,
        told,
      )
