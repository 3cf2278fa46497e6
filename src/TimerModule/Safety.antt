-- ===== src/TimerModule/Safety.antt =====
-- Every transaction of timer/timer.cpp stays inside the registers, the timers and the initiator's
-- buffer, and leaves their sizes.
use sc_platform.Prelude.{
  ℕ, ◌+◌, ◌*◌, ◌≤◌, ◌≡◌, refl, ◌∙◌, inl, inr, true, ◌&&◌, some, List, arith, ltb, leb, Option-cases,
  length, slice, overwrite, length-overwrite, IsDefined, require-IsDefined, IsDefined-cases,
}
use sc_platform.Common.{u64, Payload, Command, read, write, ignore, Style}
use sc_platform.Kernel.{EventKernel, TimeArithmetic}
use sc_platform.Memory.{Env, copy_in, copy_out}
use sc_platform.Memory.Safety.{IsBuffered}
use sc_platform.TimerModule.{TimerModule, bank_size}
use sc_platform.Memory.{beats}
use sc_platform.Registers.{Configured, Handled}
use sc_platform.TimerModule.Transport.{payload_error, serve_write, serve_read, serve, call}
use sc_platform.TimerModule.Access.{IsSized}
use sc_platform.TimerModule.Bounds.{write_actions-IsDefined, read_actions-IsDefined}

-- The registers and the timers have their sizes, and the initiator's buffer has as many bytes as before.
abbrev pub IsServed : {Event : Type 0} → ℕ → List ℕ → Handled (TimerModule Event) → Type 0
IsServed n ptr h =
    IsSized n h.device.bank × ((p : List ℕ) × (h.trans.bytes ≡ some p) × (length p ≡ length ptr))

module _ (k : EventKernel) (w : TimeArithmetic) (n : ℕ) where
  open k use {Event}
  open w use {times}

  serve_write-IsDefined :
      (env : Env) (now : ℕ) (m : Configured (TimerModule Event)) (trans : Payload) (delay : ℕ)
      (ptr : List ℕ)
      → IsSized n m.bank
      → IsBuffered trans ptr
      → trans.address + trans.data_length ≤ n * bank_size
      → IsDefined (IsServed n ptr) (serve_write k w env now m trans delay)
  unfolding serve_write copy_in
  serve_write-IsDefined env now m trans delay ptr v b fits =
      let room : (leb (trans.address + trans.data_length) (length m.bank.registers)
            && leb trans.data_length (length ptr))
          ≡ true =
        ground (arith, v.banks, b.long) in
      let regs = overwrite trans.address (slice 0 trans.data_length ptr) m.bank.registers in
      elim (IsDefined-cases (IsSized n) _ (
        write_actions-IsDefined k w env.period n now
          (delay + times m.settings.write_clocks env.period * beats env trans.data_length)
          trans.address trans.data_length (record m.bank { registers = regs })
          (record {
            count = v.count;
            banks = length-overwrite trans.address _ m.bank.registers ∙ v.banks;
            all_timers = v.all_timers;
          }))) [
            | inl e ↦ rw (b.holds, room, e) tt
            | inr (s', e, v') ↦ rw (b.holds, room, e) (v', (ptr, refl, refl))
          ]

  serve_read-IsDefined :
      (env : Env) (now : ℕ) (m : Configured (TimerModule Event)) (trans : Payload) (delay : ℕ)
      (ptr : List ℕ)
      → IsSized n m.bank
      → IsBuffered trans ptr
      → trans.address + trans.data_length ≤ n * bank_size
      → IsDefined (IsServed n ptr) (serve_read k w env now m trans delay)
  unfolding serve_read copy_out
  serve_read-IsDefined env now m trans delay ptr v b fits =
      elim (IsDefined-cases (IsSized n) _ (
        read_actions-IsDefined k w env.period n now delay trans.address trans.data_length m.bank
          v)) [
            | inl e ↦ rw e tt
            | inr (s', e, v') ↦
                let room : (leb (trans.address + trans.data_length) (length s'.registers)
                      && leb trans.data_length (length ptr))
                    ≡ true =
                  ground (arith, v'.banks, b.long) in
                rw (e, b.holds, room)
                  (
                    v',
                    (
                      overwrite 0 (slice trans.address trans.data_length s'.registers) ptr,
                      refl,
                      length-overwrite 0 (slice trans.address trans.data_length s'.registers) ptr,
                    ),
                  )
          ]

  serve-IsDefined :
      (env : Env) (now : ℕ) (m : Configured (TimerModule Event)) (trans : Payload) (delay : ℕ)
      (c : Command) (ptr : List ℕ)
      → IsSized n m.bank
      → IsBuffered trans ptr
      → trans.address + trans.data_length ≤ n * bank_size
      → IsDefined (IsServed n ptr) (serve k w env now m trans delay c)
  unfolding serve
  serve-IsDefined env now m trans delay write ptr v b fits =
      serve_write-IsDefined env now m trans delay ptr v b fits
  serve-IsDefined env now m trans delay read ptr v b fits =
      serve_read-IsDefined env now m trans delay ptr v b fits
  serve-IsDefined env now m trans delay ignore ptr v b fits = (v, (ptr, b.holds, refl))

  -- A transaction of either style never leaves the language's defined behaviour: it either fails an
  -- assertion or returns a module whose registers and timers have their sizes and a payload whose buffer
  -- has as many bytes as before. The module has `n` timers and the size for them, and the payload has a
  -- buffer for its data length and an address that does not wrap around.
  pub call-IsDefined :
      (env : Env) (now : ℕ) (style : Style) (m : Configured (TimerModule Event)) (trans : Payload)
      (delay : ℕ) (ptr : List ℕ)
      → IsSized n m.bank
      → m.settings.target_size ≡ n * bank_size + 4
      → IsBuffered trans ptr
      → IsDefined (IsServed n ptr) (call k w env now style m trans delay)
  unfolding call
  call-IsDefined env now style m trans delay ptr v sized b =
      elim (Option-cases (payload_error m.settings trans trans.data_length style)) [
        | inr (r, e) ↦ rw (b.holds, e) (v, (ptr, refl, refl))
        | inl e ↦
            let fits : trans.address + trans.data_length ≤ n * bank_size =
              unfold payload_error in ground (arith, b.no_wrap) in
            let b' : IsBuffered (record trans { bytes = some ptr }) ptr = record {
              holds = refl;
              long = b.long;
              no_wrap = b.no_wrap;
            } in
            rw (b.holds, e)
              (require-IsDefined (IsServed n ptr)
                (ltb (u64 (trans.address + trans.data_length)) m.settings.target_size) _
                (λ _.
                  serve-IsDefined env now m (record trans { bytes = some ptr })
                    (delay + times m.settings.addr_clocks env.period) trans.command ptr v b' fits))
      ]
