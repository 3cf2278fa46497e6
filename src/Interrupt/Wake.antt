-- ===== src/Interrupt/Wake.antt =====
-- When a process that waits on the channel of interrupt/interrupt.hpp is woken.
use Prim.Native.String.{String}
use sc_platform.Prelude.{
  ℕ, ◌+◌, ◌^◌, ◌<◌, ◌≡◌, inl, inr, true, false, none, some, List, [], ◌∷◌, arith, ltb, Bool-cases,
}
use sc_platform.Common.{u64}
use sc_platform.Kernel.{EventKernel}
use sc_platform.Interrupt.{
  Channel, notify_source, notify_after, get_next, waits, pending, insert, has_pending,
}

module _ (k : EventKernel) where
  open k use {Event, fired, due, due-notify_idle}

  -- On an empty channel with no notification pending, a delayed interrupt leaves none pending either:
  -- a process that waits then waits for the event, which nothing is due to trigger. If the process
  -- calls `get_next` first, the event is due at the interrupt's time.
  pub notify_after_sleeps :
      (now delay : ℕ) (source : String) (c : Channel Event)
      → c.scheduled ≡ []
      → due c.event ≡ none
      → 0 < delay
      → delay + now < 2 ^ 64
      → let c' = notify_after k now source delay c in
        (waits k now c' ≡ true)
        × (due c'.event ≡ none)
        × (due (get_next k now c').1.event ≡ some (delay + now))
  unfolding notify_after waits pending get_next
  notify_after_sleeps now delay source c empty idle later fits =
      ground (arith, due-notify_idle now delay c.event idle)

  first_due :
      (now sent : ℕ) (source : String) (taken : ℕ) (m : List (ℕ × String)) (e : Event)
      → let c : Channel Event = record {
        sent = sent;
        taken = taken;
        scheduled = insert now source m;
        event = e;
      } in
        (waits k now c ≡ false)
        × (has_pending k now c ≡ true)
        × (s : String) × ((get_next k now c).0 ≡ some s)
  unfolding insert waits has_pending get_next
  first_due now sent source taken [] e = (ground arith, ground arith, source, ground arith)
  first_due now sent source taken ((u, r) ∷ m) e = elim (Bool-cases (ltb now u)) [
    | inl later ↦ rw later (ground arith, ground arith, source, ground arith)
    | inr sooner ↦ rw sooner (ground arith, ground arith, r, ground arith)
  ]

  -- After an immediate interrupt a process does not wait, and takes one that is due no later.
  pub notify_source-get_next :
      (now : ℕ) (source : String) (c : Channel Event)
      → let c' = notify_source k now source c in
        (waits k now c' ≡ false)
        × (has_pending k now c' ≡ true)
        × (s : String) × ((get_next k now c').0 ≡ some s)
  unfolding notify_source
  notify_source-get_next now source c =
      first_due now (u64 (c.sent + 1)) source c.taken c.scheduled (fired c.event)
