-- ===== src/Interrupt.antt =====
-- interrupt/interrupt.hpp: `Interrupt_channel`, a queue of named interrupts by the time at which they
-- are due. The multimap is a list in the order of its keys; the event is the kernel's.
pub mod Order
pub mod Wake
use Prim.Native.String.{String}
use sc_platform.Prelude.{
  ℕ, zero, suc, ◌+◌, ◌-◌, ◌*◌, ◌/◌, ◌%◌, ◌^◌, ◌≤◌, ◌<◌, min, max, bit_and, bit_or, bit_xor, ◌≡◌,
  refl, sym, ap, ap₂, ◌∙◌, ◌≢◌, ◌↔◌, ◌⊎◌, inl, inr, Bool, true, false, not, ◌&&◌, ◌||◌, Option,
  none, some, List, [], ◌∷◌, ◌++◌, map, arith, ltb, leb, ◌==◌, if◌then◌else◌, Bool-cases,
  Option-cases, ==_iff, length, get_elem?, set, take, drop, replicate, slice, overwrite, resize,
  length-overwrite, length-resize, length-slice, slice-overwrite, get_elem?-overwrite_below,
  get_elem?-overwrite_above, get_elem?-resize, length-append, length-take, length-drop,
  length-replicate, length-set, get_elem?-set_self, get_elem?-set_ne, take-append, drop-append,
  get_elem?-lt, get_elem?-ge, All, Among, All-Among, Outcome, done, aborted, undefined, ◌>>=◌, ◌>>◌,
  require, defined, >>=-eq-done,
}
use sc_platform.Common.{u64}
use sc_platform.Kernel.{EventKernel}

-- `multimap::insert`: behind the entries of the same time.
unfoldable pub insert : ℕ → String → List (ℕ × String) → List (ℕ × String)
insert t source [] = (t, source) ∷ []
insert t source ((u, other) ∷ m) =
    if ltb t u then (t, source) ∷ (u, other) ∷ m else (u, other) ∷ insert t source m

-- The loop of `pending`.
unfoldable pub count_due : ℕ → List (ℕ × String) → ℕ
count_due now [] = 0
count_due now ((t, source) ∷ m) = if ltb now t then 0 else suc (count_due now m)

pub record Channel (Event : Type 0) : Type 0 where
  pub sent : ℕ
  pub taken : ℕ
  pub scheduled : List (ℕ × String)
  pub event : Event

module _ (k : EventKernel) where
  open k use {Event, notify, cancel, fired}

  -- `notify( source )`; an immediate notification triggers the event at once.
  unfoldable pub notify_source : ℕ → String → Channel Event → Channel Event
  unfolding insert
  notify_source now source c = record c {
    scheduled = insert now source c.scheduled;
    event = fired c.event;
    sent = u64 (c.sent + 1);
  }

  -- `notify( source, delay )`.
  unfoldable pub notify_after : ℕ → String → ℕ → Channel Event → Channel Event
  unfolding insert
  notify_after now source delay c = record c {
    scheduled = insert (u64 (delay + now)) source c.scheduled;
    sent = u64 (c.sent + 1);
  }

  -- The source, or `none` for a null pointer.
  unfoldable pub get_next : ℕ → Channel Event → Option String × Channel Event
  get_next now c = elim c.scheduled [
    | [] ↦ (none, c)
    | (t, source) ∷ m ↦
        if leb t now
        then (some source, record c { scheduled = m; taken = u64 (c.taken + 1) })
        else (none, record c { event = notify now (t - now) c.event })
  ]

  unfoldable pub clearall : Channel Event → Channel Event
  clearall c = record c { scheduled = []; event = cancel c.event }

  unfoldable pub has_pending : ℕ → Channel Event → Bool
  has_pending now c = elim c.scheduled [ [] ↦ false | (t, source) ∷ m ↦ leb t now ]

  unfoldable pub pending : ℕ → Channel Event → ℕ
  unfolding count_due
  pending now c = count_due now c.scheduled

  abbrev pub outstanding : Channel Event → ℕ
  outstanding c = length c.scheduled

  -- Whether `wait` waits for the event.
  unfoldable pub waits : ℕ → Channel Event → Bool
  unfolding pending
  waits now c = pending now c == 0

-- The calls on a channel, each at its time.
pub data Operation : Type 0 where
  notifies : ℕ → String → Operation
  notifies_after : ℕ → String → ℕ → Operation
  gets : ℕ → Operation
  clears : Operation

module _ (k : EventKernel) where
  open k use {Event}

  perform : Operation → Channel Event → Channel Event
  unfolding notify_source notify_after get_next clearall
  perform (notifies now source) c = notify_source k now source c
  perform (notifies_after now source delay) c = notify_after k now source delay c
  perform (gets now) c = (get_next k now c).1
  perform clears c = clearall k c

  unfoldable pub run : List Operation → Channel Event → Channel Event
  unfolding perform
  run [] c = c
  run (o ∷ os) c = run os (perform o c)

  -- The sources of `n` calls of `get_next` at one time, as far as they give one.
  unfoldable pub drain : ℕ → ℕ → Channel Event → List String × Channel Event
  drain now zero c = ([], c)
  drain now (suc n) c =
      let r = get_next k now c in
      let later = drain now n r.1 in (elim r.0 [ none ↦ later.0 | some s ↦ s ∷ later.0 ], later.1)
