-- ===== src/Interrupt/Order.antt =====
-- The order in which the interrupts of interrupt/interrupt.hpp are taken, and how many there are.
use Prim.Native.String.{String}
use mathlib.Core.Path.{subst}
use sc_platform.Prelude.{
  ℕ, suc, ◌+◌, ◌^◌, ◌≤◌, ◌<◌, ◌≡◌, refl, ap, ◌∙◌, inl, inr, true, false, none, some, List, [], ◌∷◌,
  map, arith, ltb, leb, Bool-cases, length, take, drop, All,
}
use sc_platform.Common.{u64}
use sc_platform.Kernel.{EventKernel}
use sc_platform.Interrupt.{
  Channel, insert, count_due, get_next, has_pending, pending, outstanding, run, perform, drain,
  Operation, notifies, notifies_after, gets, clears, notify_source, notify_after, clearall,
}

-- Each entry is due no later than those behind it.
abbrev pub IsOrdered : List (ℕ × String) → Type 0
IsOrdered [] = Unit {0}
IsOrdered ((t, s) ∷ m) = All (λ e. t ≤ e.0) m × IsOrdered m

All-insert :
    (u t : ℕ) (s : String) (m : List (ℕ × String))
    → u ≤ t
    → All (λ e. u ≤ e.0) m
    → All (λ e. u ≤ e.0) (insert t s m)
unfolding insert
All-insert u t s [] h a = (h, tt)
All-insert u t s ((v, r) ∷ m) h a = ground (arith, All-insert u t s m h a.1)

All-mono : (u v : ℕ) (m : List (ℕ × String)) → u ≤ v → All (λ e. v ≤ e.0) m → All (λ e. u ≤ e.0) m
All-mono u v [] h a = tt
All-mono u v ((w, r) ∷ m) h a = (omega (arith, a.0), All-mono u v m h a.1)

insert-IsOrdered :
    (t : ℕ) (s : String) (m : List (ℕ × String)) → IsOrdered m → IsOrdered (insert t s m)
unfolding insert
insert-IsOrdered t s [] o = (tt, tt)
insert-IsOrdered t s ((u, r) ∷ m) o = elim (Bool-cases (ltb t u)) [
  | inl less ↦ rw less ((ground arith, All-mono t u m (ground arith) o.0), o)
  | inr more ↦ rw more (All-insert u t s m (ground arith) o.0, insert-IsOrdered t s m o.1)
]

length-insert :
    (t : ℕ) (s : String) (m : List (ℕ × String)) → length (insert t s m) ≡ suc (length m)
unfolding insert
length-insert t s [] = refl
length-insert t s ((u, r) ∷ m) = ground (arith, length-insert t s m)

module _ (k : EventKernel) where
  open k use {Event}

  -- The queue is in order, and what was taken and what is outstanding was sent.
  pub record IsAccounted (c : Channel Event) : Type 0 where
    pub ordered : IsOrdered c.scheduled
    pub counted : c.taken + outstanding k c ≤ c.sent

  get_next-IsAccounted :
      (now sent taken : ℕ) (m : List (ℕ × String)) (e : Event)
      → IsOrdered m
      → taken + length m ≤ sent
      → sent < 2 ^ 64
      → IsAccounted
          (get_next k now (record { sent = sent; taken = taken; scheduled = m; event = e })).1
  unfolding get_next
  get_next-IsAccounted now sent taken [] e o h f = record { ordered = tt; counted = h }
  get_next-IsAccounted now sent taken ((t, s) ∷ m) e o h f = elim (Bool-cases (leb t now)) [
    | inl d ↦ rw d (record { ordered = o.1; counted = omega (arith, h, f) })
    | inr l ↦ rw l (record { ordered = o; counted = h })
  ]

  perform-IsAccounted :
      (o : Operation) (c : Channel Event)
      → c.sent + 1 < 2 ^ 64
      → IsAccounted c
      → IsAccounted (perform k o c)
  unfolding perform notify_source notify_after clearall
  perform-IsAccounted (notifies now source) c f a = record {
    ordered = insert-IsOrdered now source c.scheduled a.ordered;
    counted = omega (arith, length-insert now source c.scheduled, a.counted);
  }
  perform-IsAccounted (notifies_after now source delay) c f a = record {
    ordered = insert-IsOrdered (u64 (delay + now)) source c.scheduled a.ordered;
    counted = omega (arith, length-insert (u64 (delay + now)) source c.scheduled, a.counted);
  }
  perform-IsAccounted (gets now) c f a =
      get_next-IsAccounted now c.sent c.taken c.scheduled c.event a.ordered a.counted
        (omega (arith, f))
  perform-IsAccounted clears c f a = record { ordered = tt; counted = omega (arith, a.counted) }

  sent_once :
      (o : Operation) (c : Channel Event) → c.sent + 1 < 2 ^ 64 → (perform k o c).sent ≤ c.sent + 1
  unfolding perform notify_source notify_after get_next clearall
  sent_once (notifies now source) c f = omega arith
  sent_once (notifies_after now source delay) c f = omega arith
  sent_once (gets now) c f = ground arith
  sent_once clears c f = omega arith

  -- Whatever calls are made, at whatever times, from a channel whose queue is in the order in which its
  -- interrupts are due, and that has not taken and queued more than was sent: both stay so, if the number
  -- of interrupts sent and the number of the calls have a sum below 2^64.
  pub run-IsAccounted :
      (os : List Operation) (c : Channel Event)
      → IsAccounted c
      → c.sent + length os < 2 ^ 64
      → IsAccounted (run k os c)
  unfolding run
  run-IsAccounted [] c a f = a
  run-IsAccounted (o ∷ os) c a f =
      let room : c.sent + 1 < 2 ^ 64 = omega (arith, f) in
      run-IsAccounted os (perform k o c) (perform-IsAccounted o c room a)
        (omega (arith, f, sent_once o c room))

  get_next-due :
      (now sent taken t : ℕ) (s : String) (m : List (ℕ × String)) (e : Event)
      → leb t now ≡ true
      → get_next k now (record { sent = sent; taken = taken; scheduled = (t, s) ∷ m; event = e })
        ≡ (some s, record { sent = sent; taken = u64 (taken + 1); scheduled = m; event = e })
  unfolding get_next
  get_next-due now sent taken t s m e d = rw d refl

  drain-suc :
      (now n : ℕ) (c d : Channel Event) (s : String)
      → get_next k now c ≡ (some s, d)
      → drain k now (suc n) c ≡ (s ∷ (drain k now n d).0, (drain k now n d).1)
  unfolding drain
  drain-suc now n c d s e =
      ap
        (λ r. (
          elim r.0 [ none ↦ (drain k now n r.1).0 | some x ↦ x ∷ (drain k now n r.1).0 ],
          (drain k now n r.1).1,
        ))
        e

  -- What `n` calls of `get_next` leave, where `n` interrupts are pending.
  abbrev pub Drains : ℕ → ℕ → Channel Event → Type 0
  Drains now n c =
      let r = drain k now n c in
      (r.0 ≡ map (λ e. e.1) (take n c.scheduled))
      × (r.1.scheduled ≡ drop n c.scheduled)
      × (r.1.taken ≡ u64 (c.taken + n))
      × (has_pending k now r.1 ≡ false)

  count_due-Drains :
      (now sent taken : ℕ) (m : List (ℕ × String)) (e : Event)
      → taken < 2 ^ 64
      → Drains now
          (count_due now m)
          (record { sent = sent; taken = taken; scheduled = m; event = e })
  unfolding drain has_pending count_due
  count_due-Drains now sent taken [] e f = (refl, refl, omega (arith, f), refl)
  count_due-Drains now sent taken ((t, s) ∷ m) e f = elim (Bool-cases (ltb now t)) [
    | inl later ↦
        let l : leb t now ≡ false = ground arith in rw later (refl, refl, omega (arith, f), l)
    | inr due ↦
        let c : Channel Event = record {
          sent = sent;
          taken = taken;
          scheduled = (t, s) ∷ m;
          event = e;
        } in
        let d : Channel Event = record {
          sent = sent;
          taken = u64 (taken + 1);
          scheduled = m;
          event = e;
        } in
        let n = count_due now m in
        let step = drain-suc now n c d s (get_next-due now sent taken t s m e (ground arith)) in
        let (names, rest, count, none_left) =
          count_due-Drains now sent (u64 (taken + 1)) m e (omega arith) in
        let one_more : suc n ≡ count_due now ((t, s) ∷ m) = rw due refl in
        subst (λ x. Drains now x c) one_more
          (
            ap (λ r. r.0) step ∙ ap (◌∷◌ s) names,
            ap (λ r. r.1.scheduled) step ∙ rest,
            ap (λ r. r.1.taken) step ∙ count ∙ omega arith,
            ap (λ r. has_pending k now r.1) step ∙ none_left,
          )
  ]

  -- As many calls of `get_next` as there are pending interrupts take exactly those, in the order of the
  -- queue; the others stay, none of them is pending, and the count of those taken, which was below 2^64,
  -- has grown by as many, in 64 bits.
  pub drain_pending :
      (now : ℕ) (c : Channel Event)
      → c.taken < 2 ^ 64
      → let n = pending k now c in
        let r = drain k now n c in
        (r.0 ≡ map (λ e. e.1) (take n c.scheduled))
        × (r.1.scheduled ≡ drop n c.scheduled)
        × (r.1.taken ≡ u64 (c.taken + n))
        × (has_pending k now r.1 ≡ false)
  unfolding pending
  drain_pending now c f = count_due-Drains now c.sent c.taken c.scheduled c.event f
