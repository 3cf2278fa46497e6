-- ===== src/Pic/Faults.antt =====
-- What keeps the controller of interrupt/pic.cpp from working as it is constructed.
use Prim.Native.String.{String}
use sc_platform.Prelude.{
  ℕ, zero, suc, ◌+◌, ◌/◌, ◌%◌, ◌^◌, ◌<◌, ◌≡◌, refl, sym, ◌∙◌, ◌≢◌, inl, inr, true, false, not,
  Option, none, some, List, [], ◌∷◌, arith, ltb, ◌==◌, Bool-cases, length, get_elem?,
  get_elem?-set_self, All, done, undefined, defined, >>=-eq-done,
}
use sc_platform.Common.{Payload, write, Style, u64}
use sc_platform.Memory.{Env, copy_in}
use sc_platform.Pic.{Pic, Source, initial, load}
use sc_platform.Pic.Actions.{write_target, clear, target_reg}
use sc_platform.Pic.Transport.{Settings, pic_error, pic_call, notify_targets}

done-eq-done : {A : Type 0} {a b : A} → done a ≡ done b → a ≡ b
done-eq-done h = cc

undefined-ne_done : {A : Type 0} {a : A} → undefined ≢ done a
undefined-ne_done h = cc

clear-All : (xs : List Source) → All (λ x. (x.pending ≡ false) × (x.active ≡ false)) (clear xs)
unfolding clear
clear-All [] = tt
clear-All (x ∷ xs) = ((refl, refl), clear-All xs)

-- A write of a word that is not zero to the TARGET register sets the mask of the target to 1, enables
-- it, and clears every pending and active interrupt, whatever bits the word has.
pub write_target_any :
    (target v : ℕ) (s s' : Pic)
    → load target_reg s.registers ≡ done v
    → 0 < v
    → write_target target s ≡ done s'
    → target < length s.target_irq
    → (get_elem? s'.target_irq target ≡ some (record { clearall = true; enabled = true; mask = 1 }))
      × All (λ x. (x.pending ≡ false) × (x.active ≡ false)) s'.source_irq
unfolding write_target
write_target_any target v s s' word some_bit h inside =
    let (v', e, h1) = >>=-eq-done (load target_reg s.registers) _ h in
    let (old, e1, h2) = >>=-eq-done (defined (get_elem? s.target_irq target)) _ h1 in
    let (level, e2, h3) = >>=-eq-done (defined (get_elem? s.target_level target)) _ h2 in
    let same : v' ≡ v = done-eq-done (sym e ∙ word) in
    let bits : not (v' == 0) ≡ true = ground arith in
    let made = rw bits at (done-eq-done h3) in
    rw (sym made) (get_elem?-set_self s.target_irq target _ inside, clear-All s.source_irq)

-- Every port that an interrupt notifies has the interrupt's own number, not that of a target.
pub notify_targets_source :
    (ports i n irq priority targets : ℕ) (levels : List (List ℕ)) (notified : List ℕ)
    → notify_targets ports i n irq priority targets levels ≡ done notified
    → All (λ port. port ≡ irq) notified
unfolding notify_targets
notify_targets_source ports i zero irq priority targets levels notified h =
    rw (sym (done-eq-done h)) tt
notify_targets_source ports i (suc n) irq priority targets levels notified h =
    let rest = notify_targets ports (i + 1) n irq priority targets levels in
    elim (Bool-cases (targets / 2 ^ i % 2 == 1)) [
      | inr f ↦
          notify_targets_source ports (i + 1) n irq priority targets levels notified (rw f at h)
      | inl t ↦
          let (level, e, h1) = >>=-eq-done (defined (get_elem? levels i)) _ (rw t at h) in
          let (front, e1, h2) = >>=-eq-done (defined (get_elem? level 0)) _ h1 in
          elim (Bool-cases (ltb front priority)) [
            | inr f ↦
                notify_targets_source ports (i + 1) n irq priority targets levels notified
                  (rw f at h2)
            | inl t' ↦ elim (Bool-cases (ltb irq ports)) [
              | inr f ↦ absurd (undefined-ne_done (rw (t', f) at h2))
              | inl t'' ↦
                  let (later, e2, h3) = >>=-eq-done rest _ (rw (t', t'') at h2) in
                  let tails =
                    notify_targets_source ports (i + 1) n irq priority targets levels later e2 in
                  rw (sym (done-eq-done h3)) (refl, tails)
            ]
          ]
    ]

copy_in-initial :
    (adr len irqs : ℕ) (ptr : List ℕ)
    → 1 < len
    → copy_in adr len (initial irqs).registers ptr ≡ undefined
unfolding copy_in initial
copy_in-initial adr len irqs ptr long = ground arith

-- On a controller as it is constructed, a write of at least one byte that passes the checks of the
-- payload, at an address that does not wrap around, is outside the register vector.
pub pic_call_undefined :
    (env : Env) (st : Settings) (style : Style) (cpu : Option String) (trans : Payload)
    (ptr : List ℕ) (delay irqs : ℕ)
    → trans.bytes ≡ some ptr
    → trans.command ≡ write
    → 0 < trans.data_length
    → trans.address + trans.data_length < 2 ^ 64
    → pic_error st trans trans.data_length style ≡ none
    → pic_call env st style cpu trans delay (initial irqs) ≡ undefined
unfolding pic_call
pic_call_undefined env st style cpu trans ptr delay irqs holds writes some_byte no_wrap fine =
    let inside : ltb (u64 (trans.address + trans.data_length)) st.target_size ≡ true =
      unfold pic_error in ground arith in
    let long : 1 < trans.data_length = unfold pic_error in ground arith in
    rw (holds, fine, inside, writes)
      (rw (copy_in-initial trans.address trans.data_length irqs ptr long) refl)
