-- ===== src/TimerModule/Access.antt =====
-- The accesses of timer/timer.cpp to the registers and the timers stay inside their vectors.
use sc_platform.Prelude.{
  ℕ, ◌+◌, ◌*◌, ◌/◌, ◌%◌, ◌^◌, ◌≤◌, ◌<◌, ◌≡◌, ◌∙◌, inl, inr, true, List, [], ◌∷◌, arith, ltb, leb,
  length, get_elem?, length-overwrite, length-set, get_elem?-lt, defined, IsDefined, >>=-IsDefined,
  require-IsDefined, IsDefined-cases,
}
use sc_platform.Kernel.{EventKernel}
use sc_platform.Timer.{Timer, start, resume}
use sc_platform.Pic.{load, store}
use sc_platform.TimerModule.{
  status_reg, get_timer_status, set_timer_status, without_qty, TimerModule, bank_size, reg, put,
  timer_at, with_timer, control_idle, control,
}

-- The module has `n` timers, and its vectors the sizes that the constructor gives them.
pub record IsSized {Event : Type 0} (n : ℕ) (s : TimerModule Event) : Type 0 where
  pub count : s.quantity ≡ n
  pub banks : length s.registers ≡ n * bank_size
  pub all_timers : length s.timers ≡ n

abbrev pub Any : {A : Type 0} → A → Type 0
Any _ = Unit

get_elem?-IsDefined :
    {A : Type 0} (xs : List A) (i : ℕ) → i < length xs → IsDefined Any (defined (get_elem? xs i))
get_elem?-IsDefined xs i h = let (a, e) = get_elem?-lt xs i h in rw e tt

load-IsDefined :
    (adr : ℕ) (bytes : List ℕ) → adr + 4 ≤ length bytes → IsDefined Any (load adr bytes)
unfolding load
load-IsDefined adr bytes h =
    let (a, e) = get_elem?-lt bytes adr (omega arith) in
    let (b, e1) = get_elem?-lt bytes (adr + 1) (omega arith) in
    let (c, e2) = get_elem?-lt bytes (adr + 2) (omega arith) in
    let (d, e3) = get_elem?-lt bytes (adr + 3) (omega arith) in rw (e, e1, e2, e3) tt

store-IsDefined :
    (adr v : ℕ) (bytes : List ℕ)
    → adr + 4 ≤ length bytes
    → IsDefined (λ bs. length bs ≡ length bytes) (store adr v bytes)
unfolding store
store-IsDefined adr v bytes h =
    let fits : leb (adr + 4) (length bytes) ≡ true = ground arith in
    rw fits (
      length-overwrite adr (v % 256 ∷ v / 2 ^ 8 % 256 ∷ v / 2 ^ 16 % 256 ∷ v / 2 ^ 24 % 256 ∷ [])
        bytes)

module _ {Event : Type 0} (n index : ℕ) (inside : index < n) where
  pub reg-IsDefined :
      (offset : ℕ) (s : TimerModule Event)
      → IsSized n s
      → offset ≤ 28
      → IsDefined Any (reg index offset s)
  unfolding reg
  reg-IsDefined offset s v h =
      require-IsDefined Any (ltb index s.quantity) _
        (λ e. load-IsDefined (index * bank_size + offset) s.registers (ground (arith, v.banks)))

  pub put-IsDefined :
      (offset v : ℕ) (s : TimerModule Event)
      → IsSized n s
      → offset ≤ 28
      → IsDefined (IsSized n) (put index offset v s)
  unfolding put
  put-IsDefined offset v s sized h = require-IsDefined (IsSized n) (ltb index s.quantity) _ (λ e.
      >>=-IsDefined (λ bs. length bs ≡ length s.registers) (IsSized n)
        (store (index * bank_size + offset) v s.registers) _
        (store-IsDefined (index * bank_size + offset) v s.registers (ground (arith, sized.banks)))
        (λ bs same. record {
          count = sized.count;
          banks = same ∙ sized.banks;
          all_timers = sized.all_timers;
        }))

  pub timer_at-IsDefined : (s : TimerModule Event) → IsSized n s → IsDefined Any (timer_at index s)
  unfolding timer_at
  timer_at-IsDefined s v = get_elem?-IsDefined s.timers index (omega (arith, inside, v.all_timers))

  pub with_timer-IsSized :
      (t : Timer Event) (s : TimerModule Event) → IsSized n s → IsSized n (with_timer index t s)
  with_timer-IsSized t s v = record {
    count = v.count;
    banks = v.banks;
    all_timers = length-set s.timers index t ∙ v.all_timers;
  }

module _ (k : EventKernel) where
  open k use {Event}

  start-IsDefined : (now delay : ℕ) (t : Timer Event) → IsDefined Any (start k now delay t)
  unfolding start resume
  start-IsDefined now delay t = ground arith

  control_idle-IsDefined :
      (now delay status : ℕ) (t : Timer Event) → IsDefined Any (control_idle k now delay status t)
  unfolding control_idle
  control_idle-IsDefined now delay status t = ground arith

  control-IsDefined :
      (now delay status : ℕ) (t : Timer Event) → IsDefined Any (control k now delay status t)
  unfolding control
  control-IsDefined now delay status t = ground (arith, control_idle-IsDefined now delay status)

  module _ (n index : ℕ) (inside : index < n) where
    pub get_timer_status-IsDefined :
        (now : ℕ) (s : TimerModule Event)
        → IsSized n s
        → IsDefined Any (get_timer_status k now index s)
    unfolding get_timer_status
    get_timer_status-IsDefined now s v = ground (
      arith,
      reg-IsDefined n index inside status_reg s v (omega arith),
      timer_at-IsDefined n index inside s v,
    )

    pub set_timer_status-IsDefined :
        (now delay : ℕ) (s : TimerModule Event)
        → IsSized n s
        → IsDefined (IsSized n) (set_timer_status k now delay index s)
    unfolding set_timer_status
    set_timer_status-IsDefined now delay s v =
        elim (IsDefined-cases Any (reg index status_reg s)
          (reg-IsDefined n index inside status_reg s v (omega arith))) [
            | inl e ↦ rw e tt
            | inr (status, e, _) ↦
                elim (IsDefined-cases (IsSized n) _ (
                  put-IsDefined n index inside status_reg (without_qty status) s v (omega arith))) [
                    | inl e1 ↦ rw (e, e1) tt
                    | inr (s', e1, v') ↦
                        elim (IsDefined-cases Any (timer_at index s')
                          (timer_at-IsDefined n index inside s' v')) [
                            | inl e2 ↦ rw (e, e1, e2) tt
                            | inr (t, e2, _) ↦
                                elim (IsDefined-cases Any _
                                  (control-IsDefined now delay (without_qty status) t)) [
                                    | inl e3 ↦ rw (e, e1, e2, e3) tt
                                    | inr (t', e3, _) ↦
                                        rw (e, e1, e2, e3)
                                          (with_timer-IsSized n index inside t' s' v')
                                  ]
                          ]
                  ]
          ]
