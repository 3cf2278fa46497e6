-- ===== src/TimerModule/Bounds.antt =====
-- The actions of the registers in timer/timer.cpp stay inside the registers and the timers,
-- and leave their sizes.
use sc_platform.Prelude.{
  ℕ, ◌-◌, ◌/◌, ◌^◌, ◌≤◌, ◌<◌, bit_and, bit_or, inl, inr, arith, ltb, ◌==◌, Bool-cases, Outcome,
  done, aborted, undefined, ◌>>=◌, IsDefined, require-IsDefined, if-IsDefined, IsDefined-cases,
}
use sc_platform.Common.{u32}
use sc_platform.Kernel.{EventKernel, TimeArithmetic}
use sc_platform.TimerModule.{
  TimerModule, reg, put, timer_at, without_qty, status_reg, curr_hi_reg, curr_lo_reg, load_lo_reg,
  load_hi_reg, ctrlset_reg,
}
use sc_platform.TimerModule.Actions.{
  bank, offset_in_bank, set_load, write_ctrlset, write_ctrlclr, write_load_lo, write_load_hi,
  write_word, write_double, write_actions, curr_count, read_word, read_double, read_actions,
  load_of,
}
use sc_platform.TimerModule.Access.{
  IsSized, Any, reg-IsDefined, put-IsDefined, timer_at-IsDefined, with_timer-IsSized,
  get_timer_status-IsDefined, set_timer_status-IsDefined,
}

module _ (k : EventKernel) (w : TimeArithmetic) (period n index : ℕ) (inside : index < n) where
  open k use {Event}

  set_load-IsDefined :
      (cycles : ℕ) (s : TimerModule Event)
      → IsSized n s
      → IsDefined (IsSized n) (set_load k w period index cycles s)
  unfolding set_load
  set_load-IsDefined cycles s v =
      elim (IsDefined-cases Any (timer_at index s) (timer_at-IsDefined n index inside s v)) [
        | inl e ↦ rw e tt
        | inr (t, e, _) ↦ rw e (with_timer-IsSized n index inside _ s v)
      ]

  write_ctrlset-IsDefined :
      (now delay : ℕ) (s : TimerModule Event)
      → IsSized n s
      → IsDefined (IsSized n) (write_ctrlset k w period now delay index s)
  unfolding write_ctrlset
  write_ctrlset-IsDefined now delay s v =
      elim (IsDefined-cases Any _ (get_timer_status-IsDefined k n index inside now s v)) [
        | inl e ↦ rw e tt
        | inr (st, e, _) ↦
            elim (IsDefined-cases Any _
              (reg-IsDefined n index inside ctrlset_reg s v (omega arith))) [
                | inl e1 ↦ rw (e, e1) tt
                | inr (b, e1, _) ↦
                    elim (IsDefined-cases (IsSized n) _ (
                      put-IsDefined n index inside status_reg (bit_or st (without_qty b)) s v
                        (omega arith))) [
                          | inl e2 ↦ rw (e, e1, e2) tt
                          | inr (s', e2, v') ↦
                              rw (e, e1, e2)
                                (set_timer_status-IsDefined k n index inside now delay s' v')
                        ]
              ]
      ]

  write_ctrlclr-IsDefined :
      (now delay : ℕ) (s : TimerModule Event)
      → IsSized n s
      → IsDefined (IsSized n) (write_ctrlclr k w period now delay index s)
  unfolding write_ctrlclr
  write_ctrlclr-IsDefined now delay s v =
      elim (IsDefined-cases Any _ (get_timer_status-IsDefined k n index inside now s v)) [
        | inl e ↦ rw e tt
        | inr (st, e, _) ↦
            elim (IsDefined-cases Any _
              (reg-IsDefined n index inside ctrlset_reg s v (omega arith))) [
                | inl e1 ↦ rw (e, e1) tt
                | inr (b, e1, _) ↦
                    elim (IsDefined-cases (IsSized n) _ (
                      put-IsDefined n index inside status_reg
                        (bit_and st (2 ^ 32 - 1 - without_qty b)) s v (omega arith))) [
                          | inl e2 ↦ rw (e, e1, e2) tt
                          | inr (s', e2, v') ↦
                              rw (e, e1, e2)
                                (set_timer_status-IsDefined k n index inside now delay s' v')
                        ]
              ]
      ]

  write_load_lo-IsDefined :
      (s : TimerModule Event)
      → IsSized n s
      → IsDefined (IsSized n) (write_load_lo k w period index s)
  unfolding write_load_lo
  write_load_lo-IsDefined s v =
      elim (IsDefined-cases (IsSized n) _
        (put-IsDefined n index inside load_hi_reg 0 s v (omega arith))) [
          | inl e ↦ rw e tt
          | inr (s', e, v') ↦
              elim (IsDefined-cases Any _
                (reg-IsDefined n index inside status_reg s' v' (omega arith))) [
                  | inl e1 ↦ rw (e, e1) tt
                  | inr (st, e1, _) ↦
                      elim (IsDefined-cases Any _
                        (reg-IsDefined n index inside load_lo_reg s' v' (omega arith))) [
                          | inl e2 ↦ rw (e, e1, e2) tt
                          | inr (lo, e2, _) ↦ rw (e, e1, e2) (set_load-IsDefined _ s' v')
                        ]
                ]
        ]

  write_load_hi-IsDefined :
      (s : TimerModule Event)
      → IsSized n s
      → IsDefined (IsSized n) (write_load_hi k w period index s)
  unfolding write_load_hi
  write_load_hi-IsDefined s v =
      elim (IsDefined-cases Any _ (reg-IsDefined n index inside status_reg s v (omega arith))) [
        | inl e ↦ rw e tt
        | inr (st, e, _) ↦
            elim (IsDefined-cases Any _
              (reg-IsDefined n index inside load_hi_reg s v (omega arith))) [
                | inl e1 ↦ rw (e, e1) tt
                | inr (hi, e1, _) ↦
                    elim (IsDefined-cases Any _
                      (reg-IsDefined n index inside load_lo_reg s v (omega arith))) [
                        | inl e2 ↦ rw (e, e1, e2) tt
                        | inr (lo, e2, _) ↦ rw (e, e1, e2) (set_load-IsDefined _ s v)
                      ]
              ]
      ]

  write_word-IsDefined :
      (now delay offset : ℕ) (s : TimerModule Event)
      → IsSized n s
      → IsDefined (IsSized n) (write_word k w period now delay index offset s)
  unfolding write_word
  write_word-IsDefined now delay offset s v = ground (
    arith,
    set_timer_status-IsDefined k n index inside now delay s v,
    write_ctrlset-IsDefined now delay s v,
    write_ctrlclr-IsDefined now delay s v,
    write_load_lo-IsDefined s v,
    write_load_hi-IsDefined s v,
    put-IsDefined n index inside curr_hi_reg 0 s v (omega arith),
  )

  load_pair-IsDefined :
      (hi_reg lo_reg : ℕ) (s : TimerModule Event)
      → IsSized n s
      → hi_reg ≤ 28
      → lo_reg ≤ 28
      → IsDefined (IsSized n) (
          reg index hi_reg s >>= λ hi.
          reg index lo_reg s >>= λ lo. set_load k w period index (load_of k w period hi lo) s)
  load_pair-IsDefined hi_reg lo_reg s v h l =
      elim (IsDefined-cases Any _ (reg-IsDefined n index inside hi_reg s v h)) [
        | inl e ↦ rw e tt
        | inr (hi, e, _) ↦
            elim (IsDefined-cases Any _ (reg-IsDefined n index inside lo_reg s v l)) [
              | inl e1 ↦ rw (e, e1) tt
              | inr (lo, e1, _) ↦ rw (e, e1) (set_load-IsDefined _ s v)
            ]
      ]

  write_double-IsDefined :
      (offset : ℕ) (s : TimerModule Event)
      → IsSized n s
      → IsDefined (IsSized n) (write_double k w period index offset s)
  unfolding write_double
  write_double-IsDefined offset s v =
      if-IsDefined (IsSized n) (offset == load_lo_reg) _ _
        (λ _. load_pair-IsDefined load_hi_reg load_lo_reg s v (omega arith) (omega arith))
        (λ _.
          if-IsDefined (IsSized n) (offset == curr_lo_reg) _ _
            (λ _. load_pair-IsDefined curr_hi_reg curr_lo_reg s v (omega arith) (omega arith))
            (λ _. v))

  curr_count-IsDefined :
      (now delay : ℕ) (s : TimerModule Event)
      → IsSized n s
      → IsDefined Any (curr_count k w period now delay index s)
  unfolding curr_count
  curr_count-IsDefined now delay s v = ground (
    arith,
    reg-IsDefined n index inside status_reg s v (omega arith),
    timer_at-IsDefined n index inside s v,
  )

  put_value-IsDefined :
      (offset : ℕ) (m : Outcome ℕ) (f : ℕ → ℕ) (s : TimerModule Event)
      → IsSized n s
      → offset ≤ 28
      → IsDefined Any m
      → IsDefined (IsSized n) (m >>= λ v. put index offset (f v) s)
  put_value-IsDefined offset (done x) f s v h d = put-IsDefined n index inside offset (f x) s v h
  put_value-IsDefined offset aborted f s v h d = tt
  put_value-IsDefined offset undefined f s v h d = d

  read_word-IsDefined :
      (now delay offset : ℕ) (s : TimerModule Event)
      → IsSized n s
      → IsDefined (IsSized n) (read_word k w period now delay index offset s)
  unfolding read_word
  read_word-IsDefined now delay offset s v =
      let count = curr_count-IsDefined now delay s v in
      ground (
        arith,
        put_value-IsDefined status_reg _ (λ x. x) s v (omega arith)
            (get_timer_status-IsDefined k n index inside now s v),
        put_value-IsDefined curr_lo_reg _ (λ x. u32 x) s v (omega arith) count,
        put_value-IsDefined curr_hi_reg _ (λ x. u32 (x / 2 ^ 32)) s v (omega arith) count,
      )

  read_double-IsDefined :
      (now delay offset : ℕ) (s : TimerModule Event)
      → IsSized n s
      → IsDefined (IsSized n) (read_double k w period now delay index offset s)
  unfolding read_double
  read_double-IsDefined now delay offset s v = elim (Bool-cases (offset == curr_lo_reg)) [
    | inr f ↦ rw f v
    | inl t ↦ elim (IsDefined-cases Any _ (curr_count-IsDefined now delay s v)) [
      | inl e ↦ rw (t, e) tt
      | inr (c, e, _) ↦
          elim (IsDefined-cases (IsSized n) _
            (put-IsDefined n index inside curr_hi_reg (u32 (c / 2 ^ 32)) s v (omega arith))) [
              | inl e1 ↦ rw (t, e, e1) tt
              | inr (s', e1, v') ↦
                  rw (t, e, e1)
                    (put-IsDefined n index inside curr_lo_reg (u32 c) s' v' (omega arith))
            ]
    ]
  ]

module _ (k : EventKernel) (w : TimeArithmetic) (period n : ℕ) where
  open k use {Event}

  pub write_actions-IsDefined :
      (now delay address len : ℕ) (s : TimerModule Event)
      → IsSized n s
      → IsDefined (IsSized n) (write_actions k w period now delay address len s)
  unfolding write_actions
  write_actions-IsDefined now delay address len s v =
      require-IsDefined (IsSized n) (ltb (bank address) s.quantity) _ (λ inside0.
        let inside : bank address < n = ground (arith, v.count) in
        elim (IsDefined-cases Any _ (timer_at-IsDefined n (bank address) inside s v)) [
          | inl e ↦ rw e tt
          | inr (t, e, _) ↦ rw e (
              ground (
                arith,
                v,
                write_word-IsDefined k w period n (bank address) inside now delay
                    (offset_in_bank address) s v,
                write_double-IsDefined k w period n (bank address) inside (offset_in_bank address) s
                    v,
              ))
        ])

  pub read_actions-IsDefined :
      (now delay address len : ℕ) (s : TimerModule Event)
      → IsSized n s
      → IsDefined (IsSized n) (read_actions k w period now delay address len s)
  unfolding read_actions
  read_actions-IsDefined now delay address len s v =
      require-IsDefined (IsSized n) (ltb (bank address) s.quantity) _ (λ inside0.
        let inside : bank address < n = ground (arith, v.count) in
        elim (IsDefined-cases Any _ (timer_at-IsDefined n (bank address) inside s v)) [
          | inl e ↦ rw e tt
          | inr (t, e, _) ↦ rw e (
              ground (
                arith,
                v,
                read_word-IsDefined k w period n (bank address) inside now delay
                    (offset_in_bank address) s v,
                read_double-IsDefined k w period n (bank address) inside now delay
                    (offset_in_bank address) s v,
              ))
        ])
