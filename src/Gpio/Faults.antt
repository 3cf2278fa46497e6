-- ===== src/Gpio/Faults.antt =====
-- The register vector of gpio/gpio.cpp holds one byte, and no access that passes the checks fits it.
use sc_platform.Prelude.{
  ℕ, ◌+◌, ◌*◌, ◌/◌, ◌≤◌, ◌<◌, ◌≡◌, refl, ap, ◌∙◌, inl, inr, Bool, true, false, none, some, List,
  arith, ltb, ◌==◌, if◌then◌else◌, Bool-cases, Option-cases, length, get_elem?, length-set, Outcome,
  done, aborted, undefined, ◌>>=◌,
}
use sc_platform.Common.{Payload, Command, read, write, ignore, Style, u64}
use sc_platform.Memory.{Env, copy_in, copy_out, is_ignore}
use sc_platform.Registers.{Configured}
use sc_platform.Registers.Laws.{some_case}
use sc_platform.Gpio.{Logic, Gpio, Regs, initial_registers, as_flag, get_flag, put_flag}
use sc_platform.Gpio.Actions.{read_actions, read_flag, sampled}
use sc_platform.Gpio.Transport.{
  Device, payload_error, serve_write, serve_read, serve, transport, transport_if, call,
}

payload_error-whole :
    (m : Configured Device) (trans : Payload) (style : Style)
    → payload_error m.settings trans trans.data_length style ≡ none
    → 0 < trans.data_length
    → 4 ≤ trans.data_length
unfolding payload_error
payload_error-whole m trans style fine some_bytes = ground arith

payload_error-room :
    (m : Configured Device) (trans : Payload) (style : Style)
    → payload_error m.settings trans trans.data_length style ≡ none
    → ltb (u64 (trans.address + trans.data_length)) m.settings.target_size ≡ true
unfolding payload_error
payload_error-room m trans style fine = ground arith

copy_in-beyond :
    (adr len : ℕ) (mem buffer : List ℕ)
    → length mem < adr + len
    → copy_in adr len mem buffer ≡ undefined
unfolding copy_in
copy_in-beyond adr len mem buffer h = ground arith

copy_out-beyond :
    (adr len : ℕ) (mem buffer : List ℕ)
    → length mem < adr + len
    → copy_out adr len mem buffer ≡ undefined
unfolding copy_out
copy_out-beyond adr len mem buffer h = ground arith

-- The outcome is undefined, or a value of which `P` holds.
abbrev Breaks : {A : Type 0} → (A → Type 0) → Outcome A → Type 0
Breaks P (done a) = P a
Breaks P aborted = ⊥
Breaks P undefined = Unit

>>=-Breaks :
    {A B : Type 0} (P : A → Type 0) (Q : B → Type 0) (m : Outcome A) (f : A → Outcome B)
    → Breaks P m
    → ((a : A) → P a → Breaks Q (f a))
    → Breaks Q (m >>= f)
>>=-Breaks P Q (done a) f h k = k a h
>>=-Breaks P Q aborted f h k = absurd h
>>=-Breaks P Q undefined f h k = tt

Breaks-undefined : {A : Type 0} (m : Outcome A) → Breaks (λ _. ⊥) m → m ≡ undefined
Breaks-undefined (done a) h = absurd h
Breaks-undefined aborted h = absurd h
Breaks-undefined undefined h = refl

undefined-Breaks : {A : Type 0} (P : A → Type 0) (m : Outcome A) → m ≡ undefined → Breaks P m
undefined-Breaks P (done a) h = cc
undefined-Breaks P aborted h = cc
undefined-Breaks P undefined h = tt

as_flag-Breaks : (v : ℕ) → Breaks (λ _. Unit {0}) (as_flag v)
unfolding as_flag
as_flag-Breaks v = elim (Bool-cases (v == 0)) [
  | inl zeroed ↦ rw zeroed tt
  | inr other ↦ elim (Bool-cases (v == 1)) [
    | inl one ↦ rw (other, one) tt
    | inr odd ↦ rw (other, odd) tt
  ]
]

get_flag-Breaks : (i : ℕ) (bytes : List ℕ) → Breaks (λ _. Unit {0}) (get_flag i bytes)
unfolding get_flag
get_flag-Breaks i bytes = elim (Option-cases (get_elem? bytes i)) [
  | inl missing ↦ rw missing tt
  | inr (v, e) ↦ rw e (as_flag-Breaks v)
]

put_flag-length :
    (i : ℕ) (b : Bool) (bytes : List ℕ)
    → Breaks (λ bs. length bs ≡ length bytes) (put_flag i b bytes)
unfolding put_flag
put_flag-length i b bytes = elim (Bool-cases (ltb i (length bytes))) [
  | inl inside ↦ rw inside (length-set bytes i (if b then 1 else 0))
  | inr outside ↦ rw outside tt
]

chosen :
    (i : ℕ) (g : Gpio) (r : Regs)
    → Breaks (λ _. Unit {0}) (if i == 8 then get_flag 8 g.registers else done (read_flag i r))
chosen i g r = elim (Bool-cases (i == 8)) [
  | inl eight ↦ rw eight (get_flag-Breaks 8 g.registers)
  | inr other ↦ rw other tt
]

read_actions-length :
    (levels : ℕ → Logic) (address : ℕ) (g : Gpio)
    → Breaks (λ g'. length g'.registers ≡ length g.registers) (read_actions levels address g)
unfolding read_actions
read_actions-length levels address g =
    let Q : Gpio → Type 0 = λ g'. length g'.registers ≡ length g.registers in
    let i = address / 8 in
    elim (Bool-cases (ltb i 13)) [
      | inl known ↦ rw known (
          >>=-Breaks (λ _. Unit {0}) Q _ _ (chosen i g (sampled levels i g.regs))
            (λ v _.
              >>=-Breaks (λ bs. length bs ≡ length g.registers) Q (put_flag i v g.registers) _
                (put_flag-length i v g.registers) (λ bs same. same)))
      | inr not_known ↦ rw not_known refl
    ]

by_command :
    {A : Type 0} (f : Command → Outcome A) (c : Command)
    → is_ignore c ≡ false
    → f write ≡ undefined
    → f read ≡ undefined
    → f c ≡ undefined
by_command f read acts w r = r
by_command f write acts w r = w
by_command f ignore acts w r = cc

module _ (levels : ℕ → Logic) (env : Env) (m : Configured Device) (trans : Payload)
    (small : m.bank.0.registers ≡ initial_registers) (long : 4 ≤ trans.data_length) where
  serve_write-undefined :
      (ptr : List ℕ) (delay : ℕ)
      → trans.bytes ≡ some ptr
      → serve_write levels env m trans delay ≡ undefined
  unfolding serve_write
  serve_write-undefined ptr delay holds =
      let beyond : length m.bank.0.registers < trans.address + trans.data_length =
        omega (arith, ap length small) in
      rw (holds, copy_in-beyond trans.address trans.data_length m.bank.0.registers ptr beyond)

  serve_read-undefined :
      (ptr : List ℕ) (delay : ℕ)
      → trans.bytes ≡ some ptr
      → serve_read levels env m trans delay ≡ undefined
  unfolding serve_read
  serve_read-undefined ptr delay holds = Breaks-undefined (serve_read levels env m trans delay) (
      >>=-Breaks (λ g'. length g'.registers ≡ length m.bank.0.registers) (λ _. ⊥)
        (read_actions levels trans.address m.bank.0) _
        (read_actions-length levels trans.address m.bank.0)
        (λ g' same.
          let beyond : length g'.registers < trans.address + trans.data_length =
            omega (arith, ap length small) in
          rw (holds, copy_out-beyond trans.address trans.data_length g'.registers ptr beyond) tt))

  transport-undefined :
      (ptr : List ℕ) (delay : ℕ)
      → trans.bytes ≡ some ptr
      → ltb (u64 (trans.address + trans.data_length)) m.settings.target_size ≡ true
      → is_ignore trans.command ≡ false
      → transport levels env m trans delay ≡ undefined
  unfolding transport serve
  transport-undefined ptr delay holds room acts = rw room (
      by_command (serve levels env m trans (delay + env.period * m.settings.addr_clocks))
        trans.command acts
        (serve_write-undefined ptr (delay + env.period * m.settings.addr_clocks) holds)
        (serve_read-undefined ptr (delay + env.period * m.settings.addr_clocks) holds))

-- With the vector that the constructor makes, an access of any length but 0 that passes the checks, in either
-- coding style, has no defined behaviour, if it reads or writes: it runs out of the vector.
pub call_undefined :
    (levels : ℕ → Logic) (env : Env) (style : Style) (m : Configured Device) (trans : Payload)
    (delay : ℕ) (ptr : List ℕ)
    → m.bank.0.registers ≡ initial_registers
    → trans.bytes ≡ some ptr
    → payload_error m.settings trans trans.data_length style ≡ none
    → is_ignore trans.command ≡ false
    → 0 < trans.data_length
    → call levels env style m trans delay ≡ undefined
unfolding call transport_if
call_undefined levels env style m trans delay ptr small holds fine acts some_bytes =
    some_case trans.bytes holds _
    ∙ ap (transport_if levels env m trans delay) fine
    ∙ transport-undefined levels env m trans small
        (payload_error-whole m trans style fine some_bytes) ptr delay holds
        (payload_error-room m trans style fine) acts
