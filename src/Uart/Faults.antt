-- ===== src/Uart/Faults.antt =====
-- What uart/uart.cpp does with a byte to send and with a baud rate.
use sc_platform.Prelude.{
  ℕ, ◌≤◌, ◌<◌, ◌≡◌, refl, ap, ◌≢◌, ◌↔◌, ◌⊎◌, inl, inr, true, false, some, [], ◌∷◌, ◌++◌, arith, ltb,
  ◌==◌, Bool-cases, length, get_elem?, get_elem?-lt, get_elem?-ge, Outcome, done, aborted,
  undefined, IsDefined, if-IsDefined,
}
use sc_platform.Uart.{virtual, Direction, Uart, Signals, quiet, baud_rates, get_bits, send}
use sc_platform.Uart.Actions.{take_ctrl, write_ctrl, write_txdata, masked}

-- A transmitter with a port bound leaves its FIFO to the thread.
send_real : (c : Direction) → c.speed ≢ virtual → send c ≡ done c
unfolding send
send_real c real = ground (arith, real)

-- A byte that is written while the FIFO is empty and the transmitter has no port bound makes `send` pop the empty FIFO, which is not defined.
pub write_txdata_undefined :
    (s : Uart) (byte : ℕ)
    → get_elem? s.registers 12 ≡ some byte
    → s.tx.speed ≡ virtual
    → s.tx.fifo ≡ []
    → 0 < s.tx.capacity
    → write_txdata s ≡ undefined
unfolding write_txdata
write_txdata_undefined s byte there speed clear room =
    let free : (length s.tx.fifo == s.tx.capacity) ≡ false = rw clear (ground arith) in
    rw (there, free, clear, speed) refl

defined-ne_undefined : {A : Type 0} (m : Outcome A) → IsDefined (λ _. Unit) m → m ≢ undefined
defined-ne_undefined (done a) h e = cc
defined-ne_undefined aborted h e = cc
defined-ne_undefined undefined h e = h

write_ctrl_undefined :
    (clocks : ℕ → ℕ → ℕ) (ports v : ℕ) (c : Direction)
    → ltb (get_bits 0 8 v) 60 ≡ true
    → 15 ≤ get_bits 0 8 v
    → write_ctrl clocks ports v c ≡ undefined
unfolding write_ctrl
write_ctrl_undefined clocks ports v c f high =
    rw (f, get_elem?-ge baud_rates (get_bits 0 8 v) high) refl

-- The setting of a control word is defined exactly where the number of its baud rate is one of the array or at least the array's
-- size in bytes: the guard lets through the numbers from 15 to 59, which lie beyond the array.
pub write_ctrl_iff :
    (clocks : ℕ → ℕ → ℕ) (ports v : ℕ) (c : Direction)
    → (write_ctrl clocks ports v c ≢ undefined) ↔ ((get_bits 0 8 v < 15) ⊎ (60 ≤ get_bits 0 8 v))
unfolding write_ctrl
write_ctrl_iff clocks ports v c = (
  λ h. elim (Bool-cases (ltb (get_bits 0 8 v) 15)) [
    | inl e ↦ inl (ground arith)
    | inr e ↦ elim (Bool-cases (ltb (get_bits 0 8 v) 60)) [
      | inr f ↦ inr (ground arith)
      | inl f ↦ absurd (h (write_ctrl_undefined clocks ports v c f (ground arith)))
    ]
  ],
  λ h. elim h [
    | inl low ↦
        let (rate, e) = get_elem?-lt baud_rates (get_bits 0 8 v) low in
        let f : ltb (get_bits 0 8 v) 60 ≡ true = ground arith in
        defined-ne_undefined (write_ctrl clocks ports v c) (rw (f, e) tt)
    | inr high ↦
        let f : ltb (get_bits 0 8 v) 60 ≡ false = ground arith in
        defined-ne_undefined (write_ctrl clocks ports v c)
          (rw f (if-IsDefined (λ _. Unit) (take_ctrl v c.ctrl).running _ _ (λ _. tt) (λ _. tt)))
  ],
)

-- With eight data bits, what is written to a transmitter whose FIFO has room and that has a port bound does not matter: the byte 0 is queued for any byte.
pub write_txdata_zero :
    (s : Uart) (byte : ℕ)
    → get_elem? s.registers 12 ≡ some byte
    → byte < 256
    → s.tx.ctrl.databits ≡ false
    → s.tx.speed ≢ virtual
    → length s.tx.fifo < s.tx.capacity
    → (r : Uart × Signals) × (write_txdata s ≡ done r) × (r.0.tx.fifo ≡ s.tx.fifo ++ 0 ∷ [])
unfolding write_txdata
write_txdata_zero s byte there small eight real room =
    let free : (length s.tx.fifo == s.tx.capacity) ≡ false = ground arith in
    let none_left : masked false byte ≡ 0 = unfold masked in omega arith in
    let queue = record s.tx { fifo = s.tx.fifo ++ masked s.tx.ctrl.databits byte ∷ [] } in
    let sent : send queue ≡ done queue = send_real queue real in
    let zeroed : masked s.tx.ctrl.databits byte ≡ 0 = rw eight none_left in
    (
      (record s { txdata = masked s.tx.ctrl.databits byte; tx = queue }, quiet),
      rw (there, free, sent) refl,
      ap (λ z. s.tx.fifo ++ z ∷ []) zeroed,
    )
