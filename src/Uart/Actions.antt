-- ===== src/Uart/Actions.antt =====
-- `Uart_module::write_actions` and `Uart_module::read_actions` of uart/uart.cpp. `clocks` is the number of clocks of
-- a character at a baud rate and a number of bits, which the source computes with a frequency in `double`.
use sc_platform.Prelude.{
  ℕ, ◌+◌, ◌-◌, ◌%◌, ◌^◌, Bool, true, false, not, ◌&&◌, ◌||◌, List, [], ◌∷◌, ◌++◌, ltb, ◌==◌,
  if◌then◌else◌, length, get_elem?, Outcome, done, ◌>>=◌, defined,
}
use sc_platform.Pic.{load, store, bit}
use sc_platform.Uart.{
  Ctrl, Direction, Uart, Signals, quiet, baud_rates, sizeof_baud, get_bits, put_bits, as_bit, send,
}

abbrev pub running_bit : ℕ
running_bit = 23

-- The fields of a control word that a write takes, and the number of bits of a character.
unfoldable pub take_ctrl : ℕ → Ctrl → Ctrl
unfolding get_bits
take_ctrl v c = record c {
  configok = true;
  fifoerr = bit 25 v;
  dataerr = bit 24 v;
  running = bit running_bit v;
  enadma = bit 22 v;
  enaintr = bit 21 v;
  databits = bit 20 v;
  stopbits = bit 19 v;
  parity = bit 18 v;
  odd = bit 17 v;
  baudrate = get_bits 0 8 v;
}

unfoldable pub char_bits : Ctrl → ℕ
char_bits c =
    8 - (if c.databits then 8 else 7) + (if c.parity then 0 else 1) + (if c.stopbits then 1 else 2)

-- The control word of either direction: the channel, and whether the interrupt port is notified. The guard
-- compares the number of the rate with the size of the array in bytes.
unfoldable pub write_ctrl : (ℕ → ℕ → ℕ) → ℕ → ℕ → Direction → Outcome (Direction × Bool)
unfolding take_ctrl char_bits
write_ctrl clocks ports v c0 =
    let ctrl = take_ctrl v c0.ctrl in
    let c = record c0 { ctrl = ctrl; bits = char_bits ctrl } in
    if ltb ctrl.baudrate sizeof_baud
    then (do
      rate ← defined (get_elem? baud_rates ctrl.baudrate)
      done (record c { clocks = clocks rate (char_bits ctrl) }, false))
    else if ctrl.running
    then done (record c { ctrl = record ctrl { configok = false } }, ports == 1)
    else done (c, false)

-- Whether the new setting starts or stops the direction; `was` is the control word before.
abbrev pub starts : ℕ → Ctrl → Bool
starts was c = c.running && not (bit running_bit was)

abbrev pub stops : ℕ → Ctrl → Bool
stops was c = bit running_bit was && not c.running

unfoldable pub write_txctrl : (ℕ → ℕ → ℕ) → ℕ → Uart → Outcome (Uart × Signals)
unfolding write_ctrl send
write_txctrl clocks ports s = do
  v ← load 0 s.registers
  r ← write_ctrl clocks ports v s.tx
  let go = r.0.ctrl.configok && starts s.tx.ctrl_word r.0.ctrl
  let halt = r.0.ctrl.configok && stops s.tx.ctrl_word r.0.ctrl
  sent ← (if go then send r.0 else done r.0)
  done (
    record s { tx = record sent { ctrl_word = v } },
    record quiet { interrupt = r.1; txevent = halt },
  )

unfoldable pub write_rxctrl : (ℕ → ℕ → ℕ) → ℕ → Uart → Outcome (Uart × Signals)
unfolding write_ctrl
write_rxctrl clocks ports s = do
  v ← load 16 s.registers
  r ← write_ctrl clocks ports v s.rx
  let c = r.0.ctrl
  let event = c.configok && (starts s.rx.ctrl_word c || stops s.rx.ctrl_word c)
  done (
    record s { rx = record r.0 { ctrl_word = v } },
    record quiet { interrupt = r.1; rxevent = event },
  )

-- The mask of the source keeps the bits that are not data.
unfoldable pub masked : Bool → ℕ → ℕ
masked seven byte = byte - byte % (if seven then 128 else 256)

unfoldable pub write_txdata : Uart → Outcome (Uart × Signals)
unfolding send masked
write_txdata s = do
  byte ← defined (get_elem? s.registers 12)
  (if length s.tx.fifo == s.tx.capacity
      then done (
        record s { txdata = byte; tx = record s.tx { dropped = (s.tx.dropped + 1) % 2 ^ 32 } },
        quiet,
      )
      else (do
        let kept = masked s.tx.ctrl.databits byte
        sent ← send (record s.tx { fifo = s.tx.fifo ++ kept ∷ [] })
        done (record s { txdata = kept; tx = sent }, quiet)))

-- A word of the registers that is only kept.
unfoldable pub keep : ℕ → (ℕ → Uart) → List ℕ → Outcome (Uart × Signals)
unfolding load
keep offset to bytes = do v ← load offset bytes; done (to v, quiet)

-- The switch, on the address with its low two bits cleared. An address that has no case and the read-only registers are only
-- reported.
unfoldable pub write_actions : (ℕ → ℕ → ℕ) → ℕ → ℕ → Uart → Outcome (Uart × Signals)
unfolding write_txctrl write_rxctrl write_txdata keep put_bits
write_actions clocks ports address s =
    let reg = address - address % 4 in
    let bytes = s.registers in
    if reg == 0
    then write_txctrl clocks ports s
    else if reg == 4
    then keep 4 (λ v. record s { tx = record s.tx { dmap = v } }) bytes
    else if reg == 8
    then keep 8 (λ v. record s { tx = record s.tx { dmac = v } }) bytes
    else if reg == 12
    then write_txdata s
    else if reg == 16
    then write_rxctrl clocks ports s
    else if reg == 20
    then keep 20 (λ v. record s { rx = record s.rx { dmap = v } }) bytes
    else if reg == 24
    then keep 24 (λ v. record s { rx = record s.rx { dmac = v } }) bytes
    else if reg == 40
    then keep 40 (λ v. record s { misc = put_bits 0 8 v s.misc }) bytes
    else done (s, quiet)

-- The fields of a control word that a read gives, in their order; the last one is at the position of the one before.
unfoldable pub ctrl_fields : Ctrl → ℕ → ℕ
unfolding put_bits
ctrl_fields c v0 =
    let v1 = put_bits 26 1 (as_bit c.configok) v0 in
    let v2 = put_bits 25 1 (as_bit c.fifoerr) v1 in
    let v3 = put_bits 24 1 (as_bit c.dataerr) v2 in
    let v4 = put_bits 23 1 (as_bit c.running) v3 in
    let v5 = put_bits 22 1 (as_bit c.enadma) v4 in
    let v6 = put_bits 21 1 (as_bit c.enaintr) v5 in
    let v7 = put_bits 20 1 (as_bit c.databits) v6 in
    let v8 = put_bits 19 1 (as_bit c.stopbits) v7 in
    let v9 = put_bits 18 1 (as_bit c.parity) v8 in
    let v10 = put_bits 17 1 (as_bit c.odd) v9 in
    let v11 = put_bits 16 1 (as_bit c.depthend) v10 in
    put_bits 0 8 c.baudrate (put_bits 0 8 c.fifoused v11)

unfoldable pub read_ctrl : ℕ → Ctrl → List ℕ → Outcome (List ℕ)
unfolding ctrl_fields load store
read_ctrl offset c bytes = do v ← load offset bytes; store offset (ctrl_fields c v) bytes

unfoldable pub read_txctrl : Uart → Outcome Uart
unfolding read_ctrl
read_txctrl s = do
  let ctrl = record s.tx.ctrl { depthend = length s.tx.fifo == s.tx.capacity }
  bytes ← read_ctrl 0 ctrl s.registers
  done (record s { registers = bytes; tx = record s.tx { ctrl = ctrl } })

unfoldable pub read_rxctrl : Uart → Outcome Uart
unfolding read_ctrl
read_rxctrl s = do
  let ctrl = record s.rx.ctrl { depthend = length s.rx.fifo == 0 }
  bytes ← read_ctrl 16 ctrl s.registers
  done (record s { registers = bytes; rx = record s.rx { ctrl = ctrl } })

unfoldable pub give : ℕ → ℕ → Uart → Outcome Uart
unfolding store
give offset v s = do bytes ← store offset v s.registers; done (record s { registers = bytes })

-- The oldest byte that was received, or 0xFF.
unfoldable pub read_rxdata : Uart → Outcome Uart
unfolding give
read_rxdata s = elim s.rx.fifo [
  | [] ↦ give 28 0xFF s
  | x ∷ xs ↦
      give 28 x (record s { rx = record s.rx { fifo = xs; count = (s.rx.count + 1) % 2 ^ 32 } })
]

-- The byte of a FIFO that the debug register shows: inside the capacity, whether it is there or not.
unfoldable pub peek : ℕ → Uart → Outcome ℕ
unfolding get_bits
peek v s =
    if bit 7 v && ltb (get_bits 0 7 v) s.rx.capacity
    then defined (get_elem? s.rx.fifo (get_bits 0 7 v))
    else if ltb (get_bits 0 7 v) s.tx.capacity
    then defined (get_elem? s.tx.fifo (get_bits 0 7 v))
    else done 0xFF

unfoldable pub read_misc : Uart → Outcome Uart
unfolding peek load put_bits give
read_misc s = do
  v ← load 40 s.registers
  let v' = put_bits 16 8 s.tx.bits (put_bits 24 8 s.rx.bits v)
  shown ← peek v' s
  give 40 (put_bits 8 8 shown v') s

unfoldable pub read_actions : ℕ → Uart → Outcome Uart
unfolding read_txctrl read_rxctrl give read_rxdata read_misc
read_actions address s =
    let reg = address - address % 4 in
    if reg == 0
    then read_txctrl s
    else if reg == 4
    then give 4 s.tx.dmap s
    else if reg == 8
    then give 8 s.tx.dmac s
    else if reg == 12
    then give 12 0xFF s
    else if reg == 16
    then read_rxctrl s
    else if reg == 20
    then give 20 s.rx.dmap s
    else if reg == 24
    then give 24 s.rx.dmac s
    else if reg == 28
    then read_rxdata s
    else if reg == 32
    then give 32 s.tx.clocks s
    else if reg == 36
    then give 36 s.rx.clocks s
    else if reg == 40
    then read_misc s
    else done s
