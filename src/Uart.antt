-- ===== src/Uart.antt =====
-- uart/uart.hpp and uart/uart_reg.h: the state of `Uart_module`, its fields, and `send` of uart/uart.cpp. Its
-- registers are the bytes of 32-bit words.
pub mod Actions
pub mod Transport
pub mod Nonblocking
pub mod Faults
pub mod Parity
use sc_platform.Prelude.{
  ℕ, ◌+◌, ◌-◌, ◌*◌, ◌/◌, ◌%◌, ◌^◌, Bool, false, List, [], ◌∷◌, if◌then◌else◌, length, Outcome, done,
  undefined, ◌>>=◌, ◌>>◌,
}

pub data Speed : Type 0 where
  virtual fast slow : Speed

-- `Uart_ctrl_t`.
pub record Ctrl : Type 0 where
  pub configok : Bool
  pub fifoerr : Bool
  pub dataerr : Bool
  pub running : Bool
  pub enadma : Bool
  pub enaintr : Bool
  pub databits : Bool
  pub stopbits : Bool
  pub parity : Bool
  pub odd : Bool
  pub depthend : Bool
  pub fifoused : ℕ
  pub baudrate : ℕ

-- What the transmitter and the receiver each keep: the words of `m_uart`, the FIFO with its capacity, and the
-- counters.
pub record Direction : Type 0 where
  pub ctrl_word : ℕ
  pub dmap : ℕ
  pub dmac : ℕ
  pub clocks : ℕ
  pub ctrl : Ctrl
  pub speed : Speed
  pub fifo : List ℕ
  pub capacity : ℕ
  pub bits : ℕ
  pub count : ℕ
  pub dropped : ℕ

pub record Uart : Type 0 where
  pub registers : List ℕ
  pub tx : Direction
  pub rx : Direction
  pub txdata : ℕ
  pub misc : ℕ

-- What an access tells the other processes: the interrupt port, and the events of the two threads.
pub record Signals : Type 0 where
  pub interrupt : Bool
  pub txevent : Bool
  pub rxevent : Bool

abbrev pub quiet : Signals
quiet = record { interrupt = false; txevent = false; rxevent = false }

-- The baud rates, and the size of the array in bytes.
abbrev pub baud_rates : List ℕ
baud_rates =
    0 ∷ 110 ∷ 300 ∷ 600 ∷ 1200 ∷ 2400 ∷ 4800 ∷ 9600 ∷ 14400 ∷ 19200 ∷ 38400 ∷ 57600 ∷ 115200
    ∷ 128000 ∷ 256000 ∷ []

abbrev pub sizeof_baud : ℕ
sizeof_baud = 60

-- `GET_FIELD` and `SET_FIELD`, by the position and the width of a field.
unfoldable pub get_bits : ℕ → ℕ → ℕ → ℕ
get_bits lsb width v = v / 2 ^ lsb % 2 ^ width

unfoldable pub put_bits : ℕ → ℕ → ℕ → ℕ → ℕ
unfolding get_bits
put_bits lsb width v var = var - get_bits lsb width var * 2 ^ lsb + v % 2 ^ width * 2 ^ lsb

abbrev pub as_bit : Bool → ℕ
as_bit b = if b then 1 else 0

-- The `do` loop goes on while the FIFO is empty: it takes one byte of several, and pops an empty FIFO
-- after the last.
unfoldable pub send_virtual : List ℕ → Outcome (List ℕ)
send_virtual [] = done []
send_virtual (x ∷ []) = undefined
send_virtual (x ∷ y ∷ ys) = done (y ∷ ys)

unfoldable pub send_by : Speed → Direction → Outcome Direction
unfolding send_virtual
send_by virtual c = do
  rest ← send_virtual c.fifo
  done (record c { fifo = rest; count = (c.count + length c.fifo) % 2 ^ 32 })
send_by fast c = done c
send_by slow c = done c

unfoldable pub send : Direction → Outcome Direction
unfolding send_by
send c = elim c.fifo [ [] ↦ done c | _ ∷ _ ↦ send_by c.speed c ]
