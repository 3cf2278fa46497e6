-- ===== src/Tests/Uarts.antt =====
-- The UART of uart/uart.cpp with its registers in place.
use sc_platform.Uart.Parity.{is_odd, total_ones, odd_data, even_data, odd_data-total_ones}
use sc_platform.Prelude.{
  ℕ, ◌*◌, ◌≤◌, ◌<◌, ◌≡◌, ◌≢◌, ◌↔◌, ◌⊎◌, true, false, not, List, [], ◌∷◌, arith, set, take,
  replicate, done, undefined,
}
use sc_platform.Uart.{Speed, fast, Direction, Uart, get_bits}
use sc_platform.Uart.Actions.{write_ctrl}
use sc_platform.Uart.Faults.{write_ctrl_iff}

abbrev direction : Speed → Direction
direction speed = record {
  ctrl_word = 0;
  dmap = 0;
  dmac = 0;
  clocks = 0;
  ctrl = record {
    configok = true;
    fifoerr = false;
    dataerr = false;
    running = false;
    enadma = false;
    enaintr = false;
    databits = false;
    stopbits = false;
    parity = false;
    odd = false;
    depthend = false;
    fifoused = 0;
    baudrate = 0;
  };
  speed = speed;
  fifo = [];
  capacity = 16;
  bits = 0;
  count = 0;
  dropped = 0;
}

-- The byte 0x41 is in the data register.
abbrev uart : Speed → Uart
uart speed = record {
  registers = set (replicate 48 0) 12 0x41;
  tx = direction speed;
  rx = direction speed;
  txdata = 0;
  misc = 0;
}

-- The rate 20 is not in the array.
write_ctrl_iff_example :
    (write_ctrl (λ rate bits. rate * bits) 1 20 (direction fast) ≢ undefined)
    ↔ ((get_bits 0 8 20 < 15) ⊎ (60 ≤ get_bits 0 8 20))
write_ctrl_iff_example = write_ctrl_iff (λ rate bits. rate * bits) 1 20 (direction fast)

abbrev hello : List ℕ
hello = 72 ∷ 101 ∷ 108 ∷ 108 ∷ 111 ∷ []

odd_data-total_ones_example :
    (odd_data hello 5 ≡ done (is_odd (total_ones (take 5 hello))))
    × (even_data hello 5 ≡ done (not (is_odd (total_ones (take 5 hello)))))
odd_data-total_ones_example =
    odd_data-total_ones hello 5
      (omega arith, (omega arith, (omega arith, (omega arith, (omega arith, tt))))) (omega arith)
