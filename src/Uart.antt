-- ===== src/Uart.antt =====
-- The transmitter of kernel/uart.c: its ring of 32 bytes and the two counters. The status register
-- is a list of readings, `true` where the transmitter can take a byte; after the list it cannot.
-- The locks of kernel/spinlock.h are empty.
pub mod Fifo
use toy_riscv_kernel.Prelude.{
  ℕ, ◌+◌, ◌-◌, ◌%◌, ◌^◌, Bool, not, Option, none, some, List, [], ◌∷◌, ◌==◌, if◌then◌else◌,
}
use Prim.Native.Nat.{bit_or}
use toy_riscv_kernel.Machine.{write}

-- UART_TX_BUF_SIZE
abbrev pub uart_tx_buf_size : ℕ
uart_tx_buf_size = 32

pub record Uart : Type 0 where
  pub uart_tx_buf : ℕ → ℕ
  pub uart_tx_w : ℕ
  pub uart_tx_r : ℕ

-- What is written to the transmit register, oldest first.
unfoldable pub uart_start : List Bool → Uart → Uart × List ℕ
uart_start [] u = (u, [])
uart_start (idle ∷ readings) u =
    let c = u.uart_tx_buf (u.uart_tx_r % uart_tx_buf_size) in
    let (u', sent) = uart_start readings (record u { uart_tx_r = (u.uart_tx_r + 1) % 2 ^ 64 }) in
    if u.uart_tx_w == u.uart_tx_r
    then (u, [])
    else if not idle
    then (u, [])
    else (u', (c % 256) ∷ sent)

-- `none` is the wait for space in a full buffer, or the endless loop after a panic.
unfoldable pub uart_putc : Bool → List Bool → ℕ → Uart → Option (Uart × List ℕ)
uart_putc panicked readings c u =
    if panicked
    then none
    else if u.uart_tx_w == (u.uart_tx_r + uart_tx_buf_size) % 2 ^ 64
    then none
    else some (
        uart_start readings (record {
          uart_tx_buf = write u.uart_tx_buf (u.uart_tx_w % uart_tx_buf_size) (c % 256);
          uart_tx_w = (u.uart_tx_w + 1) % 2 ^ 64;
          uart_tx_r = u.uart_tx_r;
        }))

-- What is sent by `uart_putc_sync`; `none` is a wait that no reading ends, or the endless loop
-- after a panic.
unfoldable pub uart_putc_sync : Bool → List Bool → ℕ → Option (List ℕ)
uart_putc_sync panicked [] c = none
uart_putc_sync panicked (idle ∷ readings) c =
    let rest = uart_putc_sync panicked readings c in
    if panicked then none else if idle then some ((c % 256) ∷ []) else rest

-- The writes of `uart_init`, each the number of a register and its value.
unfoldable pub uart_init : List (ℕ × ℕ)
uart_init = (1, 0) ∷ (3, 128) ∷ (0, 3) ∷ (1, 0) ∷ (3, 3) ∷ (2, bit_or 1 6) ∷ (1, bit_or 2 1) ∷ []

-- The bytes that wait at the receiver. A byte is taken, or the result is -1 as a uint32.
unfoldable pub uart_getc : List ℕ → List ℕ × ℕ
uart_getc [] = ([], 2 ^ 32 - 1)
uart_getc (c ∷ waiting) = (waiting, c % 256)

-- The input loop of `uart_intr`, which throws the bytes away.
unfoldable pub drop_input : List ℕ → List ℕ
drop_input [] = []
drop_input (c ∷ waiting) =
    let rest = drop_input waiting in
    if (uart_getc (c ∷ waiting)).1 == 2 ^ 32 - 1 then waiting else rest

unfoldable pub uart_intr : List Bool → List ℕ → Uart → (Uart × List ℕ) × List ℕ
uart_intr readings waiting u = (uart_start readings u, drop_input waiting)
