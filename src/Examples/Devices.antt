-- ===== src/Examples/Devices.antt =====
-- The transmitter, traps and system calls, and strings.
use toy_riscv_kernel.Prelude.{
  ℕ, ◌-◌, ◌≡◌, refl, true, false, some, List, [], ◌∷◌, ◌++◌, arith, ◌==◌, if◌then◌else◌,
}
use toy_riscv_kernel.Machine.{Machine}
use toy_riscv_kernel.Uart.{Uart, uart_putc}
use toy_riscv_kernel.Uart.Fifo.{IsRing, queued, uart_putc-fifo}
use toy_riscv_kernel.Trap.{load_page_fault, store_page_fault, user_trap}
use toy_riscv_kernel.Trap.Faults.{load-falls_through}
use toy_riscv_kernel.Strings.Texts.{IsString}
use toy_riscv_kernel.VirtualMemory.{page_round_down}
use toy_riscv_kernel.VirtualMemory.WholeTables.{
  kernel_regions, PairwiseApart, AllPaged, kernel_regions-PairwiseApart,
}
use toy_riscv_kernel.Process.Stack.{MemorySection, shared_memory}

-- Two bytes wait, at the end and at the start of the ring.
abbrev transmitter : Uart
transmitter = record {
  uart_tx_buf = λ i. if i == 31 then b'h' else b'i';
  uart_tx_w = 65;
  uart_tx_r = 63;
}

transmitter-IsRing : IsRing transmitter
transmitter-IsRing = record {
  behind = omega arith;
  fits = omega arith;
  low = omega arith;
  bytes = λ i. ground arith;
}

uart_putc-fifo_example :
    (u : Uart) × (sent : List ℕ) × (uart_putc false (true ∷ []) b'!' transmitter ≡ some (u, sent))
    × (sent ++ queued u ≡ b'h' ∷ b'i' ∷ b'!' ∷ [])
    × IsRing u
uart_putc-fifo_example =
    uart_putc-fifo (true ∷ []) b'!' transmitter transmitter-IsRing (omega arith) (omega arith)

abbrev user_stack : MemorySection
user_stack = record { start = shared_memory - 4096; size = 4096 }

abbrev empty : Machine
empty = record { mem = λ _. 0; sie = true }

user_stack-aligned : page_round_down user_stack.start ≡ user_stack.start
unfolding page_round_down
user_stack-aligned = refl

load-falls_through_example :
    user_trap 0 0 22 load_page_fault (shared_memory - 100) empty user_stack
    ≡ user_trap 0 0 22 store_page_fault (shared_memory - 100) empty user_stack
load-falls_through_example =
    load-falls_through 0 0 22 (shared_memory - 100) empty user_stack user_stack-aligned
      (omega arith)

-- "ab" at 10 and "ac" at 20
abbrev bytes : ℕ → ℕ
bytes a =
    if a == 10
    then b'a'
    else if a == 11
    then b'b'
    else if a == 20
    then b'a'
    else if a == 21
    then b'c'
    else 0

first-IsString : IsString bytes 10 (b'a' ∷ b'b' ∷ [])
first-IsString = (refl, omega arith, omega arith, (refl, omega arith, omega arith, refl))

second-IsString : IsString bytes 20 (b'a' ∷ b'c' ∷ [])
second-IsString = (refl, omega arith, omega arith, (refl, omega arith, omega arith, refl))

kernel_regions-PairwiseApart_example :
    PairwiseApart (kernel_regions 2147516416 2147512320)
    × AllPaged (kernel_regions 2147516416 2147512320)
kernel_regions-PairwiseApart_example =
    kernel_regions-PairwiseApart 2147516416 2147512320 (omega arith) (omega arith) refl
