-- ===== src/Machine.antt =====
-- What the kernel's memory code works on: 64-bit words at addresses, and the interrupt-enable bit
-- of `sstatus` with the helper of kernel/riscv.h that sets it.
use toy_riscv_kernel.Prelude.{ℕ, ◌≡◌, ◌≢◌, Bool, arith, ◌==◌, if◌then◌else◌}

abbrev pub Mem : Type 0
Mem = ℕ → ℕ

abbrev pub null : ℕ
null = 0

unfoldable pub write : Mem → ℕ → ℕ → Mem
write m a v b = if b == a then v else m b

pub record Machine : Type 0 where
  pub mem : Mem
  pub sie : Bool

-- Gives the old status back.
unfoldable pub set_interrupt_status : Bool → Machine → Machine × Bool
set_interrupt_status status s = (record s { sie = status }, s.sie)

module _ (m : Mem) (a v : ℕ) where
  pub write-same : write m a v a ≡ v
  unfolding write
  write-same = ground arith

  pub write-other : (b : ℕ) → b ≢ a → write m a v b ≡ m b
  unfolding write
  write-other b ne = ground arith
