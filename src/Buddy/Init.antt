-- ===== src/Buddy/Init.antt =====
-- `init_mem_manage` of kernel/mem_manage.c. `start_addr` is `get_kernel_end()`, and `count` is the
-- C variable `index` plus one, so that `index >= 0` is a match on it.
pub mod Cover
pub mod Loops
use toy_riscv_kernel.Prelude.{ℕ, zero, suc, ◌+◌, ◌-◌, ◌/◌, leb, if◌then◌else◌}
use toy_riscv_kernel.Machine.{Mem, null, write}
use toy_riscv_kernel.Buddy.{max_order, kernel_start, kernel_mem_size, block_size, space}

module _ (pool start_addr : ℕ) where
  -- The first loop: `index`, `buddy_size` and the memory where it ends.
  unfoldable pub halve_loop : ℕ → ℕ → Mem → ℕ × ℕ × Mem
  halve_loop zero buddy_size m = (zero, buddy_size, m)
  halve_loop (suc index) buddy_size m =
      let next = halve_loop index (buddy_size / 2) (
        write (write m (space pool index) (kernel_start + buddy_size)) (kernel_start + buddy_size)
          null) in
      if leb (start_addr - kernel_start) buddy_size then next else (suc index, buddy_size, m)

  -- The second loop. After the last round `tmp` is not used again.
  unfoldable pub place_loop : ℕ → ℕ → Mem → Mem
  place_loop zero tmp m = m
  place_loop (suc zero) tmp m =
      if leb start_addr tmp
      then write (write m (space pool 0) tmp) tmp null
      else write m (space pool 0) null
  place_loop (suc (suc index)) tmp m =
      let free =
        place_loop (suc index) (tmp - block_size index)
          (write (write m (space pool (suc index)) tmp) tmp null) in
      let used =
        place_loop (suc index) (tmp + block_size index) (write m (space pool (suc index)) null) in
      if leb start_addr tmp then free else used

  unfoldable pub init_mem_manage : Mem → Mem
  init_mem_manage m =
      let (index, buddy_size, m') =
        halve_loop max_order (kernel_mem_size / 2) (write m (space pool max_order) null) in
      place_loop index (kernel_start + buddy_size) m'
