-- ===== src/Buddy.antt =====
-- The buddy allocator of kernel/mem_manage.c, lines 1 to 179, over a memory of words. `pool` is the
-- address of the array `buddy_pool.space`, so that `&buddy_pool.space[k]` is a word like any other
-- node. `none` is a run that leaves the array at index 16, or a walk longer than the memory's
-- pages.
pub mod Chain
pub mod Blocks
pub mod OneOrder
pub mod Pool
pub mod Release
pub mod Deallocate
pub mod Pages
pub mod Allocate
pub mod Init
use toy_riscv_kernel.Prelude.{
  ℕ, zero, suc, ◌+◌, ◌-◌, ◌*◌, ◌/◌, ◌%◌, ◌^◌, Bool, false, not, ◌&&◌, Option, none, some, ltb, ◌==◌,
  if◌then◌else◌,
}
use toy_riscv_kernel.Machine.{Mem, null, write, Machine, set_interrupt_status}

abbrev pub max_order : ℕ
max_order = 15

abbrev pub kernel_start : ℕ
kernel_start = 0x80000000

abbrev pub kernel_mem_size : ℕ
kernel_mem_size = 128 * 1024 * 1024

-- `PAGE_SIZE << power`
unfoldable pub block_size : ℕ → ℕ
block_size power = 4096 * 2 ^ power

-- Rounds for a walk along one list. The memory has 2 ^ 15 pages, so no list is longer.
abbrev pub rounds : ℕ
rounds = 2 ^ 15 + 1

-- `(size_t)addr & (PAGE_SIZE << power)`, as a test.
unfoldable pub is_odd : ℕ → ℕ → Bool
is_odd addr power = (addr / block_size power) % 2 == 1

-- `(size_t)addr & ~(size_t)(PAGE_SIZE << power)`
unfoldable pub remove_tag : ℕ → ℕ → ℕ
remove_tag addr power = if is_odd addr power then addr - block_size power else addr

-- The `while` of the odd case. The three pointers are `prev_prev`, `prev` and `next`.
unfoldable pub walk_odd : ℕ → Mem → ℕ → ℕ → ℕ → ℕ → Option (ℕ × ℕ × ℕ)
walk_odd zero m addr prev_prev prev next = none
walk_odd (suc fuel) m addr prev_prev prev next =
    let rest = walk_odd fuel m addr prev next (m next) in
    if not (next == null) && ltb next addr then rest else some (prev_prev, prev, next)

-- The `while` of the even case.
unfoldable pub walk_even : ℕ → Mem → ℕ → ℕ → ℕ → Option (ℕ × ℕ)
walk_even zero m addr prev next = none
walk_even (suc fuel) m addr prev next =
    let rest = walk_even fuel m addr next (m next) in
    if not (next == null) && ltb next addr then rest else some (prev, next)

-- How one order ends: the block stays in its list, or it is merged and an address goes one up.
pub data Level : Type 0 where
  kept : Mem → Level
  merged : Mem → ℕ → Level

-- After the walk of the odd case.
unfoldable pub finish_odd : Mem → ℕ → ℕ → Option (ℕ × ℕ × ℕ) → Option Level
finish_odd m addr power none = none
finish_odd m addr power (some (prev_prev, prev, next)) = some (
    if remove_tag addr power == prev
    then merged (write m prev_prev next) prev
    else kept (write (write m addr next) prev addr))

-- After the walk of the even case.
unfoldable pub finish_even : Mem → ℕ → ℕ → Option (ℕ × ℕ) → Option Level
finish_even m addr power none = none
finish_even m addr power (some (prev, next)) = some (
    if not (next == null) && (addr == remove_tag next power)
    then merged (write m prev (m next)) addr
    else kept (write (write m addr next) prev addr))

module _ (pool : ℕ) where
  -- `&buddy_pool.space[power]`
  abbrev pub space : ℕ → ℕ
  space power = pool + 8 * power

  -- `deallocate`. The first argument is 16 - power, the array's rows from `power` on. Interrupts
  -- are off while the lists change. The odd case that puts the block at the front of its list
  -- returns at once, and leaves them off.
  unfoldable pub deallocate_rows : ℕ → ℕ → ℕ → Machine → Option Machine
  deallocate_rows zero addr power s = none
  deallocate_rows (suc rows) addr power s =
      let (off, old) = set_interrupt_status false s in
      if addr == null
      then some s
      else if s.mem (space power) == null
      then some (record { mem = write (write s.mem (space power) addr) addr null; sie = old })
      else if is_odd addr power && ltb addr (s.mem (space power))
      then some
          (record off { mem = write (write s.mem addr (s.mem (space power))) (space power) addr })
      else elim (if is_odd addr power
          then finish_odd s.mem addr power (
              walk_odd rounds s.mem addr (space power) (s.mem (space power))
                (s.mem (s.mem (space power))))
          else finish_even s.mem addr power
              (walk_even rounds s.mem addr (space power) (s.mem (space power)))) [
                | none ↦ none
                | some (kept m) ↦ some (record { mem = m; sie = old })
                | some (merged m up_addr) ↦
                    elim (deallocate_rows rows up_addr (power + 1) (record off { mem = m })) [
                      | none ↦ none
                      | some t ↦ some (record t { sie = old })
                    ]
              ]

  unfoldable pub deallocate : ℕ → ℕ → Machine → Option Machine
  unfolding deallocate_rows
  deallocate addr power s = deallocate_rows (16 - power) addr power s

  -- The search of `allocate`: the block taken, its order and the memory without it, or `none` where
  -- `level` has passed the last order. The first argument is 16 - level.
  unfoldable pub take_block : ℕ → ℕ → Mem → Option (ℕ × ℕ × Mem)
  take_block zero level m = none
  take_block (suc rows) level m =
      let rest = take_block rows (level + 1) m in
      if m (space level) == null
      then rest
      else some (m (space level), level, write m (space level) (m (m (space level))))

  -- The splitting loop, for `count` = level - power rounds: the upper half goes back each time.
  unfoldable pub split_block : ℕ → ℕ → ℕ → Machine → Option Machine
  split_block zero addr power s = some s
  split_block (suc count) addr power s =
      elim (deallocate (addr + block_size (power + count)) (power + count) s) [
        | none ↦ none
        | some t ↦ split_block count addr power t
      ]

  -- `allocate`: the new machine and the address, `null` if no block is large enough.
  unfoldable pub allocate : ℕ → Machine → Option (Machine × ℕ)
  unfolding take_block split_block
  allocate power s = elim (take_block (16 - power) power s.mem) [
    | none ↦ some (s, null)
    | some (addr, level, m) ↦ elim (split_block (level - power) addr power (record s { mem = m })) [
      | none ↦ none
      | some t ↦ some (t, addr)
    ]
  ]
