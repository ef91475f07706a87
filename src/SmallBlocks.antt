-- ===== src/SmallBlocks.antt =====
-- `kmalloc` and `kfree` of kernel/mem_manage.c, lines 222 to 332, over the buddy allocator. A
-- `struct block_meta` at `b` has its words `power`, `count`, `free`, `next` and `prev` at b, b + 8,
-- ..., and a `struct header` at `h` has `size` at h and `block` at h + 8.
pub mod Bump
use toy_riscv_kernel.Prelude.{
  ℕ, zero, suc, ◌+◌, ◌-◌, ◌*◌, ◌/◌, ◌%◌, ◌^◌, Bool, true, false, Option, none, some, ltb, ◌==◌,
  if◌then◌else◌,
}
use toy_riscv_kernel.Machine.{Mem, null, write, Machine, set_interrupt_status}
use toy_riscv_kernel.Buddy.{block_size, allocate, deallocate}

-- The machine, and the globals `block_list_head` and `block_list_tail`; with them goes the global
-- `stack_to_remove_next` of kernel/process.c, which these functions leave as it is.
pub record Blocks : Type 0 where
  pub machine : Machine
  pub head : ℕ
  pub tail : ℕ
  pub stack_to_remove_next : ℕ

abbrev pub power_at : ℕ → ℕ
power_at b = b

abbrev pub count_at : ℕ → ℕ
count_at b = b + 8

abbrev pub free_at : ℕ → ℕ
free_at b = b + 16

abbrev pub next_at : ℕ → ℕ
next_at b = b + 24

abbrev pub prev_at : ℕ → ℕ
prev_at b = b + 32

abbrev pub meta_size : ℕ
meta_size = 40

abbrev pub header_size : ℕ
header_size = 16

abbrev pub u64 : ℕ → ℕ
u64 n = n % 2 ^ 64

-- The block's size less the address, not the offset, where its free space starts.
unfoldable pub remained_size : Mem → ℕ → ℕ
remained_size m b = u64 (block_size (m (power_at b)) + 2 ^ 64 - u64 (m (free_at b)))

unfoldable pub align : ℕ → ℕ
align size = u64 (size + 7) / 8 * 8

unfoldable pub gross_size : ℕ → ℕ
unfolding align
gross_size size = u64 (align size + header_size)

unfoldable pub tail_not_enough : Mem → ℕ → ℕ → Bool
tail_not_enough m tail size =
    if tail == null then true else ltb (remained_size m tail) (gross_size size)

unfoldable pub init_block : ℕ → ℕ → Mem → Mem
init_block b power m =
    write
      (write (write (write (write m (power_at b) power) (count_at b) 0) (free_at b) (b + meta_size))
        (next_at b) null)
      (prev_at b) null

-- `while ((PAGE_SIZE << power) < need_size) power++;`. From 2 ^ 52 pages on the shift is 0.
unfoldable pub power_for : ℕ → ℕ → ℕ → Option ℕ
power_for zero need_size power = none
power_for (suc fuel) need_size power =
    let rest = power_for fuel need_size (power + 1) in
    if ltb (u64 (block_size power)) need_size then rest else some power

-- A new block goes behind the tail.
unfoldable pub append_block : ℕ → Blocks → Blocks
append_block b s =
    let m = write s.machine.mem (prev_at b) s.tail in
    if s.head == null
    then record s { machine = record (s.machine) { mem = m }; head = b; tail = b }
    else record s {
      machine = record (s.machine) { mem = write (write m (next_at s.tail) b) (prev_at b) s.tail };
      tail = b;
    }

-- The `else` branch of `kmalloc`, which takes the object off the tail's free space.
unfoldable pub take_object : ℕ → Blocks → Blocks × ℕ
take_object size s =
    let m = s.machine.mem in
    let header = m (free_at s.tail) in
    let m1 = write m (free_at s.tail) (u64 (header + gross_size size)) in
    let m2 = write m1 (count_at s.tail) (u64 (m1 (count_at s.tail) + 1)) in
    let m3 = write (write m2 header (align size)) (header + 8) s.tail in
    (record s { machine = record (s.machine) { mem = m3 } }, u64 (header + header_size))

module _ (pool : ℕ) where
  -- `kmalloc`, which calls itself after it has added a block; `rounds` bounds the calls. If there
  -- is no block the result is null, and the interrupts stay off.
  unfoldable pub kmalloc_rounds : ℕ → ℕ → Blocks → Option (Blocks × ℕ)
  kmalloc_rounds zero size s = none
  kmalloc_rounds (suc rounds) size s =
      let (off, old) = set_interrupt_status false s.machine in
      elim (tail_not_enough s.machine.mem s.tail size) [
        | false ↦
            let (t, ret) = take_object size (record s { machine = off }) in
            some (record t { machine = record (t.machine) { sie = old } }, ret)
        | true ↦ elim (power_for 52 (u64 (meta_size + gross_size size)) 0) [
          | none ↦ none
          | some power ↦ elim (allocate pool power off) [
            | none ↦ none
            | some (t, b) ↦
                let again = kmalloc_rounds rounds size (
                  let u =
                    append_block b
                      (record s { machine = record t { mem = init_block b power t.mem } }) in
                  record u { machine = record (u.machine) { sie = old } }) in
                if b == null then some (record s { machine = t }, null) else again
          ]
        ]
      ]

  unfoldable pub kmalloc : ℕ → Blocks → Option (Blocks × ℕ)
  kmalloc = kmalloc_rounds 2

  -- A block whose last object goes is taken out of the list and given back.
  unfoldable pub drop_block : ℕ → Blocks → Option Blocks
  drop_block b s =
      let m = s.machine.mem in
      let head = if b == s.head then m (next_at b) else s.head in
      let tail = if b == s.tail then m (prev_at b) else s.tail in
      let m1 =
        if m (prev_at b) == null then m else write m (next_at (m (prev_at b))) (m (next_at b)) in
      let m2 =
        if m1 (next_at b) == null
        then m1
        else write m1 (prev_at (m1 (next_at b))) (m1 (prev_at b)) in
      elim (deallocate pool b (m2 (power_at b)) (record (s.machine) { mem = m2 })) [
        | none ↦ none
        | some t ↦ some (record s { machine = t; head = head; tail = tail })
      ]

  unfoldable pub kfree : ℕ → Blocks → Option Blocks
  kfree addr s =
      if addr == null
      then some s
      else let (off, old) = set_interrupt_status false s.machine in
        let header = addr - header_size in
        let b = s.machine.mem (header + 8) in
        let m = write s.machine.mem (count_at b) (u64 (s.machine.mem (count_at b) + 2 ^ 64 - 1)) in
        if m (count_at b) == 0
        then elim (drop_block b (record s { machine = record off { mem = m } })) [
          | none ↦ none
          | some t ↦ some (record t { machine = record (t.machine) { sie = old } })
        ]
        else let n =
            if m (free_at b) == u64 (addr + m header) then write m (free_at b) header else m in
          some (record s { machine = record off { mem = n; sie = old } })
