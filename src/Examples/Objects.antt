-- ===== src/Examples/Objects.antt =====
-- Objects taken from a block at 0x80004000, and a page mapped at 0x1000 by tables at 0x80010000.
use toy_riscv_kernel.Prelude.{
  ℕ, ◌+◌, ◌*◌, ◌^◌, ◌≤◌, ◌<◌, ◌≡◌, refl, ◌≢◌, true, false, none, some, arith,
}
use toy_riscv_kernel.Machine.{write, Machine}
use toy_riscv_kernel.Buddy.{block_size, allocate, take_block, space}
use toy_riscv_kernel.SmallBlocks.{Blocks, gross_size, align, kmalloc, kfree}
use toy_riscv_kernel.SmallBlocks.Bump.{IsTail, kmalloc_overrun, kmalloc_apart, kfree-kmalloc}
use toy_riscv_kernel.VirtualMemory.{
  pagetable_entry, entry_from, page_round_down, page_offset, px, is_valid, pte_to_pa, entry_at,
  physical_address, map_page, unmap_page,
}
use toy_riscv_kernel.VirtualMemory.Tables.{HasWalk, map_page-translates, unmap_page-map_page}

abbrev block : ℕ
block = 2147500032

-- One object is there, and the free space starts at the given offset.
abbrev with_free : ℕ → Blocks
with_free offset = record {
  machine = record {
    mem = write (write (λ _. 0) (block + 8) 1) (block + 16) (block + offset);
    sie = true;
  };
  head = block;
  tail = block;
  stack_to_remove_next = 0;
}

with_free-IsTail : (offset : ℕ) → 40 ≤ offset → offset ≤ 4096 → IsTail (with_free offset)
unfolding write
with_free-IsTail offset low high = record {
  low = omega arith;
  power = omega arith;
  free_low = omega arith;
  free_high = omega arith;
}

gross_size-small : gross_size 200 ≡ 216
unfolding gross_size align
gross_size-small = refl

overrun :
    block + block_size ((with_free 4000).machine.mem block)
    < (with_free 4000).machine.mem (block + 16) + gross_size 200
unfolding write block_size
overrun = omega (arith, gross_size-small)

kmalloc_overrun_example :
    (t : Blocks) × (ret : ℕ) × (kmalloc 0 200 (with_free 4000) ≡ some (t, ret))
    × (ret ≡ (with_free 4000).machine.mem (block + 16) + 16)
    × (block + block_size ((with_free 4000).machine.mem block) < ret + align 200)
kmalloc_overrun_example =
    kmalloc_overrun (with_free 4000) (with_free-IsTail 4000 (omega arith) (omega arith)) 200
      (omega arith) 0 overrun

room : (with_free 80).machine.mem (block + 16) + gross_size 200 < 2 ^ 62
unfolding write
room = omega (arith, gross_size-small)

kmalloc_apart_example :
    (t : Blocks) × (first : ℕ) × (u : Blocks) × (second : ℕ) × (kmalloc 0 200 (with_free 80)
      ≡ some (t, first))
    × (kmalloc 0 31 t ≡ some (u, second))
    × (first + align 200 + 16 ≤ second)
kmalloc_apart_example =
    kmalloc_apart (with_free 80) (with_free-IsTail 80 (omega arith) (omega arith)) 200 (omega arith)
      0 31 (omega arith) room

some_object : 0 < (with_free 80).machine.mem (block + 8)
unfolding write
some_object = omega arith

few_objects : (with_free 80).machine.mem (block + 8) < 2 ^ 63
unfolding write
few_objects = omega arith

kfree-kmalloc_example :
    (t : Blocks) × (ret : ℕ) × (u : Blocks) × (kmalloc 0 200 (with_free 80) ≡ some (t, ret))
    × (kfree 0 ret t ≡ some u)
    × ((a : ℕ)
        → a ≢ (with_free 80).machine.mem (block + 16)
        → a ≢ (with_free 80).machine.mem (block + 16) + 8
        → u.machine.mem a ≡ (with_free 80).machine.mem a)
    × (u.machine.sie ≡ true)
    × (u.head ≡ block)
    × (u.tail ≡ block)
kfree-kmalloc_example =
    kfree-kmalloc (with_free 80) (with_free-IsTail 80 (omega arith) (omega arith)) 200 (omega arith)
      0 some_object few_objects room

abbrev root : ℕ
root = 2147549184

abbrev leaf : ℕ
leaf = root + 8192 + 8

abbrev tables : Machine
tables = record {
  mem = write (write (λ _. 0) root (524305 * 1024 + 1)) (root + 4096) (524306 * 1024 + 1);
  sie = true;
}

tables-HasWalk : HasWalk tables.mem root 4660 root (root + 4096) leaf
unfolding write entry_at px pte_to_pa
tables-HasWalk = record {
  low = omega arith;
  at_top = refl;
  at_mid = refl;
  at_leaf = refl;
  top_valid = refl;
  mid_valid = refl;
  nonnull = omega arith;
  apart_top = omega arith;
  apart_mid = omega arith;
}

leaf_free : is_valid (tables.mem leaf) ≡ false
unfolding write
leaf_free = refl

leaf_zero : tables.mem leaf ≡ 0
unfolding write
leaf_zero = refl

map_page-translates_example :
    (t : Machine) × (map_page 0 root 4660 2147500032 22 tables ≡ some (t, 0))
    × ((va' : ℕ)
        → page_round_down va' ≡ page_round_down 4660
        → physical_address 0 root va' t ≡ some (page_round_down 2147500032 + page_offset va'))
    × ((b : ℕ) → b ≢ leaf → t.mem b ≡ tables.mem b)
    × (t.sie ≡ true)
map_page-translates_example =
    map_page-translates 0 root 4660 root (root + 4096) leaf tables tables-HasWalk 2147500032 22
      (omega arith) (omega arith) leaf_free

unmap_page-map_page_example :
    elim (map_page 0 root 4660 2147500032 22 tables) [
      | none ↦ none
      | some (t, _) ↦ unmap_page 0 root 4660 t
    ]
    ≡ some (tables, 0)
unmap_page-map_page_example =
    unmap_page-map_page 0 root 4660 root (root + 4096) leaf tables tables-HasWalk 2147500032 22
      (omega arith) (omega arith) (omega arith) leaf_zero

-- No table is there, and no page for one is free.
abbrev empty_memory : Machine
empty_memory = record { mem = λ _. 0; sie = true }

no_page : map_page 100 root 4660 2147500032 22 empty_memory ≡ some (empty_memory, 1)
unfolding map_page pagetable_entry entry_from page_round_down entry_at px allocate take_block space
    pte_to_pa
no_page = refl
