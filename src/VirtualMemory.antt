-- ===== src/VirtualMemory.antt =====
-- The Sv39 page tables of kernel/virtual_memory.c and kernel/riscv_defs.h. `pagetable[i]` is the
-- word at pagetable + 8 i. `none` is a panic, and an `int` result -1 is its 32-bit pattern.
pub mod Entries
pub mod Tables
pub mod Sections
pub mod WholeTables
use toy_riscv_kernel.Prelude.{
  ℕ, zero, suc, ◌+◌, ◌-◌, ◌*◌, ◌/◌, ◌%◌, ◌^◌, Bool, true, false, not, ◌&&◌, ◌||◌, Option, none,
  some, ltb, leb, ◌==◌, if◌then◌else◌,
}
use Prim.Native.Nat.{bit_or}
use toy_riscv_kernel.Machine.{Mem, null, write, Machine}
use toy_riscv_kernel.Buddy.{allocate, deallocate}

abbrev pub page_size : ℕ
page_size = 4096

-- MAXVA
abbrev pub max_va : ℕ
max_va = 2 ^ 38

abbrev pub pte_v : ℕ
pte_v = 1

-- PGROUNDDOWN
unfoldable pub page_round_down : ℕ → ℕ
page_round_down a = a / 4096 * 4096

-- PGOFFSET
abbrev pub page_offset : ℕ → ℕ
page_offset va = va % 4096

-- PA2PTE, in 64 bits
unfoldable pub pa_to_pte : ℕ → ℕ
pa_to_pte pa = pa / 2 ^ 12 * 2 ^ 10 % 2 ^ 64

-- PTE2PA, in 64 bits
unfoldable pub pte_to_pa : ℕ → ℕ
pte_to_pa pte = pte / 2 ^ 10 * 2 ^ 12 % 2 ^ 64

-- PTE_FLAGS
abbrev pub pte_flags : ℕ → ℕ
pte_flags pte = pte % 2 ^ 10

-- PX: the index of nine bits for a level.
unfoldable pub px : ℕ → ℕ → ℕ
px level va = va / 2 ^ (12 + 9 * level) % 512

-- `pte & PTE_V`
abbrev pub is_valid : ℕ → Bool
is_valid pte = pte % 2 == 1

abbrev pub minus_one : ℕ
minus_one = 2 ^ 32 - 1

-- `memset(page, 0, PGSIZE)`
unfoldable pub clear_page : Mem → ℕ → Mem
clear_page m p b = if leb p b && ltb b (p + 4096) then 0 else m b

-- `&pagetable[PX(level, va)]`
unfoldable pub entry_at : ℕ → ℕ → ℕ → ℕ
entry_at pagetable level va = pagetable + 8 * px level va

module _ (pool : ℕ) where
  -- The loop of `pagetable_entry` from `level` down, and the address that it returns.
  unfoldable pub entry_from : Bool → ℕ → ℕ → ℕ → Machine → Option (Machine × ℕ)
  entry_from alloc zero pagetable va s = some (s, entry_at pagetable 0 va)
  entry_from alloc (suc level) pagetable va s =
      let pte = entry_at pagetable (suc level) va in
      let down = entry_from alloc level (pte_to_pa (s.mem pte)) va s in
      let fresh : Option (Machine × ℕ) = elim (allocate pool 1 s) [
        | none ↦ none
        | some (t, page) ↦
            let next = entry_from alloc level page va (record t {
              mem = write (clear_page t.mem page) pte (bit_or (pa_to_pte page) pte_v);
            }) in
            if page == null then some (t, null) else next
      ] in
      if is_valid (s.mem pte) then down else if alloc then fresh else some (s, null)

  unfoldable pub pagetable_entry : ℕ → ℕ → Bool → Machine → Option (Machine × ℕ)
  pagetable_entry pagetable va alloc s =
      if leb max_va va then none else entry_from alloc 2 pagetable va s

  -- What `pagetable_entry` with `alloc` 0 gives has the memory unchanged.
  unfoldable pub physical_address : ℕ → ℕ → Machine → Option ℕ
  physical_address pagetable va s = elim (pagetable_entry pagetable va false s) [
    | none ↦ none
    | some (t, pte) ↦ some (
        if (pte == null) || not (is_valid (t.mem pte))
        then 0
        else (pte_to_pa (t.mem pte) + page_offset va) % 2 ^ 64)
  ]

  -- 0, or 1 where a table cannot be allocated.
  unfoldable pub map_page : ℕ → ℕ → ℕ → ℕ → Machine → Option (Machine × ℕ)
  map_page pagetable va pa permission s =
      elim (pagetable_entry pagetable (page_round_down va) true s) [
        | none ↦ none
        | some (t, pte) ↦
            if pte == null
            then some (t, 1)
            else if is_valid (t.mem pte)
            then none
            else some (
              record t {
                mem =
                    write t.mem pte
                      (bit_or (bit_or (pa_to_pte (page_round_down pa)) permission) pte_v);
              },
              0,
            )
      ]

  -- 0, or 1 where there is no table; a panic where the page is not mapped, or its entry has no flag
  -- but `PTE_V`.
  unfoldable pub unmap_page : ℕ → ℕ → Machine → Option (Machine × ℕ)
  unmap_page pagetable va s = elim (pagetable_entry pagetable (page_round_down va) false s) [
    | none ↦ none
    | some (t, pte) ↦
        if pte == null
        then some (t, 1)
        else if not (is_valid (t.mem pte))
        then none
        else if pte_flags (t.mem pte) == pte_v
        then none
        else some (record t { mem = write t.mem pte 0 }, 0)
  ]

  -- The loop of `kernel_map_pages` for `count` pages. Its test for -1 never holds: `map_page` gives
  -- 1.
  unfoldable pub map_pages_from : ℕ → ℕ → ℕ → ℕ → ℕ → Machine → Option Machine
  map_pages_from zero pagetable va pa permission s = some s
  map_pages_from (suc count) pagetable va pa permission s =
      elim (map_page pagetable va pa permission s) [
        | none ↦ none
        | some (t, result) ↦
            let rest = map_pages_from count pagetable (va + 4096) (pa + 4096) permission t in
            if result == minus_one then none else rest
      ]

  unfoldable pub kernel_map_pages : ℕ → ℕ → ℕ → ℕ → ℕ → Machine → Option Machine
  kernel_map_pages pagetable va pa size permission =
      map_pages_from ((size + 4095) / 4096) pagetable (page_round_down va) (page_round_down pa)
        permission

  unfoldable pub create_void_pagetable : Machine → Option (Machine × ℕ)
  create_void_pagetable s = elim (allocate pool 1 s) [
    | none ↦ none
    | some (t, page) ↦
        if page == null
        then some (t, null)
        else some (record t { mem = clear_page t.mem page }, page)
  ]

  -- The loop of `free_memory` for `count` pages.
  unfoldable pub free_memory_from : ℕ → ℕ → ℕ → Machine → Option Machine
  free_memory_from zero pagetable va s = some s
  free_memory_from (suc count) pagetable va s = elim (physical_address pagetable va s) [
    | none ↦ none
    | some pa ↦ elim (deallocate pool pa 0 s) [
      | none ↦ none
      | some t ↦ elim (unmap_page pagetable va t) [
        | none ↦ none
        | some (u, _) ↦ free_memory_from count pagetable (va + 4096) u
      ]
    ]
  ]

  unfoldable pub free_memory : ℕ → ℕ → ℕ → Machine → Option Machine
  free_memory pagetable start size =
      free_memory_from ((size + 4095) / 4096) pagetable (page_round_down start)
