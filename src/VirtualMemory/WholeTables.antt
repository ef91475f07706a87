-- ===== src/VirtualMemory/WholeTables.antt =====
-- Whole page tables of kernel/virtual_memory.c: the kernel's own, and the release of a user's.
use Prim.Native.Nat.{bit_or}
use toy_riscv_kernel.Registers.{Registers, write_satp}
use toy_riscv_kernel.Prelude.{
  ◌>>=◌, ◌/◌, ℕ, zero, suc, ◌+◌, ◌-◌, ◌*◌, ◌%◌, ◌^◌, ◌≤◌, ◌≡◌, ◌⊎◌, Option, none, some, List, [],
  ◌∷◌, arith, ◌==◌, if◌then◌else◌,
}
use toy_riscv_kernel.Machine.{null, Machine}
use toy_riscv_kernel.Buddy.{block_size, allocate, deallocate}
use toy_riscv_kernel.VirtualMemory.{
  page_size, max_va, pte_to_pa, is_valid, minus_one, clear_page, map_page, unmap_page,
  kernel_map_pages,
}
use toy_riscv_kernel.VirtualMemory.Sections.{copy_area, power_of_pages}

-- One call of `kernel_map_pages`
pub record Region : Type 0 where
  pub va : ℕ
  pub pa : ℕ
  pub size : ℕ
  pub permission : ℕ

abbrev pub rw_permission : ℕ
rw_permission = 6

abbrev pub rx_permission : ℕ
rx_permission = 10

-- The calls of `make_kernel_pagetable`: the test device, the UART, the disk, the interrupt
-- controller, the kernel's text, its data and the memory, and the trampoline.
unfoldable pub kernel_regions : ℕ → ℕ → List Region
kernel_regions etext trampoline =
    record { va = 1048576; pa = 1048576; size = page_size; permission = rw_permission }
    ∷ record { va = 268435456; pa = 268435456; size = page_size; permission = rw_permission }
    ∷ record { va = 268439552; pa = 268439552; size = page_size; permission = rw_permission }
    ∷ record { va = 201326592; pa = 201326592; size = 4194304; permission = rw_permission }
    ∷ record {
      va = 2147483648;
      pa = 2147483648;
      size = etext - 2147483648;
      permission = rx_permission;
    }
    ∷ record { va = etext; pa = etext; size = 2281701376 - etext; permission = rw_permission }
    ∷ record {
      va = max_va - page_size;
      pa = trampoline;
      size = page_size;
      permission = rx_permission;
    }
    ∷ []

-- MAKE_SATP, where SATP_SV39 is the bit 63
abbrev pub make_satp : ℕ → ℕ
make_satp pagetable = bit_or (2 ^ 63) (pagetable / 2 ^ 12)

module _ (pool : ℕ) where
  unfoldable pub map_regions : ℕ → List Region → Machine → Option Machine
  map_regions pagetable [] s = some s
  map_regions pagetable (r ∷ regions) s =
      elim (kernel_map_pages pool pagetable r.va r.pa r.size r.permission s) [
        | none ↦ none
        | some t ↦ map_regions pagetable regions t
      ]

  -- The address is the new value of `kernel_pagetable`.
  unfoldable pub make_kernel_pagetable : ℕ → ℕ → Machine → Option (Machine × ℕ)
  make_kernel_pagetable etext trampoline s = elim (allocate pool 0 s) [
    | none ↦ none
    | some (t, page) ↦
        let mapped : Option (Machine × ℕ) =
          elim (map_regions page (kernel_regions etext trampoline)
            (record t { mem = clear_page t.mem page })) [ none ↦ none | some u ↦ some (u, page) ] in
        if page == null then none else mapped
  ]

  -- `sfence_vma` flushes what the model does not cache.
  unfoldable pub init_kernel_pagetable :
      (etext trampoline : ℕ) → Machine → Registers → Option (Machine × Registers × ℕ)
  init_kernel_pagetable etext trampoline s registers = do
    made ← make_kernel_pagetable etext trampoline s
    some (made.0, write_satp (make_satp made.1) registers, made.1)

  -- The loop of `free_pagetable_internal` over the entries from `i` on; `free` is its call of
  -- itself.
  unfoldable pub free_entries :
      (ℕ → Machine → Option Machine) → ℕ → ℕ → ℕ → Machine → Option Machine
  free_entries free zero i pagetable s = some s
  free_entries free (suc count) i pagetable s =
      let pte = s.mem (pagetable + 8 * i) in
      let skipped = free_entries free count (i + 1) pagetable s in
      let freed : Option Machine = elim (free (pte_to_pa pte) s) [
        | none ↦ none
        | some t ↦ free_entries free count (i + 1) pagetable t
      ] in
      if is_valid pte then freed else skipped

  -- At level 1 the loop does nothing, so that the tables of the last level stay allocated.
  unfoldable pub free_pagetable_internal : ℕ → ℕ → Machine → Option Machine
  free_pagetable_internal zero pagetable s = deallocate pool pagetable 0 s
  free_pagetable_internal (suc zero) pagetable s = deallocate pool pagetable 0 s
  free_pagetable_internal (suc (suc level)) pagetable s =
      elim (free_entries (free_pagetable_internal (suc level)) 512 0 pagetable s) [
        | none ↦ none
        | some t ↦ deallocate pool pagetable 0 t
      ]

  unfoldable pub free_pagetable : ℕ → Machine → Option Machine
  free_pagetable pagetable = free_pagetable_internal 2 pagetable

  -- The undoing loop of `map_memory`, for the pages from `j` on.
  unfoldable pub unmap_from : ℕ → ℕ → ℕ → Machine → Option Machine
  unmap_from zero j pagetable s = some s
  unmap_from (suc count) j pagetable s = elim (unmap_page pool pagetable (j * page_size) s) [
    | none ↦ none
    | some (t, _) ↦ unmap_from count (j + 1) pagetable t
  ]

  -- The loop of `map_memory`, for `count` pages after the first `i`. The result of `map_page` is
  -- compared to -1.
  unfoldable pub map_memory_from : ℕ → ℕ → ℕ → ℕ → ℕ → ℕ → Machine → Option (Machine × ℕ)
  map_memory_from zero i pagetable pages power permission s = some (s, block_size power)
  map_memory_from (suc count) i pagetable pages power permission s =
      elim (map_page pool pagetable (i * page_size) (pages + i * page_size) permission s) [
        | none ↦ none
        | some (t, code) ↦
            let rest = map_memory_from count (i + 1) pagetable pages power permission t in
            let back : Option (Machine × ℕ) = elim (unmap_from i 0 pagetable t) [
              | none ↦ none
              | some u ↦ elim (deallocate pool pages power u) [ none ↦ none | some v ↦ some (v, 0) ]
            ] in
            if code == minus_one then back else rest
      ]

  -- What is copied where no pages are allocated goes to address 0 on.
  unfoldable pub map_memory : ℕ → ℕ → ℕ → ℕ → Machine → Option (Machine × ℕ)
  map_memory pagetable src size permission s = elim (power_of_pages size) [
    | none ↦ none
    | some power ↦ elim (allocate pool power s) [
      | none ↦ none
      | some (t, pages) ↦
          map_memory_from (2 ^ power) 0 pagetable pages power permission
            (record t { mem = copy_area t.mem pages src size })
    ]
  ]

-- The pages of two regions are different.
abbrev pub Apart : Region → Region → Type 0
Apart r q = (r.va + r.size ≤ q.va) ⊎ (q.va + q.size ≤ r.va)

abbrev pub ApartFrom : Region → List Region → Type 0
ApartFrom r [] = Unit
ApartFrom r (q ∷ qs) = Apart r q × ApartFrom r qs

abbrev pub PairwiseApart : List Region → Type 0
PairwiseApart [] = Unit
PairwiseApart (r ∷ rs) = ApartFrom r rs × PairwiseApart rs

abbrev pub AllPaged : List Region → Type 0
AllPaged [] = Unit
AllPaged (r ∷ rs) =
    (r.va % page_size ≡ 0) × (r.size % page_size ≡ 0) × (r.va + r.size ≤ max_va) × AllPaged rs

-- Where the kernel's text ends at a page inside the memory, no two of the regions that
-- `make_kernel_pagetable` maps have an address in common, and each is made
-- of whole pages below MAXVA.
pub kernel_regions-PairwiseApart :
    (etext trampoline : ℕ)
    → 2147483648 ≤ etext
    → etext ≤ 2281701376
    → etext % page_size ≡ 0
    → PairwiseApart (kernel_regions etext trampoline) × AllPaged (kernel_regions etext trampoline)
unfolding kernel_regions
kernel_regions-PairwiseApart etext trampoline low high aligned = ground arith
