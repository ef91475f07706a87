-- ===== src/VirtualMemory/Sections.antt =====
-- Memory sections of kernel/virtual_memory.c: the copies into fresh pages for a user. `memcpy` of a
-- page copies its words.
use toy_riscv_kernel.Prelude.{
  ℕ, zero, suc, ◌+◌, ◌-◌, ◌*◌, ◌/◌, ◌%◌, ◌^◌, ◌≤◌, ◌<◌, ◌≡◌, refl, sym, subst, inl, inr, Bool, true,
  false, not, ◌&&◌, ◌||◌, Option, none, some, arith, ltb, leb, ◌==◌, if◌then◌else◌, ltb→lt,
  Bool-cases,
}
use Prim.{absurd}
use toy_riscv_kernel.Machine.{Mem, null, Machine}
use toy_riscv_kernel.Buddy.{block_size, allocate, deallocate}
use toy_riscv_kernel.VirtualMemory.{
  page_size, max_va, pte_flags, minus_one, clear_page, pagetable_entry, physical_address, map_page,
  unmap_page,
}

-- `memcpy(dest, src, size)` between areas that do not overlap
unfoldable pub copy_area : Mem → ℕ → ℕ → ℕ → Mem
copy_area m dest src size b =
    if leb dest b && ltb b (dest + size) then m (src + (b - dest)) else m b

-- The loop of `power_of_pages`. PGSIZE is an `int`, so that its shift by 19 or more is undefined:
-- `none` is a loop that gets there.
unfoldable pub power_from : ℕ → ℕ → ℕ → Option ℕ
power_from zero size power = none
power_from (suc fuel) size power =
    let rest = power_from fuel size (power + 1) in
    if ltb (block_size power) size then rest else some power

unfoldable pub power_of_pages : ℕ → Option ℕ
power_of_pages size = power_from 19 size 0

module _ (pool : ℕ) where
  -- The undoing loop of `copy_memory_with_pagetable`, from the page number `i` on.
  unfoldable pub undo_pages : ℕ → ℕ → ℕ → ℕ → ℕ → Machine → Option Machine
  undo_pages zero i source target start s = some s
  undo_pages (suc count) i source target start s =
      let va = start + i * page_size in
      elim (physical_address pool source va s) [
        | none ↦ none
        | some page ↦ elim (unmap_page pool target va s) [
          | none ↦ none
          | some (t, _) ↦ elim (deallocate pool page 0 t) [
            | none ↦ none
            | some u ↦ undo_pages count (i + 1) source target start u
          ]
        ]
      ]

  -- The loop of `copy_memory_with_pagetable`, for `count` pages after the first `i`. The result of
  -- `map_page` is compared to -1. `true` is the result 0, `false` the result -1.
  unfoldable pub copy_pages : ℕ → ℕ → ℕ → ℕ → ℕ → Machine → Option (Machine × Bool)
  copy_pages zero i source target start s = some (s, true)
  copy_pages (suc count) i source target start s =
      let va = start + i * page_size in
      elim (physical_address pool source va s) [
        | none ↦ none
        | some src ↦ elim (allocate pool 0 s) [
          | none ↦ none
          | some (t, dest) ↦
              let undone : Option (Machine × Bool) = elim (undo_pages i 0 source target start t) [
                | none ↦ none
                | some u ↦ some (u, false)
              ] in
              let copied = record t { mem = copy_area t.mem dest src page_size } in
              let mapped : Option (Machine × Bool) =
                elim (pagetable_entry pool source va false copied) [
                  | none ↦ none
                  | some (u, pte) ↦ elim (map_page pool target va dest (pte_flags (u.mem pte)) u) [
                    | none ↦ none
                    | some (v, code) ↦
                        let rest = copy_pages count (i + 1) source target start v in
                        let back : Option (Machine × Bool) =
                          elim (undo_pages i 0 source target start v) [
                            | none ↦ none
                            | some w ↦ elim (deallocate pool dest 0 w) [
                              | none ↦ none
                              | some x ↦ some (x, false)
                            ]
                          ] in
                        if code == minus_one then back else rest
                  ]
                ] in
              if src == null then none else if dest == null then undone else mapped
        ]
      ]

  unfoldable pub copy_memory_with_pagetable : ℕ → ℕ → ℕ → ℕ → Machine → Option (Machine × Bool)
  copy_memory_with_pagetable source target va_start size s =
      if not (va_start % page_size == 0) || not (size % page_size == 0)
      then none
      else if leb max_va ((va_start + size) % 2 ^ 64)
      then none
      else copy_pages (size / page_size) 0 source target va_start s

  -- `true` is the result 0, `false` the result -1.
  unfoldable pub map_page_for_user : ℕ → ℕ → ℕ → ℕ → ℕ → Machine → Option (Machine × Bool)
  map_page_for_user pagetable va src size permission s = elim (allocate pool 0 s) [
    | none ↦ none
    | some (t, page) ↦
        let copied = record t { mem = copy_area (clear_page t.mem page) page src size } in
        let mapped : Option (Machine × Bool) =
          elim (map_page pool pagetable va page permission copied) [
            | none ↦ none
            | some (u, zero) ↦ some (u, true)
            | some (u, suc _) ↦ elim (deallocate pool page 0 u) [
              | none ↦ none
              | some v ↦ some (v, false)
            ]
          ] in
        if page == null then some (t, false) else mapped
  ]

power_from-least :
    (fuel size power : ℕ)
    → size ≤ 4096 * 2 ^ (power + fuel)
    → (p : ℕ) × (power_from (suc fuel) size power ≡ some p)
      × (size ≤ block_size p)
      × ((q : ℕ) → power ≤ q → q < p → block_size q < size)
unfolding power_from block_size
power_from-least zero size power fits =
    let last : power + 0 ≡ power = omega arith in
    let enough : size ≤ 4096 * 2 ^ power = subst (λ n. size ≤ 4096 * 2 ^ n) last fits in
    (power, ground (arith, enough), enough, λ q low high. absurd (omega arith))
power_from-least (suc fuel) size power fits = elim (Bool-cases (ltb (block_size power) size)) [
  | inl small ↦
      let next : power + suc fuel ≡ power + 1 + fuel = omega arith in
      let (p, run, enough, least) =
        power_from-least fuel size (power + 1) (subst (λ n. size ≤ 4096 * 2 ^ n) next fits) in
      (
        p,
        rw (power_from, small) run,
        enough,
        λ q low high. elim (Bool-cases (q == power)) [
          | inl first ↦
              let e : q ≡ power = ground (arith, first) in
              subst (λ n. block_size n < size) (sym e) (ltb→lt (block_size power) size small)
          | inr later ↦ least q (ground (arith, low, later)) high
        ],
      )
  | inr large ↦ (
    power,
    rw (power_from, large) refl,
    ground (arith, large),
    λ q low high. absurd (omega arith),
  )
]

-- For up to 2 ^ 30 bytes `power_of_pages` ends, with the least order whose block holds them.
pub power_of_pages-least :
    (size : ℕ)
    → size ≤ 2 ^ 30
    → (p : ℕ) × (power_of_pages size ≡ some p)
      × (size ≤ block_size p)
      × ((q : ℕ) → q < p → block_size q < size)
unfolding power_of_pages
power_of_pages-least size fits =
    let (p, run, enough, least) = power_from-least 18 size 0 (omega arith) in
    (p, run, enough, λ q high. least q (omega arith) high)
