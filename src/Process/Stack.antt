-- ===== src/Process/Stack.antt =====
-- The growth of a user stack in kernel/process.c, on the memory of the page tables. `none` is a
-- panic.
use toy_riscv_kernel.Prelude.{
  ℕ, zero, suc, ◌+◌, ◌-◌, ◌*◌, ◌/◌, ◌%◌, ◌^◌, ◌≤◌, ◌<◌, min, max, ◌≡◌, refl, sym, ◌∙◌, inl, inr,
  Bool, true, false, not, ◌&&◌, Option, none, some, List, [], ◌∷◌, arith, ltb, leb, ◌==◌,
  if◌then◌else◌, Bool-cases, Option-cases,
}
use toy_riscv_kernel.Machine.{null, Machine}
use toy_riscv_kernel.Buddy.{allocate, deallocate}
use toy_riscv_kernel.VirtualMemory.{page_size, max_va, page_round_down, clear_page, map_page}

-- SHARED_MEMORY
abbrev pub shared_memory : ℕ
shared_memory = max_va - page_size - page_size * 2

-- MIN_STACK_ADDR
abbrev pub min_stack_addr : ℕ
min_stack_addr = shared_memory - page_size * 1024

-- `struct memory_section`
pub record MemorySection : Type 0 where
  pub start : ℕ
  pub size : ℕ

-- The loop of `available_from` over the memory sections, from `max` on.
unfoldable pub available_from : List MemorySection → ℕ → ℕ
available_from [] max = max
available_from (section ∷ sections) max =
    let end = (section.start + section.size) % 2 ^ 64 in
    available_from sections (if ltb max end then end else max)

unfoldable pub within_stack_range : ℕ → Bool
within_stack_range addr = leb min_stack_addr addr && ltb addr shared_memory

module _ (pool pagetable stack_permission : ℕ) where
  -- `allocate_for_user` of one page
  unfoldable pub allocate_for_user : Machine → Option (Machine × ℕ)
  allocate_for_user s = elim (allocate pool 0 s) [
    | none ↦ none
    | some (t, addr) ↦
        if addr == null
        then some (t, null)
        else some (record t { mem = clear_page t.mem addr }, addr)
  ]

  -- `true` is the result 0, `false` the result -1.
  unfoldable pub enlarge_stack_by_a_page :
      Machine → MemorySection → Option ((Machine × MemorySection) × Bool)
  enlarge_stack_by_a_page s stack =
      let new_start = (stack.start + (2 ^ 64 - page_size)) % 2 ^ 64 in
      elim (allocate_for_user s) [
        | none ↦ none
        | some (t, page) ↦
            if page == null
            then some ((t, stack), false)
            else elim (map_page pool pagetable new_start page stack_permission t) [
              | none ↦ none
              | some (u, zero) ↦ some (
                (u, record { start = new_start; size = (stack.size + page_size) % 2 ^ 64 }),
                true,
              )
              | some (u, suc _) ↦ elim (deallocate pool page 0 u) [
                | none ↦ none
                | some v ↦ some ((v, stack), false)
              ]
            ]
      ]

  -- The loop of `try_enlarge_stack`
  unfoldable pub enlarge_times :
      ℕ → Machine → MemorySection → Option ((Machine × MemorySection) × Bool)
  enlarge_times zero s stack = some ((s, stack), true)
  enlarge_times (suc times) s stack = elim (enlarge_stack_by_a_page s stack) [
    | none ↦ none
    | some ((t, enlarged), true) ↦ enlarge_times times t enlarged
    | some ((t, kept), false) ↦ some ((t, kept), false)
  ]

  unfoldable pub try_enlarge_stack :
      ℕ → Machine → MemorySection → Option ((Machine × MemorySection) × Bool)
  try_enlarge_stack addr s stack =
      let new_start = page_round_down addr in
      if not (within_stack_range addr)
      then some ((s, stack), false)
      else if ltb new_start stack.start
      then enlarge_times ((stack.start - new_start) / page_size) s stack
      else some ((s, stack), true)

  enlarge_stack_by_a_page-grows :
      (s t : Machine) (old new : MemorySection) (done : Bool)
      → page_size ≤ old.start
      → old.start + old.size < 2 ^ 64
      → enlarge_stack_by_a_page s old ≡ some ((t, new), done)
      → (new.start + new.size ≡ old.start + old.size)
        × (done ≡ true → new.start + page_size ≡ old.start)
  unfolding enlarge_stack_by_a_page
  enlarge_stack_by_a_page-grows s t old new done room low run = ground (arith, run)

  enlarge_times-grows :
      (times : ℕ) (s t : Machine) (old new : MemorySection) (done : Bool)
      → page_size * times ≤ old.start
      → old.start + old.size < 2 ^ 64
      → enlarge_times times s old ≡ some ((t, new), done)
      → (new.start + new.size ≡ old.start + old.size)
        × (done ≡ true → new.start + page_size * times ≡ old.start)
  unfolding enlarge_times
  enlarge_times-grows zero s t old new done room low run = ground (arith, run)
  enlarge_times-grows (suc times) s t old new done room low run =
      elim (Option-cases (enlarge_stack_by_a_page s old)) [
        | inl out ↦ ground (arith, run, out)
        | inr (((u, next), true), step) ↦
            let (same_end, down) =
              enlarge_stack_by_a_page-grows s u old next true (omega arith) low step in
            let lower : next.start + page_size ≡ old.start = down refl in
            let go : enlarge_times (suc times) s old ≡ enlarge_times times u next =
              rw (enlarge_times, step) refl in
            let rest =
              enlarge_times-grows times u t next new done (omega arith) (omega arith)
                (sym go ∙ run) in
            (rest.0 ∙ same_end, λ yes'. let r = rest.1 yes' in omega arith)
        | inr (((u, next), false), step) ↦
            let g = enlarge_stack_by_a_page-grows s u old next false (omega arith) low step in
            ground (arith, run, step, g)
      ]

  -- For a stack that starts at a page and ends below 2 ^ 64: where `try_enlarge_stack` answers, the
  -- stack ends where it did. With the answer 0 the address is in the range of the stack and the
  -- stack reaches down to its page, no further than it did or than that page.
  pub try_enlarge_stack-covers :
      (addr : ℕ) (s t : Machine) (old new : MemorySection) (done : Bool)
      → page_round_down old.start ≡ old.start
      → old.start + old.size < 2 ^ 64
      → try_enlarge_stack addr s old ≡ some ((t, new), done)
      → (new.start + new.size ≡ old.start + old.size)
        × (done ≡ true
            → (min_stack_addr ≤ addr)
              × (addr < shared_memory)
              × (new.start ≡ min old.start (page_round_down addr)))
  unfolding try_enlarge_stack within_stack_range page_round_down
  try_enlarge_stack-covers addr s t old new done aligned low run =
      elim (Bool-cases (within_stack_range addr)) [
        | inl inside ↦ elim (Bool-cases (ltb (addr / 4096 * 4096) old.start)) [
          | inl below ↦
              let go : try_enlarge_stack addr s old
                  ≡ enlarge_times ((old.start - addr / 4096 * 4096) / page_size) s old =
                ground (arith, inside, below) in
              let rest =
                enlarge_times-grows ((old.start - addr / 4096 * 4096) / page_size) s t old new done
                  (omega arith) low (sym go ∙ run) in
              (rest.0, λ e. let r = rest.1 e in ground (arith, inside, below, r, aligned))
          | inr above ↦ ground (arith, run, inside, above)
        ]
        | inr outside ↦ ground (arith, run, outside)
      ]
