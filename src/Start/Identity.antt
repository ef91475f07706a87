-- ===== src/Start/Identity.antt =====
-- The page table and the registers with which kernel/start.c leaves machine mode.
use toy_riscv_kernel.VirtualMemory.{max_va}
use toy_riscv_kernel.Prelude.{
  ◌-◌, ltb, leb, ◌||◌, true, if◌then◌else◌, Option, some, none, ℕ, zero, suc, ◌+◌, ◌*◌, ◌/◌, ◌%◌,
  ◌^◌, ◌≤◌, ◌<◌, ◌≡◌, refl, sym, ap, ◌∙◌, ◌≢◌, ◌⊎◌, inl, inr, arith, ◌==◌, Bool-cases,
}
use Prim.{absurd}
use Prim.Native.Nat.{bit_or}
use toy_riscv_kernel.Prelude.BitOr.{bit_or-apart}
use toy_riscv_kernel.Machine.{Mem, write, write-same, write-other}
use toy_riscv_kernel.Registers.{mstatus, mepc}
use toy_riscv_kernel.Start.{
  Boot, establish_from, establish_page_table, clint_mtimecmp, clint_mtime, interval, init_timer,
  start,
}

huge_entry : (i : ℕ) → i < 512 → bit_or (i * 2 ^ 28 % 2 ^ 64) 15 ≡ i * 2 ^ 28 + 15
huge_entry i lt =
    let e : i * 2 ^ 28 % 2 ^ 64 ≡ 2 ^ 28 * i = omega (arith, lt) in
    ap (λ n. bit_or n 15) e ∙ bit_or-apart 28 i 15 (omega arith) ∙ omega arith

establish_from-entries :
    (count i pagetable : ℕ) (m : Mem)
    → i + count ≤ 512
    → ((j : ℕ)
        → i ≤ j
        → j < i + count
        → establish_from count i pagetable m (pagetable + 8 * j) ≡ j * 2 ^ 28 + 15)
      × ((a : ℕ)
          → (a < pagetable + 8 * i) ⊎ (pagetable + 8 * (i + count) ≤ a)
          → establish_from count i pagetable m a ≡ m a)
unfolding establish_from
establish_from-entries zero i pagetable m fits =
    (λ j low high. absurd (omega (arith, low, high)), λ a out. refl)
establish_from-entries (suc count) i pagetable m fits =
    let v = bit_or (i * 2 ^ 28 % 2 ^ 64) 15 in
    let m' = write m (pagetable + 8 * i) v in
    let (inside, outside) =
      establish_from-entries count (i + 1) pagetable m' (omega (arith, fits)) in
    (
      λ j low high. elim (Bool-cases (j == i)) [
        | inl first ↦
            let e : j ≡ i = ground (arith, first) in
            ap (λ k. establish_from count (i + 1) pagetable m' (pagetable + 8 * k)) e
            ∙ outside (pagetable + 8 * i) (inl (omega arith))
            ∙ write-same m (pagetable + 8 * i) v
            ∙ huge_entry i (omega (arith, fits))
            ∙ ap (λ k. k * 2 ^ 28 + 15) (sym e)
        | inr later ↦ inside j (ground (arith, low, later)) (omega (arith, high))
      ],
      λ a out.
          outside a (ground (arith, out))
          ∙ write-other m (pagetable + 8 * i) v a (ground (arith, out)),
    )

-- The page of 2 ^ 30 bytes that an entry of the highest level maps a virtual address to, after
-- Sv39: its number is the bits 28 to 53 of the entry. `none` is the fault of an address whose bits
-- 39 to 63 are not all its bit 38.
abbrev pub huge_page_address : ℕ → ℕ → Option ℕ
huge_page_address pte va =
    if ltb va (2 ^ 38) || leb (2 ^ 64 - 2 ^ 38) va
    then some (pte / 2 ^ 28 % 2 ^ 26 * 2 ^ 30 + va % 2 ^ 30)
    else none

abbrev pub Outside : ℕ → ℕ → Type 0
Outside pagetable a = (a < pagetable) ⊎ (pagetable + 4096 ≤ a)

module _ (pagetable timer_scratch timer_vector main : ℕ) (b : Boot) where
  abbrev pub booted : Boot
  booted = start pagetable timer_scratch timer_vector main b

  start-mem :
      (a : ℕ)
      → a ≢ clint_mtimecmp
      → a ≢ timer_scratch + 24
      → a ≢ timer_scratch + 32
      → booted.mem a ≡ establish_page_table pagetable b.mem a
  unfolding start init_timer
  start-mem a ne ne' ne'' =
      let m = establish_page_table pagetable b.mem in
      let m1 = write m clint_mtimecmp ((m clint_mtime + interval) % 2 ^ 64) in
      let m2 = write m1 (timer_scratch + 24) clint_mtimecmp in
      write-other m2 (timer_scratch + 32) interval a ne''
      ∙ write-other m1 (timer_scratch + 24) clint_mtimecmp a ne'
      ∙ write-other m clint_mtimecmp ((m clint_mtime + interval) % 2 ^ 64) a ne

  start-mode : booted.registers mstatus / 2 ^ 11 % 4 ≡ 1
  unfolding start init_timer
  start-mode = ground (arith)

  start-return : booted.registers mepc ≡ main
  unfolding start init_timer
  start-return = refl

  -- Where the page table does not share words with the timer's compare register and scratch area,
  -- every address below MAXVA, 2 ^ 38, is mapped to itself by a valid entry that allows all access;
  -- the previous mode is supervisor's, and the return address is `main`.
  pub start-identity :
      (va : ℕ)
      → Outside pagetable clint_mtimecmp
      → Outside pagetable (timer_scratch + 24)
      → Outside pagetable (timer_scratch + 32)
      → va < max_va
      → let pte = booted.mem (pagetable + 8 * (va / 2 ^ 30 % 512)) in
        (pte % 16 ≡ 15)
        × (huge_page_address pte va ≡ some va)
        × (booted.registers mstatus / 2 ^ 11 % 4 ≡ 1)
        × (booted.registers mepc ≡ main)
  unfolding establish_page_table
  start-identity va out out' out'' below =
      let i = va / 2 ^ 30 % 512 in
      let a = pagetable + 8 * i in
      let (inside, _) = establish_from-entries 512 0 pagetable b.mem (omega arith) in
      let at : booted.mem a ≡ i * 2 ^ 28 + 15 =
        start-mem a (ground (arith, out, below)) (ground (arith, out', below))
          (ground (arith, out'', below))
        ∙ inside i (omega arith) (omega (arith, below)) in
      let canonical : (ltb va (2 ^ 38) || leb (2 ^ 64 - 2 ^ 38) va) ≡ true =
        ground (arith, below) in
      (
        omega (arith, at, below),
        rw canonical (ap some (omega (arith, at, below))),
        start-mode,
        start-return,
      )
