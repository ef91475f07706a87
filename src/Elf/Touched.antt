-- ===== src/Elf/Touched.antt =====
-- The pages that the sections of a program touch, described by their addresses, and the areas of
-- memory that kernel/elf.c computes for them.
use toy_riscv_kernel.Prelude.{
  ℕ, ◌+◌, ◌%◌, ◌^◌, ◌≤◌, ◌<◌, ◌≡◌, refl, ◌⊎◌, inl, inr, true, false, List, [], ◌∷◌, ◌++◌, arith,
  ◌==◌, if◌then◌else◌, Bool-cases,
}
use toy_riscv_kernel.VirtualMemory.{page_round_down}
use toy_riscv_kernel.Process.Stack.{MemorySection}
use toy_riscv_kernel.Elf.{ProgramHeader, pt_load, section_start, section_size}

abbrev pub load_areas : ℕ → List ProgramHeader → List MemorySection
load_areas pool [] = []
load_areas pool (p ∷ headers) =
    if p.p_type == pt_load
    then record { start = section_start pool p; size = section_size pool p }
      ∷ load_areas pool headers
    else load_areas pool headers

-- Whole pages, from that of the section's first byte to that of its last.
abbrev pub Touched : ProgramHeader → MemorySection → Type 0
Touched p area =
    (area.start % 4096 ≡ 0)
    × (area.start ≤ p.p_vaddr)
    × (p.p_vaddr < area.start + 4096)
    × (area.size % 4096 ≡ 0)
    × (p.p_vaddr + p.p_memsz ≤ area.start + area.size)
    × (area.start + area.size < p.p_vaddr + p.p_memsz + 4096)

-- One area for each header of type PT_LOAD, in their order.
abbrev pub Cover : List ProgramHeader → List MemorySection → Type 0
Cover [] new = new ≡ []
Cover (p ∷ headers) new =
    (((p.p_type == pt_load) ≡ false) × Cover headers new)
    ⊎ (((p.p_type == pt_load) ≡ true)
        × (area : MemorySection) × (more : List MemorySection) × (new ≡ area ∷ more)
        × Touched p area
        × Cover headers more)

-- No section reaches the end of the 64-bit addresses.
abbrev pub InRange : List ProgramHeader → Type 0
InRange [] = Unit
InRange (p ∷ headers) = (p.p_vaddr + p.p_memsz + 4096 ≤ 2 ^ 64) × InRange headers

pub InRange-front : (front back : List ProgramHeader) → InRange (front ++ back) → InRange front
InRange-front [] back h = tt
InRange-front (p ∷ front) back (first, h) = (first, InRange-front front back h)

module _ (pool : ℕ) where
  section-Touched :
      (p : ProgramHeader)
      → p.p_vaddr + p.p_memsz + 4096 ≤ 2 ^ 64
      → Touched p (record { start = section_start pool p; size = section_size pool p })
  unfolding page_round_down
  section-Touched p range = (
    omega arith,
    omega arith,
    omega arith,
    omega (arith, range),
    omega (arith, range),
    omega (arith, range),
  )

  pub load_areas-Cover :
      (headers : List ProgramHeader) → InRange headers → Cover headers (load_areas pool headers)
  load_areas-Cover [] range = refl
  load_areas-Cover (p ∷ headers) (first, range) = elim (Bool-cases (p.p_type == pt_load)) [
    | inr other ↦ inl (other, rw other (load_areas-Cover headers range))
    | inl load ↦ inr (
      load,
      record { start = section_start pool p; size = section_size pool p },
      load_areas pool headers,
      rw load refl,
      section-Touched p first,
      load_areas-Cover headers range,
    )
  ]
