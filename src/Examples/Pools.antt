-- ===== src/Examples/Pools.antt =====
-- The page and object allocators and the page tables at concrete memories. The array of the free
-- lists is at 0x80001000 and the kernel image ends at 0x80002000.
use toy_riscv_kernel.Prelude.{
  ℕ, ◌+◌, ◌≤◌, ◌≡◌, refl, sym, ◌∙◌, subst, ◌⊎◌, inl, true, false, some, [], ◌∷◌, arith, ◌==◌,
  if◌then◌else◌, dite, ℕ_discrete,
}
use toy_riscv_kernel.Machine.{Mem, null, write, Machine}
use toy_riscv_kernel.Buddy.{block_size, space, allocate, deallocate, is_odd, remove_tag}
use toy_riscv_kernel.Buddy.Chain.{has, Chain, insert, remove}
use toy_riscv_kernel.Buddy.Blocks.{IsAligned}
use toy_riscv_kernel.Buddy.Release.{buddy, release}
use toy_riscv_kernel.Buddy.Pool.{update, IsPool, IsFresh, IsLayout, FreeLists, kernel_limit}
use toy_riscv_kernel.Buddy.Pages.{free_pages}
use toy_riscv_kernel.Buddy.Allocate.{NothingFrom, allocate_correct}
use toy_riscv_kernel.Buddy.Deallocate.{deallocate-release, deallocate_front_interrupts}
use toy_riscv_kernel.Buddy.Init.{init_mem_manage}
use toy_riscv_kernel.Buddy.Init.Loops.{init-IsPool}

abbrev pool : ℕ
pool = 2147487744

abbrev image_end : ℕ
image_end = 2147491840

layout : IsLayout pool image_end
layout = record { array = omega arith; image = omega arith }

-- One free block of two pages, at 0x80004000.
abbrev block : ℕ
block = 2147500032

abbrev one_block : FreeLists
one_block k = if k == 1 then block ∷ [] else []

abbrev memory : Mem
memory = write (λ _. 0) (pool + 8) block

abbrev machine : Machine
machine = record { mem = memory; sie = true }

only : (k a : ℕ) → has a (one_block k) ≡ true → (k ≡ 1) × (a ≡ block)
only k a h = ground (arith, h)

one_block-IsPool : IsPool pool image_end memory one_block
unfolding space block_size write
one_block-IsPool = record {
  chain = λ k lt.
      dite (ℕ_discrete k 1)
        (λ e.
          subst (λ n. Chain memory (space pool n) (one_block n)) (sym e) (omega arith, refl, refl))
        (λ ne. ground (arith, ne));
  above = λ k a lt h. ground (arith, h);
  within = λ k a lt h.
      let (e, e') = only k a h in
      subst (λ n. a + block_size n ≤ kernel_limit) (sym e) (omega (arith, e'));
  aligned = λ k lt x h. let (e, e') = only k x h in subst (λ n. IsAligned n x) (sym e) (262146, e');
  apart = λ i a j b lt lt' h h'.
      let (e, e') = only i a h in let (f, f') = only j b h' in inl (e ∙ sym f, e' ∙ sym f');
}

below-IsFresh : IsFresh image_end one_block image_end 1
unfolding block_size
below-IsFresh = record {
  above = omega arith;
  within = omega arith;
  aligned = (262145, refl);
  disjoint = λ j b lt h. let (e, e') = only j b h in inl (omega (arith, e'));
}

allocate_correct_example :
    (NothingFrom 0 one_block × (allocate pool 0 machine ≡ some (machine, null)))
    ⊎ ((t : Machine) × (Q : FreeLists) × (a : ℕ) × (allocate pool 0 machine ≡ some (t, a))
        × IsPool pool image_end t.mem Q
        × IsFresh image_end Q a 0
        × (free_pages Q + 1 ≡ free_pages one_block))
allocate_correct_example =
    allocate_correct layout 0 machine one_block (omega arith) one_block-IsPool

deallocate-release_example :
    (t : Machine) × (Q : FreeLists) × (deallocate pool image_end 1 machine ≡ some t)
    × (release 15 one_block image_end 1 ≡ some Q)
    × IsPool pool image_end t.mem Q
deallocate-release_example =
    deallocate-release layout image_end 1 machine one_block one_block-IsPool below-IsFresh

odd_end : is_odd image_end 1 ≡ true
unfolding is_odd block_size
odd_end = refl

deallocate_front_interrupts_example :
    (t : Machine) × (deallocate pool image_end 1 machine ≡ some t) × (t.sie ≡ false)
deallocate_front_interrupts_example =
    deallocate_front_interrupts layout image_end 1 block [] machine one_block one_block-IsPool
      below-IsFresh refl odd_end (omega arith)

init-IsPool_example :
    (P : FreeLists) × IsPool pool image_end (init_mem_manage pool image_end (λ a. a)) P
    × (free_pages P ≡ 32766)
init-IsPool_example = init-IsPool layout (λ a. a) (omega arith)

-- The block behind is the buddy of the free one, and merged with it.
abbrev merged : FreeLists
merged = update (update one_block 1 []) 2 (block ∷ [])

merged-release : release 15 one_block (block + 8192) 1 ≡ some merged
unfolding release buddy is_odd block_size remove insert remove_tag
merged-release = refl
