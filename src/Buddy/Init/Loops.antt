-- ===== src/Buddy/Init/Loops.antt =====
-- The loops of `init_mem_manage` as a whole.
use toy_riscv_kernel.Prelude.{
  ℕ, zero, suc, ◌+◌, ◌-◌, ◌/◌, ◌≤◌, ◌≡◌, refl, ap, ◌∙◌, inl, inr, [], arith, leb, leb→le,
  Bool-cases,
}
use toy_riscv_kernel.Machine.{Mem, null, write}
use toy_riscv_kernel.Buddy.{max_order, kernel_start, kernel_mem_size, block_size, space}
use toy_riscv_kernel.Buddy.Blocks.{block_size-suc}
use toy_riscv_kernel.Buddy.Pool.{FreeLists, kernel_limit, IsPool, IsLayout}
use toy_riscv_kernel.Buddy.Pages.{free_pages}
use toy_riscv_kernel.Buddy.Init.{halve_loop, place_loop, init_mem_manage}
use toy_riscv_kernel.Buddy.Init.Cover.{
  IsPlaced, free_mem, free_lists, used_mem, place_free, place_used,
}

module _ {pool first : ℕ} (layout : IsLayout pool first) where
  -- What the second loop leaves.
  abbrev pub AllPlaced : Mem → Type 0
  AllPlaced m = (P : FreeLists) × (lo : ℕ) × IsPlaced pool first 0 lo m P

  place_loop-AllPlaced :
      (count lo tmp : ℕ) (m : Mem) (P : FreeLists)
      → IsPlaced pool first count lo m P
      → ((index : ℕ) → count ≡ suc index → tmp ≡ lo + block_size index)
      → AllPlaced (place_loop pool first count tmp m)
  unfolding place_loop
  place_loop-AllPlaced zero lo tmp m P inv at = (P, lo, inv)
  place_loop-AllPlaced (suc zero) lo tmp m P inv at =
      rw (at 0 refl) (elim (Bool-cases (leb first (lo + block_size 0))) [
        | inl free ↦ rw free (
            (
              free_lists layout 0 lo inv,
              lo,
              (unfold free_mem in place_free layout 0 lo inv (leb→le _ _ free)),
            ))
        | inr over ↦
            rw over (
              (
                P,
                lo + block_size 0,
                (unfold used_mem in place_used layout 0 lo inv (ground arith)),
              ))
      ])
  place_loop-AllPlaced (suc (suc index)) lo tmp m P inv at =
      rw (at (suc index) refl) (elim (Bool-cases (leb first (lo + block_size (suc index)))) [
        | inl free ↦ rw free (
            place_loop-AllPlaced (suc index) lo _ _ (free_lists layout (suc index) lo inv)
              (unfold free_mem in place_free layout (suc index) lo inv (leb→le _ _ free))
              (λ i e.
                let same : index ≡ i = omega arith in
                omega (arith, block_size-suc index, ap block_size same)))
        | inr over ↦ rw over (
            place_loop-AllPlaced (suc index) (lo + block_size (suc index)) _ _ P
              (unfold used_mem in place_used layout (suc index) lo inv (ground arith))
              (λ i e. let same : index ≡ i = omega arith in omega (arith, ap block_size same)))
      ])

  -- `buddy_size` is the size of the blocks of the order `index`.
  abbrev Sized : ℕ → ℕ → Type 0
  Sized count buddy_size = (index : ℕ) → count ≡ suc index → buddy_size ≡ block_size index

  abbrev Halved : ℕ × ℕ × Mem → Type 0
  Halved (count, buddy_size, m) =
      (P : FreeLists) × IsPlaced pool first count kernel_start m P × Sized count buddy_size

  halve_loop-Halved :
      (count buddy_size : ℕ) (m : Mem) (P : FreeLists)
      → IsPlaced pool first count kernel_start m P
      → Sized count buddy_size
      → Halved (halve_loop pool first count buddy_size m)
  unfolding halve_loop
  halve_loop-Halved zero buddy_size m P inv sized = (P, inv, sized)
  halve_loop-Halved (suc index) buddy_size m P inv sized =
      rw (sized index refl) (elim (Bool-cases (leb (first - kernel_start) (block_size index))) [
        | inl go ↦
            let room = leb→le (first - kernel_start) (block_size index) go in
            rw go (
              halve_loop-Halved index _ _ (free_lists layout index kernel_start inv)
                (unfold free_mem in place_free layout index kernel_start inv (omega arith))
                (λ i e. half_size index i e))
        | inr stop ↦
            rw stop (P, inv, λ i e. let same : index ≡ i = omega arith in ap block_size same)
      ])
    where
      half_size : (index i : ℕ) → index ≡ suc i → block_size index / 2 ≡ block_size i
      half_size index i e = omega (arith, ap block_size e, block_size-suc i)

  start-IsPlaced :
      (m : Mem)
      → first ≤ kernel_limit
      → IsPlaced pool first 15 kernel_start (write m (space pool 15) null) (λ _. [])
  unfolding write block_size free_pages
  start-IsPlaced m le = record {
    small = omega arith;
    aligned_lo = (16, refl);
    chain = λ k low high. let same : k ≡ 15 = omega arith in rw same (ground arith);
    empty = λ k lt. refl;
    behind = λ k a lt h. cc;
    within = λ k a lt h. cc;
    aligned = λ k a lt h. absurd (cc);
    apart = λ i a j b lt lt' h h'. absurd (cc);
    inside = layout.image;
    ends = le;
    low = omega arith;
    counted = refl;
  }

  placed-IsPool :
      (m : Mem) (P : FreeLists) (lo : ℕ) → IsPlaced pool first 0 lo m P → IsPool pool first m P
  placed-IsPool m P lo inv = record {
    chain = λ k lt. inv.chain k (omega arith) lt;
    above = λ k a lt h. omega (arith, inv.behind k a lt h, inv.ends);
    within = inv.within;
    aligned = λ k lt a h. inv.aligned k a lt h;
    apart = inv.apart;
  }

  half_memory : kernel_mem_size / 2 ≡ block_size 14
  unfolding block_size
  half_memory = refl

  one_page : block_size 0 ≡ 4096
  unfolding block_size
  one_page = refl

  -- Whatever the memory holds, and wherever the kernel image ends, `init_mem_manage` leaves sorted,
  -- aligned and disjoint free lists behind the image, of all the whole pages that are there.
  pub init-IsPool :
      (m : Mem)
      → first ≤ kernel_limit
      → (P : FreeLists) × IsPool pool first (init_mem_manage pool first m) P
        × (free_pages P ≡ (kernel_limit - first) / 4096)
  unfolding init_mem_manage
  init-IsPool m le =
      let (P, inv, sized) =
        halve_loop-Halved 15 (kernel_mem_size / 2) (write m (space pool max_order) null) (λ _. [])
          (start-IsPlaced m le)
          (λ i e. let same : 14 ≡ i = omega arith in half_memory ∙ ap block_size same) in
      let (Q, lo, done) =
        place_loop-AllPlaced _ kernel_start _ _ P inv
          (λ i e. ap (λ (n : ℕ). kernel_start + n) (sized i e)) in
      (
        Q,
        placed-IsPool _ Q lo done,
        (omega (arith, done.counted, done.inside, done.ends, one_page)),
      )
