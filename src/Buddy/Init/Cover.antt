-- ===== src/Buddy/Init/Cover.antt =====
-- After `init_mem_manage` the free blocks are exactly the whole pages behind the kernel image.
use toy_riscv_kernel.Prelude.{
  ℕ, suc, ◌+◌, ◌*◌, ◌^◌, ◌≤◌, ◌<◌, ◌≡◌, refl, ap, ◌⊎◌, inl, inr, true, false, List, [], ◌∷◌, arith,
  ◌==◌, length, ℕ_discrete,
}
use toy_riscv_kernel.Machine.{Mem, null, write}
use toy_riscv_kernel.Buddy.{kernel_start, block_size, space}
use toy_riscv_kernel.Buddy.Chain.{has, Chain, Chain-frame}
use toy_riscv_kernel.Buddy.Blocks.{IsAligned, block_size-pos, block_size-suc}
use toy_riscv_kernel.Buddy.Pool.{FreeLists, kernel_limit, IsLayout, Disjoint, update}
use toy_riscv_kernel.Buddy.Pages.{free_pages, pages_below-update}

-- The orders from `count` on are placed. What is left is one block of order `count` at `lo`, in
-- which the kernel image ends, and all behind it is free.
pub record IsPlaced (pool first count lo : ℕ) (m : Mem) (P : FreeLists) : Type 0 where
  pub small : count ≤ 15
  pub aligned_lo : IsAligned count lo
  pub chain : (k : ℕ) → count ≤ k → k < 16 → Chain m (space pool k) (P k)
  pub empty : (k : ℕ) → k < count → P k ≡ []
  pub behind : (k a : ℕ) → k < 16 → has a (P k) ≡ true → lo + block_size count ≤ a
  pub within : (k a : ℕ) → k < 16 → has a (P k) ≡ true → a + block_size k ≤ kernel_limit
  pub aligned : (k a : ℕ) → k < 16 → has a (P k) ≡ true → IsAligned k a
  pub apart :
      (i a j b : ℕ)
      → i < 16
      → j < 16
      → has a (P i) ≡ true
      → has b (P j) ≡ true
      → ((i ≡ j) × (a ≡ b)) ⊎ Disjoint a i b j
  pub inside : lo < first
  pub ends : first ≤ lo + block_size count
  pub low : kernel_start ≤ lo
  pub counted : free_pages P * 4096 + (lo + block_size count) ≡ kernel_limit

module _ {pool first : ℕ} (layout : IsLayout pool first) (index lo : ℕ) {m : Mem} {P : FreeLists}
    (inv : IsPlaced pool first (suc index) lo m P) where
  open inv use {
    small, aligned_lo, chain, empty, behind, within, aligned, apart, inside, ends, low, counted,
  }

  unfoldable pub free_mem : Mem
  free_mem = write (write m (space pool index) (lo + block_size index)) (lo + block_size index) null

  unfoldable pub free_lists : FreeLists
  free_lists = update P index ((lo + block_size index) ∷ [])

  from_lists :
      (k a : ℕ)
      → has a (free_lists k) ≡ true
      → (has a (P k) ≡ true) ⊎ ((k ≡ index) × (a ≡ lo + block_size index))
  unfolding free_lists
  from_lists k a h = ground arith

  upper_fits : lo + block_size index + block_size index ≤ kernel_limit
  upper_fits = omega (arith, counted, block_size-suc index)

  halves :
      (lo ≡ aligned_lo.0 * 2 * block_size index)
      × (lo + block_size index ≡ (aligned_lo.0 * 2 + 1) * block_size index)
  halves =
      let e = ap (λ (n : ℕ). aligned_lo.0 * n) (block_size-suc index) in
      (omega (arith, aligned_lo.1, e), omega (arith, aligned_lo.1, e))

  free-Chain :
      first ≤ lo + block_size index
      → (k : ℕ) → index ≤ k
      → k < 16
      → Chain free_mem (space pool k) (free_lists k)
  unfolding free_mem free_lists
  free-Chain room k le lt = elim (ℕ_discrete k index) [
    | yes e ↦
        let cell : space pool k < lo + block_size index = omega (arith, layout.array) in
        rw e (unfold write in ground (arith, layout.array))
    | no ne ↦
        let off : (k == index) ≡ false = ground arith in
        rw off (
          Chain-frame m free_mem (space pool k) (P k) (chain k (omega arith) lt) (λ b at. elim at [
            | inl cell ↦ unfold write in ground (arith, layout.array)
            | inr node ↦
                unfold write in
                ground (
                  arith,
                  layout.array,
                  behind k b lt node,
                  block_size-suc index,
                  block_size-pos index,
                )
          ]))
  ]

  free_counted : free_pages free_lists * 4096 + (lo + block_size index) ≡ kernel_limit
  unfolding free_lists free_pages
  free_counted =
      let sized : block_size index ≡ 4096 * 2 ^ index = unfold block_size in refl in
      omega (
        arith,
        pages_below-update 16 index P ((lo + block_size index) ∷ []) (omega arith),
        ap (λ (xs : List ℕ). length xs * 2 ^ index) (empty index (omega arith)),
        counted,
        sized,
        block_size-suc index,
      )

  -- The upper half is free.
  pub place_free : first ≤ lo + block_size index → IsPlaced pool first index lo free_mem free_lists
  place_free room = record {
    small = omega arith;
    aligned_lo = (aligned_lo.0 * 2, halves.0);
    chain = free-Chain room;
    empty = λ k lt. unfold free_lists in ground (arith, empty k);
    behind = λ k a lt h. elim (from_lists k a h) [
      | inl old ↦ omega (arith, behind k a lt old, block_size-suc index)
      | inr (e, e') ↦ omega arith
    ];
    within = λ k a lt h. elim (from_lists k a h) [
      | inl old ↦ within k a lt old
      | inr (e, e') ↦ rw (e, e') upper_fits
    ];
    aligned = λ k a lt h. elim (from_lists k a h) [
      | inl old ↦ aligned k a lt old
      | inr (e, e') ↦ rw (e, e') (aligned_lo.0 * 2 + 1, halves.1)
    ];
    apart = λ i a j b lt lt' h h'. elim (from_lists i a h) [
      | inl old ↦ elim (from_lists j b h') [
        | inl old' ↦ apart i a j b lt lt' old old'
        | inr (e, e') ↦
            rw (e, e') (inr (inr (omega (arith, behind i a lt old, block_size-suc index))))
      ]
      | inr (e, e') ↦ elim (from_lists j b h') [
        | inl old' ↦
            rw (e, e') (inr (inl (omega (arith, behind j b lt' old', block_size-suc index))))
        | inr (d, d') ↦ inl (omega arith, omega arith)
      ]
    ];
    inside = inside;
    ends = room;
    low = low;
    counted = free_counted;
  }

  unfoldable pub used_mem : Mem
  used_mem = write m (space pool index) null

  used-Chain : (k : ℕ) → index ≤ k → k < 16 → Chain used_mem (space pool k) (P k)
  unfolding used_mem
  used-Chain k le lt = elim (ℕ_discrete k index) [
    | yes e ↦ rw (e, empty index (omega arith)) (unfold write in ground arith)
    | no ne ↦ Chain-frame m used_mem (space pool k) (P k) (chain k (omega arith) lt) (λ b at.
        elim at [
          | inl cell ↦ unfold write in ground arith
          | inr node ↦ unfold write in ground (arith, layout.array, behind k b lt node)
        ])
  ]

  -- The kernel image reaches into the upper half, which is split further.
  pub place_used :
      lo + block_size index < first → IsPlaced pool first index (lo + block_size index) used_mem P
  place_used over = record {
    small = omega arith;
    aligned_lo = (aligned_lo.0 * 2 + 1, halves.1);
    chain = used-Chain;
    empty = λ k lt. empty k (omega arith);
    behind = λ k a lt h. omega (arith, behind k a lt h, block_size-suc index);
    within = within;
    aligned = aligned;
    apart = apart;
    inside = over;
    ends = omega (arith, block_size-suc index);
    low = omega arith;
    counted = omega (arith, counted, block_size-suc index);
  }
