-- ===== src/Buddy/Allocate.antt =====
-- `allocate`: which block it takes, and what the splitting puts back.
use toy_riscv_kernel.Prelude.{
  ℕ, zero, suc, ◌+◌, ◌-◌, ◌*◌, ◌^◌, ◌≤◌, ◌<◌, ◌≡◌, refl, sym, ap, ◌∙◌, subst, ◌⊎◌, inl, inr, true,
  false, Option, none, some, List, [], ◌∷◌, arith, ◌==◌, List-cases, eq_of_some, length, ℕ_discrete,
}
use native.Mathlib.Nat.{pow-suc}
use toy_riscv_kernel.Machine.{Mem, null, write, Machine}
use toy_riscv_kernel.Buddy.{block_size, is_odd, space, take_block, split_block, allocate}
use toy_riscv_kernel.Buddy.Chain.{has, Chain, insert, not-has_of_le, Chain-frame, Chain-unlink}
use toy_riscv_kernel.Buddy.Blocks.{IsAligned, is_odd-parity, is_odd-add, block_size-suc}
use toy_riscv_kernel.Buddy.Pool.{
  FreeLists, IsPool, IsFresh, IsLayout, fresh-not-has, update, has-insert, order-lt, space-lt,
}
use toy_riscv_kernel.Buddy.Release.{buddy, release-kept}
use toy_riscv_kernel.Buddy.Deallocate.{deallocate-release}
use toy_riscv_kernel.Buddy.Pages.{free_pages, pages_below-update, release-free_pages}

-- The first block of the first list that is not empty, from order `level` on.
pub record Taken (pool : ℕ) (m : Mem) (P : FreeLists) (level : ℕ) (run : Option (ℕ × ℕ × Mem))
    : Type 0 where
  pub addr : ℕ
  pub order : ℕ
  pub rest : List ℕ
  pub order-lt : order < 16
  pub level-le : level ≤ order
  pub first : P order ≡ addr ∷ rest
  pub smaller : (j : ℕ) → level ≤ j → j < order → P j ≡ []
  pub ran : run ≡ some (addr, order, write m (space pool order) (m addr))

abbrev pub NothingFrom : ℕ → FreeLists → Type 0
NothingFrom level P = (j : ℕ) → level ≤ j → j < 16 → P j ≡ []

module _ {pool first : ℕ} (layout : IsLayout pool first) {m : Mem} {P : FreeLists}
    (inv : IsPool pool first m P) where
  take_block-cases :
      (rows level : ℕ)
      → rows + level ≡ 16
      → (NothingFrom level P × (take_block pool rows level m ≡ none))
        ⊎ Taken pool m P level (take_block pool rows level m)
  unfolding take_block
  take_block-cases zero level top = inl (λ j le lt. absurd (omega arith), refl)
  take_block-cases (suc rows) level top = elim (List-cases (P level)) [
    | inl empty ↦
        let lt : level < 16 = omega arith in
        let c : m (space pool level) ≡ null = rw empty at (inv.chain level lt) in
        rw c (elim (take_block-cases rows (level + 1) (omega arith)) [
          | inl (nothing, none_left) ↦ inl (
            λ j le lt'. elim (ℕ_discrete j level) [
              | yes d ↦ rw d empty
              | no ne ↦ nothing j (omega arith) lt'
            ],
            none_left,
          )
          | inr t ↦ inr (record {
            addr = t.addr;
            order = t.order;
            rest = t.rest;
            order-lt = t.order-lt;
            level-le = omega (arith, t.level-le);
            first = t.first;
            smaller = λ j le lt'. elim (ℕ_discrete j level) [
              | yes d ↦ rw d empty
              | no ne ↦ t.smaller j (omega arith) lt'
            ];
            ran = t.ran;
          })
        ])
    | inr (x, xs, e) ↦
        let lt : level < 16 = omega arith in
        let c : Chain m (space pool level) (x ∷ xs) = rw e at (inv.chain level lt) in
        let full : (x == null) ≡ false = ground (arith, c.0) in
        inr (record {
          addr = x;
          order = level;
          rest = xs;
          order-lt = lt;
          level-le = omega arith;
          first = e;
          smaller = λ j le lt'. absurd (omega arith);
          ran = rw (c.1, full) refl;
        })
  ]

  -- Taking the first block of a list out of it.
  module _ (a k : ℕ) (xs : List ℕ) (lt : k < 16) (e : P k ≡ a ∷ xs) where
    here : Chain m (space pool k) (a ∷ xs)
    here = rw e at (inv.chain k lt)

    from_rest : (j b : ℕ) → has b (update P k xs j) ≡ true → has b (P j) ≡ true
    from_rest j b h = elim (ℕ_discrete j k) [
      | yes d ↦ rw (d, e) (ground (arith, rw d at h))
      | no ne ↦ ground arith
    ]

    taken-IsPool : IsPool pool first (write m (space pool k) (m a)) (update P k xs)
    taken-IsPool = record {
      chain = λ j lt'. elim (ℕ_discrete j k) [
        | yes d ↦ rw d (ground (arith, Chain-unlink m (space pool k) a xs here.0 here.2))
        | no ne ↦
            let off : (j == k) ≡ false = ground arith in
            rw off (
              Chain-frame m (write m (space pool k) (m a)) (space pool j) (P j) (inv.chain j lt')
                (λ b at. elim at [
                  | inl cell ↦ unfold write in ground arith
                  | inr node ↦ unfold write in ground (arith, space-lt layout inv k j b lt lt' node)
                ]))
      ];
      above = λ j b lt' h. inv.above j b lt' (from_rest j b h);
      within = λ j b lt' h. inv.within j b lt' (from_rest j b h);
      aligned = λ j lt' b h. inv.aligned j lt' b (from_rest j b h);
      apart =
          λ i b j d lt' lt'' h h'. inv.apart i b j d lt' lt'' (from_rest i b h) (from_rest j d h');
    }

    taken-IsFresh : IsFresh first (update P k xs) a k
    taken-IsFresh =
        let inside : has a (P k) ≡ true = rw e (ground arith) in
        record {
          above = inv.above k a lt inside;
          within = inv.within k a lt inside;
          aligned = inv.aligned k lt a inside;
          disjoint = λ j b lt' h. elim (inv.apart k a j b lt lt' inside (from_rest j b h)) [
            | inl (d, d') ↦ absurd (ground (arith, not-has_of_le m a a xs here.2))
            | inr apart ↦ apart
          ];
        }

-- The two halves of a block that is in use.
module _ {first : ℕ} {P : FreeLists} (a k : ℕ) (new : IsFresh first P a (suc k)) where
  half : a ≡ new.aligned.0 * 2 * block_size k
  half = omega (arith, new.aligned.1, ap (λ (n : ℕ). new.aligned.0 * n) (block_size-suc k))

  lower_aligned : IsAligned k a
  lower_aligned = (new.aligned.0 * 2, half)

  lower_even : is_odd a k ≡ false
  lower_even = is_odd-parity k a (new.aligned.0 * 2) half ∙ ground arith

  pub upper-IsFresh : IsFresh first P (a + block_size k) k
  upper-IsFresh = record {
    above = omega (arith, new.above);
    within = omega (arith, new.within, block_size-suc k);
    aligned = (new.aligned.0 * 2 + 1, omega (arith, half));
    disjoint = λ j b lt h. ground (arith, new.disjoint j b lt h, block_size-suc k);
  }

  pub lower-IsFresh : IsFresh first (update P k (insert (a + block_size k) (P k))) a k
  lower-IsFresh = record {
    above = new.above;
    within = omega (arith, new.within, block_size-suc k);
    aligned = lower_aligned;
    disjoint = λ j b lt h. elim (ℕ_discrete j k) [
      | yes d ↦
          ground
            (arith, has-insert b (a + block_size k) (P k), new.disjoint j b lt, block_size-suc k)
      | no ne ↦ ground (arith, new.disjoint j b lt, block_size-suc k)
    ];
  }

  pub buddy_upper : buddy (a + block_size k) k ≡ a
  unfolding buddy
  buddy_upper = rw (is_odd-add k a lower_aligned lower_even) (omega arith)

-- A run that ends with the block at `a` of order `k` in use, and all else of it free.
pub record Allocated (pool first : ℕ) (P : FreeLists) (a k pages : ℕ) (run : Option Machine)
    : Type 0 where
  pub after : Machine
  pub lists : FreeLists
  pub ran : run ≡ some after
  pub inv : IsPool pool first after.mem lists
  pub new : IsFresh first lists a k
  pub counted : free_pages lists + 2 ^ k ≡ pages

module _ {pool first : ℕ} (layout : IsLayout pool first) where
  split_block-Allocated :
      (count a k : ℕ) (s : Machine) (P : FreeLists)
      → IsPool pool first s.mem P
      → IsFresh first P a (k + count)
      → Allocated pool first P a k (free_pages P + 2 ^ (k + count)) (split_block pool count a k s)
  unfolding split_block
  split_block-Allocated zero a k s P inv new =
      let top : k + 0 ≡ k = omega arith in
      record { after = s; lists = P; ran = refl; inv = inv; new = rw top at new; counted = rw top }
  split_block-Allocated (suc count) a k s P inv new =
      let level = k + count in
      let next : k + suc count ≡ suc level = omega arith in
      let whole : IsFresh first P a (suc level) = rw next at new in
      let upper = upper-IsFresh a level whole in
      let lt : level < 15 =
        order-lt first (a + block_size level) level layout.image upper.above upper.within in
      let (t, Q, ran, listed, inv') =
        deallocate-release layout (a + block_size level) level s P inv upper in
      let rows : 16 - level ≡ suc (15 - level) = omega arith in
      let out : has (buddy (a + block_size level) level) (P level) ≡ false =
        rw (buddy_upper a level whole) (fresh-not-has whole level (omega arith)) in
      let put : update P level (insert (a + block_size level) (P level)) ≡ Q = eq_of_some (
        sym (release-kept (15 - level) (a + block_size level) level P out) ∙ (rw rows at listed)) in
      let lower = subst (λ R. IsFresh first R a level) put (lower-IsFresh a level whole) in
      let rest = split_block-Allocated count a k t Q inv' lower in
      let more =
        release-free_pages (16 - level) (a + block_size level) level P Q (omega arith) listed in
      record {
        after = rest.after;
        lists = rest.lists;
        ran = rw (split_block, ran) rest.ran;
        inv = rest.inv;
        new = rest.new;
        counted = omega (arith, rest.counted, more, pow-suc 2 level, ap (λ (n : ℕ). 2 ^ n) next);
      }

  -- `allocate` always returns. If some list from the order asked for up is not empty, the result is
  -- a block of that order that no free block overlaps, the lists in memory are again sorted,
  -- aligned and disjoint, and the free pages are fewer by the pages of the block. If all are empty,
  -- the result is null and nothing changes.
  pub allocate_correct :
      (k : ℕ) (s : Machine) (P : FreeLists)
      → k < 16
      → IsPool pool first s.mem P
      → (NothingFrom k P × (allocate pool k s ≡ some (s, null)))
        ⊎ ((t : Machine) × (Q : FreeLists) × (a : ℕ) × (allocate pool k s ≡ some (t, a))
            × IsPool pool first t.mem Q
            × IsFresh first Q a k
            × (free_pages Q + 2 ^ k ≡ free_pages P))
  unfolding allocate
  allocate_correct k s P lt inv = elim (take_block-cases layout inv (16 - k) k (omega arith)) [
    | inl (nothing, e) ↦ inl (nothing, rw (allocate, e) refl)
    | inr t ↦
        let kept = taken-IsPool layout inv t.addr t.order t.rest t.order-lt t.first in
        let block = taken-IsFresh layout inv t.addr t.order t.rest t.order-lt t.first in
        let count : k + (t.order - k) ≡ t.order = omega (arith, t.level-le) in
        let m = write s.mem (space pool t.order) (s.mem t.addr) in
        let r =
          split_block-Allocated (t.order - k) t.addr k (record s { mem = m })
            (update P t.order t.rest) kept (rw count block) in
        inr (
          r.after,
          r.lists,
          t.addr,
          rw (allocate, t.ran, r.ran) refl,
          r.inv,
          r.new,
          (unfold free_pages in
              omega (
                arith,
                r.counted,
                pages_below-update 16 t.order P t.rest t.order-lt,
                ap (λ (n : ℕ). 2 ^ n) count,
                ap (λ (xs : List ℕ). length xs * 2 ^ t.order) t.first,
              )),
        )
  ]
