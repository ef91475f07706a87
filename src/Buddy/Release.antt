-- ===== src/Buddy/Release.antt =====
-- What `deallocate` does to the free blocks, told on the lists: merge with the buddy as long as it
-- is free, and put the block that results into its list. The code does just that.
use toy_riscv_kernel.Prelude.{
  ℕ, zero, suc, ◌+◌, ◌-◌, ◌<◌, ◌≡◌, ◌≢◌, ◌⊎◌, inl, inr, true, false, ◌&&◌, Option, none, some, List,
  ◌∷◌, arith, ltb, if◌then◌else◌, Bool-cases, length, ℕ_discrete,
}
use toy_riscv_kernel.Machine.{Mem}
use toy_riscv_kernel.Buddy.{
  block_size, is_odd, remove_tag, space, rounds, Level, finish_odd, finish_even, walk_odd,
  walk_even,
}
use toy_riscv_kernel.Buddy.Chain.{has, Chain, SameOutside, insert, remove, Chain-frame}
use toy_riscv_kernel.Buddy.Blocks.{block_size-suc, remove_tag-IsAligned, odd-le}
use toy_riscv_kernel.Buddy.OneOrder.{Aligned, Settles, even-Settles, odd-Settles}
use toy_riscv_kernel.Buddy.Pool.{
  FreeLists, IsPool, IsFresh, IsLayout, Disjoint, Disjoint-swap, union-Disjoint, one_order,
  fresh-not-has, update, has-insert, has-remove, has-remove_self, order-lt, length-lt-rounds,
  space-lt,
}

-- The other half of the block of the next order.
unfoldable pub buddy : ℕ → ℕ → ℕ
buddy a k = if is_odd a k then a - block_size k else a + block_size k

unfoldable pub release : ℕ → FreeLists → ℕ → ℕ → Option FreeLists
release zero P a k = none
release (suc rows) P a k = elim (has (buddy a k) (P k)) [
  | true ↦ release rows (update P k (remove (buddy a k) (P k))) (remove_tag a k) (suc k)
  | false ↦ some (update P k (insert a (P k)))
]

module _ (rows a k : ℕ) (P : FreeLists) where
  pub release-kept :
      has (buddy a k) (P k) ≡ false → release (suc rows) P a k ≡ some (update P k (insert a (P k)))
  unfolding release
  release-kept out = rw (release, out)

  pub release-merged :
      has (buddy a k) (P k) ≡ true
      → release (suc rows) P a k
        ≡ release rows (update P k (remove (buddy a k) (P k))) (remove_tag a k) (suc k)
  unfolding release
  release-merged free = rw (release, free)

-- One order of the code, on a list that is not empty.
unfoldable pub run_order : ℕ → Mem → ℕ → ℕ → Option Level
run_order pool m a k =
    if is_odd a k
    then finish_odd m a k
        (walk_odd rounds m a (space pool k) (m (space pool k)) (m (m (space pool k))))
    else finish_even m a k (walk_even rounds m a (space pool k) (m (space pool k)))

module _ {pool first : ℕ} (layout : IsLayout pool first) {m : Mem} {P : FreeLists}
    (inv : IsPool pool first m P) (a k : ℕ) (new : IsFresh first P a k) where
  pub order : k < 15
  order = order-lt first a k layout.image new.above new.within

  low-not-has : (b j : ℕ) → j < 16 → b < first → has b (P j) ≡ false
  low-not-has b j lt low = ground (arith, inv.above j b lt)

  -- The lists of the other orders are as they were.
  other-Chain :
      (g : Mem) (j : ℕ)
      → SameOutside m g a (space pool k) (P k)
      → j < 16
      → j ≢ k
      → Chain g (space pool j) (P j)
  other-Chain g j same lt ne =
      let le : k < 16 = omega (arith, order) in
      Chain-frame m g (space pool j) (P j) (inv.chain j lt) (λ b at. elim at [
        | inl cell ↦
            same b (omega (arith, layout.array, new.above)) (omega arith)
              (low-not-has b k le (omega (arith, layout.array)))
        | inr node ↦
            same b (λ e. ground (arith, fresh-not-has new j))
              (omega (arith, space-lt layout inv k j b le lt node))
              (ground (arith, one_order layout inv j k b lt le))
      ])

  lists_with :
      (g : Mem) (xs : List ℕ)
      → Chain g (space pool k) xs
      → SameOutside m g a (space pool k) (P k)
      → (j : ℕ) → j < 16
      → Chain g (space pool j) (update P k xs j)
  lists_with g xs here same j lt = elim (ℕ_discrete j k) [
    | yes e ↦ rw e (ground (arith, here))
    | no ne ↦ ground (arith, other-Chain g j same lt ne)
  ]

  -- Where a block of the new lists comes from.
  from_insert :
      (j b : ℕ)
      → has b (update P k (insert a (P k)) j) ≡ true
      → (has b (P j) ≡ true) ⊎ ((b ≡ a) × (j ≡ k))
  from_insert j b i = elim (ℕ_discrete j k) [
    | yes e ↦ rw e (ground (arith, has-insert b a (P k)))
    | no ne ↦ inl (ground arith)
  ]

  from_remove : (c j b : ℕ) → has b (update P k (remove c (P k)) j) ≡ true → has b (P j) ≡ true
  from_remove c j b i = elim (ℕ_discrete j k) [
    | yes e ↦ rw e (ground (arith, has-remove b c (P k)))
    | no ne ↦ ground arith
  ]

  -- The block went into its list.
  pub kept-IsPool :
      (g : Mem)
      → Chain g (space pool k) (insert a (P k))
      → SameOutside m g a (space pool k) (P k)
      → IsPool pool first g (update P k (insert a (P k)))
  kept-IsPool g here same = record {
    chain = lists_with g (insert a (P k)) here same;
    above = λ j b lt i. elim (from_insert j b i) [
      | inl old ↦ inv.above j b lt old
      | inr (e, e') ↦ rw e new.above
    ];
    within = λ j b lt i. elim (from_insert j b i) [
      | inl old ↦ inv.within j b lt old
      | inr (e, e') ↦ rw (e, e') new.within
    ];
    aligned = λ j lt b i. elim (from_insert j b i) [
      | inl old ↦ inv.aligned j lt b old
      | inr (e, e') ↦ rw (e, e') new.aligned
    ];
    apart = λ i b j c lt lt' h h'. elim (from_insert i b h) [
      | inl old ↦ elim (from_insert j c h') [
        | inl old' ↦ inv.apart i b j c lt lt' old old'
        | inr (e, e') ↦ rw (e, e') (inr (Disjoint-swap a k b i (new.disjoint i b lt old)))
      ]
      | inr (e, e') ↦ elim (from_insert j c h') [
        | inl old' ↦ rw (e, e') (inr (new.disjoint j c lt' old'))
        | inr (d, d') ↦ inl (omega arith, omega arith)
      ]
    ];
  }

  -- The buddy was taken out of its list.
  pub merged-IsPool :
      (g : Mem) (c : ℕ)
      → Chain g (space pool k) (remove c (P k))
      → SameOutside m g a (space pool k) (P k)
      → IsPool pool first g (update P k (remove c (P k)))
  merged-IsPool g c here same = record {
    chain = lists_with g (remove c (P k)) here same;
    above = λ j b lt i. inv.above j b lt (from_remove c j b i);
    within = λ j b lt i. inv.within j b lt (from_remove c j b i);
    aligned = λ j lt b i. inv.aligned j lt b (from_remove c j b i);
    apart = λ i b j d lt lt' h h'.
        inv.apart i b j d lt lt' (from_remove c i b h) (from_remove c j d h');
  }

  halves :
      (j b : ℕ)
      → Disjoint a k b j
      → Disjoint (buddy a k) k b j
      → Disjoint (remove_tag a k) (suc k) b j
  unfolding buddy remove_tag
  halves j b d e = elim (Bool-cases (is_odd a k)) [
    | inl odd ↦
        let size = odd-le k a new.aligned odd in
        rw odd (union-Disjoint (a - block_size k) k b j (ground arith) (ground arith))
    | inr even ↦ rw even (union-Disjoint a k b j d (ground arith))
  ]

  -- The merged block is new to the lists that are left.
  pub merged-IsFresh :
      has (buddy a k) (P k) ≡ true
      → IsFresh first (update P k (remove (buddy a k) (P k))) (remove_tag a k) (suc k)
  unfolding buddy remove_tag
  merged-IsFresh i =
      let le : k < 16 = omega (arith, order) in
      record {
        above = ground (arith, new.above, inv.above k (buddy a k) le i);
        within = ground (
          arith,
          new.within,
          inv.within k (buddy a k) le i,
          block_size-suc k,
          odd-le k a new.aligned,
        );
        aligned = remove_tag-IsAligned k a new.aligned;
        disjoint = λ j b lt h.
            let old = from_remove (buddy a k) j b h in
            elim (inv.apart k (buddy a k) j b le lt i old) [
              | inl (e, e') ↦
                  let gone = has-remove_self m (buddy a k) (space pool k) (P k) (inv.chain k le) in
                  absurd (ground (arith, gone))
              | inr d ↦ halves j b (new.disjoint j b lt old) d
            ];
      }

  -- The order settles the block, unless it goes to the front of its list.
  pub run_order-Settles :
      (x : ℕ) (xs : List ℕ)
      → P k ≡ x ∷ xs
      → (is_odd a k && ltb a (m (space pool k))) ≡ false
      → Settles m a (buddy a k) (remove_tag a k) (space pool k) (P k) (run_order pool m a k)
  unfolding run_order buddy remove_tag
  run_order-Settles x xs e back =
      let le : k < 16 = omega (arith, order) in
      let room : length (x ∷ xs) < rounds = rw e at (length-lt-rounds layout inv k le) in
      let c : Chain m (space pool k) (x ∷ xs) = rw e at (inv.chain k le) in
      let out : has a (x ∷ xs) ≡ false = rw e at (fresh-not-has new k le) in
      let to : Aligned k (x ∷ xs) = rw e at (inv.aligned k le) in
      let low = space-lt layout inv k k in
      let cell : space pool k < a = omega (arith, layout.array, new.above) in
      elim (Bool-cases (is_odd a k)) [
        | inl odd ↦
            let below : x < a = ground arith in
            rw (odd, e, c.1)
              (odd-Settles m k a new.aligned rounds (space pool k) x xs odd c.0 below c.1 c.2
                (ground arith) to (omega arith))
        | inr even ↦
            rw (even, e)
              (even-Settles m k a new.aligned rounds (space pool k) (x ∷ xs) even cell c out to
                room)
      ]
