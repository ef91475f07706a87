-- ===== src/Buddy/Deallocate.antt =====
-- `deallocate` as a whole: it returns, and the lists in memory are those that the merging leaves.
use toy_riscv_kernel.Prelude.{
  ℕ, zero, suc, ◌+◌, ◌-◌, ◌<◌, ◌≡◌, refl, ◌∙◌, ◌≢◌, inl, inr, true, false, ◌&&◌, Option, some, List,
  [], ◌∷◌, arith, ltb, ◌==◌, Bool-cases, List-cases,
}
use native.Mathlib.Numerals.{add-one}
use toy_riscv_kernel.Machine.{null, write, Machine, set_interrupt_status}
use toy_riscv_kernel.Buddy.{block_size, is_odd, remove_tag, space, deallocate_rows, deallocate}
use toy_riscv_kernel.Buddy.Chain.{has, Chain, insert, remove, not-has_of_le, Chain-link}
use toy_riscv_kernel.Buddy.Blocks.{block_size-pos, odd-le}
use toy_riscv_kernel.Buddy.OneOrder.{Settles, insert_front}
use toy_riscv_kernel.Buddy.Pool.{FreeLists, IsPool, IsFresh, IsLayout, update}
use toy_riscv_kernel.Buddy.Release.{
  buddy, release, release-kept, release-merged, order, kept-IsPool, merged-IsPool, merged-IsFresh,
  run_order, run_order-Settles,
}

-- A run that ends, in a memory that holds the lists that the specification gives.
pub record Refines (pool first : ℕ) (run : Option Machine) (told : Option FreeLists) : Type 0 where
  pub after : Machine
  pub lists : FreeLists
  pub ran : run ≡ some after
  pub listed : told ≡ some lists
  pub inv : IsPool pool first after.mem lists

module _ {pool first : ℕ} (layout : IsLayout pool first) (rows a k : ℕ) (s : Machine)
    {P : FreeLists} (inv : IsPool pool first s.mem P) (new : IsFresh first P a k) where
  ne_null : a ≢ null
  ne_null = omega (arith, layout.image, new.above)

  not_null : (a == null) ≡ false
  not_null = ground (arith, ne_null)

  cell-lt : space pool k < a
  cell-lt = omega (arith, layout.array, new.above, order layout inv a k new)

  -- The list is empty.
  into_empty :
      P k ≡ []
      → Refines pool first (deallocate_rows pool (suc rows) a k s) (release (suc rows) P a k)
  unfolding deallocate_rows set_interrupt_status
  into_empty e =
      let le : k < 16 = omega (arith, order layout inv a k new) in
      let c : s.mem (space pool k) ≡ null = rw e at (inv.chain k le) in
      record {
        after = record { mem = write (write s.mem (space pool k) a) a null; sie = s.sie };
        lists = update P k (insert a (P k));
        ran = rw (not_null, c);
        listed = release-kept rows a k P (rw e);
        inv =
            kept-IsPool layout inv a k new _
              (rw e (unfold write insert in (cell-lt, ground (arith, cell-lt), ground arith)))
              (unfold write in ground arith);
      }

  -- The block is odd, and lies before the first of its list.
  into_front :
      (x : ℕ) (xs : List ℕ)
      → P k ≡ x ∷ xs
      → is_odd a k ≡ true
      → a < x
      → Refines pool first (deallocate_rows pool (suc rows) a k s) (release (suc rows) P a k)
  unfolding deallocate_rows set_interrupt_status
  into_front x xs e odd below =
      let le : k < 16 = omega (arith, order layout inv a k new) in
      let c : Chain s.mem (space pool k) (x ∷ xs) = rw e at (inv.chain k le) in
      let out : has (buddy a k) (P k) ≡ false = rw e (
        unfold buddy in
        ground (
          arith,
          not-has_of_le s.mem (a - block_size k) x xs c.2,
          odd-le k a new.aligned,
          block_size-pos k,
        )) in
      let beyond = λ (y : ℕ) (i : has y (x ∷ xs) ≡ true).
        let above : a < y = ground (arith, not-has_of_le s.mem y x xs c.2) in above in
      record {
        after = record {
          mem = write (write s.mem a (s.mem (space pool k))) (space pool k) a;
          sie = false;
        };
        lists = update P k (insert a (P k));
        ran = rw (not_null, c.1) (ground arith);
        listed = release-kept rows a k P out;
        inv =
            kept-IsPool layout inv a k new _
              (rw (e, insert_front a (x ∷ xs) beyond)
                (Chain-link s.mem a (space pool k) (x ∷ xs) cell-lt c beyond))
              (unfold write in ground arith);
      }

  -- The order settles the block, and perhaps hands a merged one up.
  module _ (x : ℕ) (xs : List ℕ) (e : P k ≡ x ∷ xs)
      (back : (is_odd a k && ltb a (s.mem (space pool k))) ≡ false) where
    pub settled :
        Settles s.mem a (buddy a k) (remove_tag a k) (space pool k) (P k) (run_order pool s.mem a k)
    settled = run_order-Settles layout inv a k new x xs e back

    not_empty : (s.mem (space pool k) == null) ≡ false
    not_empty =
        let le : k < 16 = omega (arith, order layout inv a k new) in
        let c : Chain s.mem (space pool k) (x ∷ xs) = rw e at (inv.chain k le) in
        ground (arith, c.0, c.1)

    pub stays :
        has (buddy a k) (P k) ≡ false
        → Refines pool first (deallocate_rows pool (suc rows) a k s) (release (suc rows) P a k)
    unfolding deallocate_rows set_interrupt_status run_order
    stays out = record {
      after = record { mem = settled.after; sie = s.sie };
      lists = update P k (insert a (P k));
      ran = rw (not_null, not_empty, back) (rw (settled.outcome, out) refl);
      listed = release-kept rows a k P out;
      inv = kept-IsPool layout inv a k new settled.after (rw out at settled.chain) settled.same;
    }

    pub merges :
        has (buddy a k) (P k) ≡ true
        → Refines pool first
            (deallocate_rows pool rows
              (remove_tag a k)
              (suc k)
              (record { mem = settled.after; sie = false }))
            (release rows (update P k (remove (buddy a k) (P k))) (remove_tag a k) (suc k))
        → Refines pool first (deallocate_rows pool (suc rows) a k s) (release (suc rows) P a k)
    unfolding deallocate_rows set_interrupt_status run_order
    merges free up = record {
      after = record { mem = up.after.mem; sie = s.sie };
      lists = up.lists;
      ran = rw (not_null, not_empty, back) (rw (settled.outcome, free, add-one, up.ran) refl);
      listed = release-merged rows a k P free ∙ up.listed;
      inv = up.inv;
    }

module _ {pool first : ℕ} (layout : IsLayout pool first) where
  pub deallocate_rows-Refines :
      (rows a k : ℕ) (s : Machine) (P : FreeLists)
      → rows + k ≡ 16
      → IsPool pool first s.mem P
      → IsFresh first P a k
      → Refines pool first (deallocate_rows pool rows a k s) (release rows P a k)
  deallocate_rows-Refines zero a k s P top inv new =
      absurd (omega (arith, order layout inv a k new))
  deallocate_rows-Refines (suc rows) a k s P top inv new = elim (List-cases (P k)) [
    | inl empty ↦ into_empty layout rows a k s inv new empty
    | inr (x, xs, e) ↦ elim (Bool-cases (is_odd a k && ltb a (s.mem (space pool k)))) [
      | inl front ↦
          let le : k < 16 = omega (arith, order layout inv a k new) in
          let c : Chain s.mem (space pool k) (x ∷ xs) = rw e at (inv.chain k le) in
          into_front layout rows a k s inv new x xs e (ground arith) (ground (arith, c.1))
      | inr back ↦ elim (Bool-cases (has (buddy a k) (P k))) [
        | inr out ↦ stays layout rows a k s inv new x xs e back out
        | inl free ↦
            let r = settled layout rows a k s inv new x xs e back in
            merges layout rows a k s inv new x xs e back free (
              deallocate_rows-Refines rows (remove_tag a k) (suc k)
                (record { mem = r.after; sie = false }) (update P k (remove (buddy a k) (P k)))
                (omega arith)
                (merged-IsPool layout inv a k new r.after (buddy a k) (rw free at r.chain) r.same)
                (merged-IsFresh layout inv a k new free))
      ]
    ]
  ]

  -- Giving back a block of order `k` that lies behind the kernel image and is not free always
  -- returns, and turns free lists that are sorted, aligned and disjoint into such lists again:
  -- those that merging with free buddies, one order after the other, leaves.
  pub deallocate-release :
      (a k : ℕ) (s : Machine) (P : FreeLists)
      → IsPool pool first s.mem P
      → IsFresh first P a k
      → (t : Machine) × (Q : FreeLists) × (deallocate pool a k s ≡ some t)
        × (release (16 - k) P a k ≡ some Q)
        × IsPool pool first t.mem Q
  unfolding deallocate
  deallocate-release a k s P inv new =
      let r =
        deallocate_rows-Refines (16 - k) a k s P (omega (arith, order layout inv a k new)) inv
          new in
      (r.after, r.lists, r.ran, r.listed, r.inv)

  -- Giving back an odd block that lies before all free blocks of its order leaves the interrupts
  -- off, whatever they were before.
  pub deallocate_front_interrupts :
      (a k x : ℕ) (xs : List ℕ) (s : Machine) (P : FreeLists)
      → IsPool pool first s.mem P
      → IsFresh first P a k
      → P k ≡ x ∷ xs
      → is_odd a k ≡ true
      → a < x
      → (t : Machine) × (deallocate pool a k s ≡ some t) × (t.sie ≡ false)
  unfolding deallocate into_front
  deallocate_front_interrupts a k x xs s P inv new e odd below =
      let rows : 16 - k ≡ suc (15 - k) = omega (arith, order layout inv a k new) in
      let r = into_front layout (15 - k) a k s inv new x xs e odd below in
      (r.after, rw rows r.ran, refl)
