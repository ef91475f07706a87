-- ===== src/VirtualMemory/Tables.antt =====
-- Mapping, translating and unmapping a page whose tables are there.
use toy_riscv_kernel.Prelude.{
  ℕ, ◌+◌, ◌*◌, ◌%◌, ◌^◌, ◌≤◌, ◌<◌, ◌≡◌, refl, sym, ap, ◌∙◌, subst, fun_ext, ◌≢◌, Bool, true, false,
  none, some, arith, leb, ◌==◌,
}
use toy_riscv_kernel.Machine.{Mem, null, write, write-same, write-other, Machine}
use toy_riscv_kernel.VirtualMemory.{
  max_va, pte_v, page_round_down, page_offset, pte_to_pa, pte_flags, px, is_valid, entry_at,
  entry_from, pagetable_entry, physical_address, map_page, unmap_page, minus_one,
}
use toy_riscv_kernel.Prelude.BitOr.{bit_or-one}
use toy_riscv_kernel.VirtualMemory.Entries.{entry, entry_fields}

-- The walk for `va` reads valid entries at `top` and `mid`, and ends at the entry `leaf`.
pub record HasWalk (m : Mem) (pagetable va top mid leaf : ℕ) : Type 0 where
  pub low : va < max_va
  pub at_top : entry_at pagetable 2 va ≡ top
  pub at_mid : entry_at (pte_to_pa (m top)) 1 va ≡ mid
  pub at_leaf : entry_at (pte_to_pa (m mid)) 0 va ≡ leaf
  pub top_valid : is_valid (m top) ≡ true
  pub mid_valid : is_valid (m mid) ≡ true
  pub nonnull : leaf ≢ null
  pub apart_top : top ≢ leaf
  pub apart_mid : mid ≢ leaf

px-page0 : (va : ℕ) → px 0 (page_round_down va) ≡ px 0 va
unfolding px page_round_down
px-page0 va = ground arith

px-page1 : (va : ℕ) → px 1 (page_round_down va) ≡ px 1 va
unfolding px page_round_down
px-page1 va = ground arith

px-page2 : (va : ℕ) → px 2 (page_round_down va) ≡ px 2 va
unfolding px page_round_down
px-page2 va = ground arith

module _ {m : Mem} {pagetable va top mid leaf : ℕ} (h : HasWalk m pagetable va top mid leaf) where
  -- A write to the leaf entry leaves the walk to it.
  pub HasWalk-write : (v : ℕ) → HasWalk (write m leaf v) pagetable va top mid leaf
  HasWalk-write v =
      let same_top = sym (write-other m leaf v top h.apart_top) in
      let same_mid = sym (write-other m leaf v mid h.apart_mid) in
      record {
        low = h.low;
        at_top = h.at_top;
        at_mid = subst (λ w. entry_at (pte_to_pa w) 1 va ≡ mid) same_top h.at_mid;
        at_leaf = subst (λ w. entry_at (pte_to_pa w) 0 va ≡ leaf) same_mid h.at_leaf;
        top_valid = subst (λ w. is_valid w ≡ true) same_top h.top_valid;
        mid_valid = subst (λ w. is_valid w ≡ true) same_mid h.mid_valid;
        nonnull = h.nonnull;
        apart_top = h.apart_top;
        apart_mid = h.apart_mid;
      }

-- Two addresses of one page have one walk.
pub HasWalk-same_page :
    {m : Mem}
    → {pagetable va va' top mid leaf : ℕ} → HasWalk m pagetable va top mid leaf
    → page_round_down va' ≡ page_round_down va
    → HasWalk m pagetable va' top mid leaf
unfolding entry_at page_round_down
HasWalk-same_page {m} {pagetable} {va} {va'} {top} {mid} {leaf} h same =
    let same2 = sym (px-page2 va') ∙ ap (px 2) same ∙ px-page2 va in
    let same1 = sym (px-page1 va') ∙ ap (px 1) same ∙ px-page1 va in
    let same0 = sym (px-page0 va') ∙ ap (px 0) same ∙ px-page0 va in
    record {
      low = ground (arith, h.low, same);
      at_top = ap (λ i. pagetable + 8 * i) same2 ∙ h.at_top;
      at_mid = ap (λ i. pte_to_pa (m top) + 8 * i) same1 ∙ h.at_mid;
      at_leaf = ap (λ i. pte_to_pa (m mid) + 8 * i) same0 ∙ h.at_leaf;
      top_valid = h.top_valid;
      mid_valid = h.mid_valid;
      nonnull = h.nonnull;
      apart_top = h.apart_top;
      apart_mid = h.apart_mid;
    }

pub HasWalk-page :
    {m : Mem}
    → {pagetable va top mid leaf : ℕ} → HasWalk m pagetable va top mid leaf
    → HasWalk m pagetable (page_round_down va) top mid leaf
unfolding page_round_down
HasWalk-page h = HasWalk-same_page h (ground arith)

module _ (pool pagetable va top mid leaf : ℕ) (s : Machine)
    (h : HasWalk s.mem pagetable va top mid leaf) where
  pub entry_found : (alloc : Bool) → pagetable_entry pool pagetable va alloc s ≡ some (s, leaf)
  unfolding pagetable_entry entry_from
  entry_found alloc =
      let below : leb max_va va ≡ false = ground (arith, h.low) in
      rw (below, h.at_top, h.top_valid, h.at_mid, h.mid_valid, h.at_leaf) refl

-- A page that is not mapped, with its tables there.
module _ (pool pagetable va top mid leaf : ℕ) (s : Machine)
    (h : HasWalk s.mem pagetable va top mid leaf) where
  page_found :
      (alloc : Bool) → pagetable_entry pool pagetable (page_round_down va) alloc s ≡ some (s, leaf)
  page_found = entry_found pool pagetable (page_round_down va) top mid leaf s (HasWalk-page h)

  pub map_page-free :
      (pa permission : ℕ)
      → is_valid (s.mem leaf) ≡ false
      → map_page pool pagetable va pa permission s
        ≡ some (record s { mem = write s.mem leaf (entry pa permission) }, 0)
  unfolding map_page
  map_page-free pa permission free =
      rw (map_page, page_found true) (ground (arith, h.nonnull, free))

  pub physical_address-walk :
      is_valid (s.mem leaf) ≡ true
      → physical_address pool pagetable va s
        ≡ some ((pte_to_pa (s.mem leaf) + page_offset va) % 2 ^ 64)
  unfolding physical_address
  physical_address-walk valid =
      rw (physical_address, entry_found pool pagetable va top mid leaf s h false)
        (ground (arith, h.nonnull, valid))

  pub unmap_page-walk :
      is_valid (s.mem leaf) ≡ true
      → (pte_flags (s.mem leaf) == pte_v) ≡ false
      → unmap_page pool pagetable va s ≡ some (record s { mem = write s.mem leaf 0 }, 0)
  unfolding unmap_page
  unmap_page-walk valid flags =
      rw (unmap_page, page_found false) (ground (arith, h.nonnull, valid, flags))

in_frame :
    (pa va : ℕ)
    → pa < 2 ^ 56
    → (page_round_down pa + page_offset va) % 2 ^ 64 ≡ page_round_down pa + page_offset va
unfolding page_round_down
in_frame pa va small = ground arith

write-twice : (m : Mem) → (a v w : ℕ) → m a ≡ w → (b : ℕ) → write (write m a v) a w b ≡ m b
unfolding write
write-twice m a v w was b = ground (arith, was)

-- After `map_page` of a page whose tables are there and whose entry is not valid, for a
-- physical address below 2 ^ 56 and ten bits of permission, each address of the
-- page translates to its offset in the frame of `pa`, and no other word of memory is changed.
pub map_page-translates :
    (pool pagetable va top mid leaf : ℕ)
    → (s : Machine) → HasWalk s.mem pagetable va top mid leaf
    → (pa permission : ℕ) → pa < 2 ^ 56
    → permission < 1024
    → is_valid (s.mem leaf) ≡ false
    → (t : Machine) × (map_page pool pagetable va pa permission s ≡ some (t, 0))
      × ((va' : ℕ)
          → page_round_down va' ≡ page_round_down va
          → physical_address pool pagetable va' t ≡ some (page_round_down pa + page_offset va'))
      × ((b : ℕ) → b ≢ leaf → t.mem b ≡ s.mem b)
      × (t.sie ≡ s.sie)
map_page-translates pool pagetable va top mid leaf s h pa permission small flags free =
    let t : Machine = record s { mem = write s.mem leaf (entry pa permission) } in
    let held = write-same s.mem leaf (entry pa permission) in
    let (valid, frame, _) = entry_fields pa permission small flags in
    (
      t,
      map_page-free pool pagetable va top mid leaf s h pa permission free,
      λ va' same.
          let h' = HasWalk-same_page (HasWalk-write h (entry pa permission)) same in
          let found =
            physical_address-walk pool pagetable va' top mid leaf t h'
              (subst (λ w. is_valid w ≡ true) (sym held) valid) in
          found
          ∙ ap some (
              ap (λ w. (pte_to_pa w + page_offset va') % 2 ^ 64) held
              ∙ ap (λ w. (w + page_offset va') % 2 ^ 64) frame
              ∙ in_frame pa va' small),
      write-other s.mem leaf (entry pa permission),
      refl,
    )

-- Unmapping the page just mapped, with its tables there, a physical address below 2 ^ 56 and ten
-- bits of permission, where the entry was 0 and the permission has a flag besides `PTE_V`, gives 0
-- and the machine as it was.
pub unmap_page-map_page :
    (pool pagetable va top mid leaf : ℕ)
    → (s : Machine) → HasWalk s.mem pagetable va top mid leaf
    → (pa permission : ℕ) → pa < 2 ^ 56
    → permission < 1024
    → 2 ≤ permission
    → s.mem leaf ≡ 0
    → elim (map_page pool pagetable va pa permission s) [
      | none ↦ none
      | some (t, _) ↦ unmap_page pool pagetable va t
    ]
      ≡ some (s, 0)
unmap_page-map_page pool pagetable va top mid leaf s h pa permission small flags some_flag empty =
    let m' = write s.mem leaf (entry pa permission) in
    let t : Machine = record s { mem = m' } in
    let held = write-same s.mem leaf (entry pa permission) in
    let (valid, frame, rest) = entry_fields pa permission small flags in
    let free : is_valid (s.mem leaf) ≡ false = ground (arith, empty) in
    let some_flags : (pte_flags (m' leaf) == pte_v) ≡ false =
      ground (arith, held, rest, bit_or-one permission) in
    let unmapped =
      unmap_page-walk pool pagetable va top mid leaf t (HasWalk-write h (entry pa permission))
        (subst (λ w. is_valid w ≡ true) (sym held) valid) some_flags in
    let back : write m' leaf 0 ≡ s.mem =
      fun_ext (λ b. write-twice s.mem leaf (entry pa permission) 0 empty b) in
    rw (map_page-free pool pagetable va top mid leaf s h pa permission free, unmapped, back) refl

-- `map_page` never gives -1, the result that its callers take for a failure.
pub map_page-never_minus_one :
    (pool pagetable va pa permission : ℕ)
    → (s t : Machine) → (result : ℕ) → map_page pool pagetable va pa permission s ≡ some (t, result)
    → (result == minus_one) ≡ false
unfolding map_page
map_page-never_minus_one pool pagetable va pa permission s t result run = ground (arith, run)
