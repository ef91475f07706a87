-- ===== src/Buddy/Pool.antt =====
-- The free blocks of all orders, as one list for each order, and what ties them to the memory.
use toy_riscv_kernel.Prelude.{
  ℕ, zero, suc, ◌+◌, ◌*◌, ◌≤◌, ◌<◌, ◌≡◌, refl, ◌⊎◌, inl, inr, true, false, ◌||◌, List, [], ◌∷◌,
  arith, ◌==◌, if◌then◌else◌, Bool-cases, length, dec_le,
}
use native.Mathlib.Nat.{mul-le-mul_left, pow-suc, pow-le-pow_right}
use toy_riscv_kernel.Machine.{Mem}
use toy_riscv_kernel.Buddy.{kernel_start, kernel_mem_size, block_size, space, rounds}
use toy_riscv_kernel.Buddy.Chain.{has, Chain, insert, remove, not-has_of_le}
use toy_riscv_kernel.Buddy.Blocks.{IsAligned, block_size-pos, block_size-suc, aligned_apart}
use toy_riscv_kernel.Buddy.OneOrder.{Aligned}

abbrev pub FreeLists : Type 0
FreeLists = ℕ → List ℕ

abbrev pub kernel_limit : ℕ
kernel_limit = kernel_start + kernel_mem_size

-- A block at `a` of order `i` and one at `b` of order `j` share no byte.
abbrev pub Disjoint : ℕ → ℕ → ℕ → ℕ → Type 0
Disjoint a i b j = (a + block_size i ≤ b) ⊎ (b + block_size j ≤ a)

pub Disjoint-swap : (a i b j : ℕ) → Disjoint a i b j → Disjoint b j a i
Disjoint-swap a i b j d = elim d [ inl x ↦ inr x | inr x ↦ inl x ]

-- What is disjoint from both halves of a block is disjoint from the block.
pub union-Disjoint :
    (lo i c j : ℕ)
    → Disjoint lo i c j
    → Disjoint (lo + block_size i) i c j
    → Disjoint lo (suc i) c j
union-Disjoint lo i c j d e = ground (arith, block_size-suc i, block_size-pos j)

-- The blocks free in each order, `P k` for order k, over the memory `m`. `first` is the end of the
-- kernel image, in which the array at `pool` lies.
pub record IsPool (pool first : ℕ) (m : Mem) (P : FreeLists) : Type 0 where
  pub chain : (k : ℕ) → k < 16 → Chain m (space pool k) (P k)
  pub above : (k a : ℕ) → k < 16 → has a (P k) ≡ true → first ≤ a
  pub within : (k a : ℕ) → k < 16 → has a (P k) ≡ true → a + block_size k ≤ kernel_limit
  pub aligned : (k : ℕ) → k < 16 → Aligned k (P k)
  pub apart :
      (i a j b : ℕ)
      → i < 16
      → j < 16
      → has a (P i) ≡ true
      → has b (P j) ≡ true
      → ((i ≡ j) × (a ≡ b)) ⊎ Disjoint a i b j

-- A block of order `k` in the memory behind the kernel image that shares no byte with a free one.
pub record IsFresh (first : ℕ) (P : FreeLists) (a k : ℕ) : Type 0 where
  pub above : first ≤ a
  pub within : a + block_size k ≤ kernel_limit
  pub aligned : IsAligned k a
  pub disjoint : (j b : ℕ) → j < 16 → has b (P j) ≡ true → Disjoint a k b j

pub fresh-not-has :
    {first : ℕ} {P : FreeLists} {a k : ℕ}
    → IsFresh first P a k
    → (j : ℕ) → j < 16
    → has a (P j) ≡ false
fresh-not-has {P} {a} {k} new j lt = elim (Bool-cases (has a (P j))) [
  | inr out ↦ out
  | inl free ↦ absurd (omega (arith, new.disjoint j a lt free, block_size-pos k, block_size-pos j))
]

-- The place of the array and of the kernel's end.
pub record IsLayout (pool first : ℕ) : Type 0 where
  pub array : pool + 8 * 16 ≤ first
  pub image : kernel_start < first

abbrev pub update : FreeLists → ℕ → List ℕ → FreeLists
update P k xs j = if j == k then xs else P j

pub has-insert : (b a : ℕ) (xs : List ℕ) → has b (insert a xs) ≡ ((b == a) || has b xs)
unfolding insert
has-insert b a [] = refl
has-insert b a (x ∷ xs) = ground (arith, has-insert b a xs)

pub has-remove : (b a : ℕ) (xs : List ℕ) → has b (remove a xs) ≡ true → has b xs ≡ true
unfolding remove
has-remove b a [] h = h
has-remove b a (x ∷ xs) h = ground (arith, has-remove b a xs)

-- A removed block is gone, since a chain has no node twice.
pub has-remove_self : (m : Mem) (a p : ℕ) (xs : List ℕ) → Chain m p xs → has a (remove a xs) ≡ false
unfolding remove
has-remove_self m a p [] c = refl
has-remove_self m a p (x ∷ xs) (lt, e, c) =
    ground (arith, has-remove_self m a x xs c, not-has_of_le m a x xs c)

-- The blocks of a chain lie side by side, so that they are not too many.
Chain-room :
    (m : Mem) (k lo p : ℕ) (xs : List ℕ)
    → Chain m p xs
    → Aligned k xs
    → ((x : ℕ) → has x xs ≡ true → (lo ≤ x) × (x + block_size k ≤ kernel_limit))
    → lo ≤ kernel_limit
    → lo + length xs * block_size k ≤ kernel_limit
Chain-room m k lo p [] c to range h = omega arith
Chain-room m k lo p (x ∷ xs) (lt, e, c) to range h =
    let here = range x (ground arith) in
    let block = to x (ground arith) in
    let up = λ (y : ℕ) (i : has y xs ≡ true).
      let above : x < y = ground (arith, not-has_of_le m y x xs c) in
      aligned_apart k block (to y (ground arith)) above in
    let rest =
      Chain-room m k (x + block_size k) x xs c (λ y i. to y (ground arith))
        (λ y i. (up y i, (range y (ground arith)).1)) here.1 in
    omega arith

block_size-le : (k : ℕ) → 4096 ≤ block_size k
unfolding block_size
block_size-le zero = omega arith
block_size-le (suc k) = omega (arith, pow-suc 2 k, block_size-le k)

-- A block of order 15 does not fit, since the kernel image is in the memory.
pub order-lt :
    (first a k : ℕ) → kernel_start < first → first ≤ a → a + block_size k ≤ kernel_limit → k < 15
unfolding block_size
order-lt first a k image low high = elim (dec_le 15 k) [
  | yes large ↦ let two : 0 < 2 = omega arith in absurd (omega (arith, pow-le-pow_right two large))
  | no small ↦ omega arith
]

module _ {pool first : ℕ} (layout : IsLayout pool first) {m : Mem} {P : FreeLists}
    (inv : IsPool pool first m P) where
  open inv use {chain, above, within, aligned, apart}
  open layout use {array, image}

  pub one_order : (i j a : ℕ) → i < 16 → j < 16 → has a (P i) ≡ true → has a (P j) ≡ true → i ≡ j
  one_order i j a lt lt' h h' = elim (apart i a j a lt lt' h h') [
    | inl (e, _) ↦ e
    | inr d ↦ absurd (omega (arith, block_size-pos i, block_size-pos j))
  ]

  -- The rounds given to a walk are enough.
  pub length-lt-rounds : (k : ℕ) → k < 16 → length (P k) < rounds
  length-lt-rounds k lt =
      let room =
        Chain-room m k kernel_start (space pool k) (P k) (chain k lt) (aligned k lt)
          (λ x i. (omega (arith, above k x lt i), within k x lt i)) (omega arith) in
      omega (arith, mul-le-mul_left (length (P k)) (block_size-le k))

  -- No block of order `k` is at or below the array.
  pub space-lt : (j k a : ℕ) → j < 16 → k < 16 → has a (P k) ≡ true → space pool j < a
  space-lt j k a lt lt' i = omega (arith, above k a lt' i)
