-- ===== src/Buddy/Pages.antt =====
-- The number of free pages, which giving back a block raises by the pages of the block.
use toy_riscv_kernel.Prelude.{
  ℕ, zero, suc, ◌+◌, ◌*◌, ◌^◌, ◌≤◌, ◌<◌, ◌≡◌, refl, sym, ap, ◌∙◌, subst, inl, inr, true, some, List,
  [], ◌∷◌, arith, Bool-cases, eq_of_some, length, ℕ_discrete,
}
use native.Mathlib.Nat.{pow-suc}
use toy_riscv_kernel.Buddy.{remove_tag}
use toy_riscv_kernel.Buddy.Chain.{has, insert, remove}
use toy_riscv_kernel.Buddy.Pool.{FreeLists, update}
use toy_riscv_kernel.Buddy.Release.{buddy, release, release-kept, release-merged}

-- The pages in the blocks of the first `n` orders.
unfoldable pub pages_below : ℕ → FreeLists → ℕ
pages_below zero P = 0
pages_below (suc n) P = length (P n) * 2 ^ n + pages_below n P

unfoldable pub free_pages : FreeLists → ℕ
unfolding pages_below
free_pages P = pages_below 16 P

length-insert : (a : ℕ) (xs : List ℕ) → length (insert a xs) ≡ length xs + 1
unfolding insert
length-insert a [] = omega arith
length-insert a (x ∷ xs) = ground (arith, length-insert a xs)

length-remove : (a : ℕ) (xs : List ℕ) → has a xs ≡ true → length (remove a xs) + 1 ≡ length xs
unfolding remove
length-remove a [] h = cc
length-remove a (x ∷ xs) h = ground (arith, length-remove a xs)

pages_below-above :
    (n k : ℕ) (P : FreeLists) (xs : List ℕ)
    → n ≤ k
    → pages_below n (update P k xs) ≡ pages_below n P
unfolding pages_below
pages_below-above zero k P xs le = refl
pages_below-above (suc n) k P xs le = ground (arith, pages_below-above n k P xs)

pub pages_below-update :
    (n k : ℕ) (P : FreeLists) (xs : List ℕ)
    → k < n
    → pages_below n (update P k xs) + length (P k) * 2 ^ k ≡ pages_below n P + length xs * 2 ^ k
unfolding pages_below
pages_below-update zero k P xs lt = elim lt [ ]
pages_below-update (suc n) k P xs lt = elim (ℕ_discrete n k) [
  | yes e ↦ rw e (ground (arith, pages_below-above k k P xs))
  | no ne ↦ ground (arith, pages_below-update n k P xs)
]

-- Merging keeps the count: giving back a block of order `k` adds 2 ^ k free pages.
pub release-free_pages :
    (rows a k : ℕ) (P Q : FreeLists)
    → rows + k ≤ 16
    → release rows P a k ≡ some Q
    → free_pages Q ≡ free_pages P + 2 ^ k
unfolding free_pages
release-free_pages zero a k P Q room h = absurd (unfold release in cc)
release-free_pages (suc rows) a k P Q room h = elim (Bool-cases (has (buddy a k) (P k))) [
  | inr out ↦
      let kept : update P k (insert a (P k)) ≡ Q =
        eq_of_some (sym (release-kept rows a k P out) ∙ h) in
      subst (λ R. pages_below 16 R ≡ pages_below 16 P + 2 ^ k) kept
        (omega (
          arith,
          pages_below-update 16 k P (insert a (P k)) (omega arith),
          ap (λ (n : ℕ). n * 2 ^ k) (length-insert a (P k)),
        ))
  | inl free ↦
      let less = length-remove (buddy a k) (P k) free in
      omega (
        arith,
        release-free_pages rows (remove_tag a k) (suc k) (update P k (remove (buddy a k) (P k))) Q
            (omega arith) (sym (release-merged rows a k P free) ∙ h),
        pages_below-update 16 k P (remove (buddy a k) (P k)) (omega arith),
        ap (λ (n : ℕ). n * 2 ^ k) less,
        pow-suc 2 k,
      )
]
