-- ===== src/Buddy/Blocks.antt =====
-- Addresses of blocks: multiples of the block's size, and the tag that tells the two halves of the
-- next larger block apart.
use toy_riscv_kernel.Prelude.{
  ℕ, zero, suc, ◌+◌, ◌*◌, ◌/◌, ◌%◌, ◌≤◌, ◌<◌, ◌≡◌, sym, ap, ◌∙◌, ◌≢◌, inl, inr, true, false, arith,
  ◌==◌, ==_iff, Bool-cases, dec_lt,
}
use native.Mathlib.Nat.{mul-le-mul_right, add-mul, mul-div_cancel, pow-suc}
use toy_riscv_kernel.Buddy.{block_size, is_odd, remove_tag}

-- `a` is the address of a block of the given order.
abbrev pub IsAligned : ℕ → ℕ → Type 0
IsAligned power a = (q : ℕ) × (a ≡ q * block_size power)

pub block_size-pos : (power : ℕ) → 0 < block_size power
unfolding block_size
block_size-pos zero = omega arith
block_size-pos (suc power) = omega (arith, pow-suc 2 power, block_size-pos power)

pub block_size-suc : (power : ℕ) → block_size (suc power) ≡ 2 * block_size power
unfolding block_size
block_size-suc power = omega (arith, pow-suc 2 power)

module _ (power : ℕ) where
  -- Two different blocks of one order do not overlap.
  pub aligned_apart :
      {a b : ℕ} → IsAligned power a → IsAligned power b → a < b → a + block_size power ≤ b
  aligned_apart {a} {b} (q, e) (r, e') lt = elim (dec_lt q r) [
    | yes above ↦
        omega (arith, mul-le-mul_right (block_size power) above, add-mul q 1 (block_size power))
    | no below ↦
        let reach : r ≤ q = omega arith in
        absurd (omega (arith, mul-le-mul_right (block_size power) reach))
  ]

  pub is_odd-parity : (a q : ℕ) → a ≡ q * block_size power → is_odd a power ≡ (q % 2 == 1)
  unfolding is_odd
  is_odd-parity a q e = rw (e, mul-div_cancel q (block_size-pos power))

  -- What two merged buddies start at.
  pub remove_tag-IsAligned :
      (a : ℕ) → IsAligned power a → IsAligned (suc power) (remove_tag a power)
  unfolding remove_tag
  remove_tag-IsAligned a (q, e) =
      let parity = is_odd-parity a q e in
      elim (Bool-cases (is_odd a power)) [
        | inl odd ↦
            let rest : q % 2 ≡ 1 = (==_iff (q % 2) 1).0 (sym parity ∙ odd) in
            let half : q ≡ q / 2 + q / 2 + 1 = omega arith in
            (
              q / 2,
              rw (odd, block_size-suc power)
                  (omega (arith, ap (λ (n : ℕ). n * block_size power) half)),
            )
        | inr even ↦
            let rest : q % 2 ≢ 1 = λ h. ground (arith, parity) in
            let half : q ≡ q / 2 + q / 2 = omega arith in
            (
              q / 2,
              rw (even, block_size-suc power)
                  (omega (arith, ap (λ (n : ℕ). n * block_size power) half)),
            )
      ]

  -- An odd block has a whole block of its order below it.
  pub odd-le : (a : ℕ) → IsAligned power a → is_odd a power ≡ true → block_size power ≤ a
  odd-le a (q, e) odd =
      let rest : q % 2 ≡ 1 = (==_iff (q % 2) 1).0 (sym (is_odd-parity a q e) ∙ odd) in
      let some_block : 1 ≤ q = omega arith in
      omega (arith, mul-le-mul_right (block_size power) some_block)

  -- The upper half of an even block's parent is odd.
  pub is_odd-add :
      (a : ℕ)
      → IsAligned power a
      → is_odd a power ≡ false
      → is_odd (a + block_size power) power ≡ true
  is_odd-add a (q, e) even =
      rw
        (is_odd-parity (a + block_size power) (q + 1)
          (omega (arith, add-mul q 1 (block_size power))))
        (ground (arith, is_odd-parity a q e))
