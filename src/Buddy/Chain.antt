-- ===== src/Buddy/Chain.antt =====
-- The sorted lists that the free blocks of one order form, as a predicate on the memory.
use toy_riscv_kernel.Prelude.{
  ℕ, ◌≤◌, ◌<◌, ◌≡◌, refl, ◌∙◌, ◌≢◌, ◌⊎◌, inl, inr, Bool, true, false, ◌||◌, List, [], ◌∷◌, arith,
  ltb, ◌==◌, if◌then◌else◌,
}
use toy_riscv_kernel.Machine.{Mem, null, write}

abbrev pub has : ℕ → List ℕ → Bool
has a [] = false
has a (x ∷ xs) = (a == x) || has a xs

-- The words from `p` on lead through `xs`, at growing addresses, to a null pointer.
abbrev pub Chain : Mem → ℕ → List ℕ → Type 0
Chain m p [] = m p ≡ null
Chain m p (x ∷ xs) = (p < x) × (m p ≡ x) × Chain m x xs

-- `g` differs from `m` at most at `p`, at `a` and at the nodes of `xs`.
abbrev pub SameOutside : Mem → Mem → ℕ → ℕ → List ℕ → Type 0
SameOutside m g a p xs = (b : ℕ) → b ≢ a → b ≢ p → has b xs ≡ false → g b ≡ m b

unfoldable pub insert : ℕ → List ℕ → List ℕ
insert a [] = a ∷ []
insert a (x ∷ xs) = if ltb a x then a ∷ x ∷ xs else x ∷ insert a xs

unfoldable pub remove : ℕ → List ℕ → List ℕ
remove a [] = []
remove a (x ∷ xs) = if a == x then xs else x ∷ remove a xs

module _ (m : Mem) where
  -- Nothing at or below the start of a chain is one of its nodes.
  pub not-has_of_le : (a p : ℕ) (xs : List ℕ) → Chain m p xs → a ≤ p → has a xs ≡ false
  not-has_of_le a p [] c h = refl
  not-has_of_le a p (x ∷ xs) (lt, e, c) h = ground (arith, not-has_of_le a x xs c (omega arith))

  pub Chain-frame :
      (g : Mem) (p : ℕ) (xs : List ℕ)
      → Chain m p xs
      → ((b : ℕ) → (b ≡ p) ⊎ (has b xs ≡ true) → g b ≡ m b)
      → Chain g p xs
  Chain-frame g p [] c same = same p (inl refl) ∙ c
  Chain-frame g p (x ∷ xs) (lt, e, c) same =
      (lt, same p (inl refl) ∙ e, Chain-frame g x xs c (λ b h. same b (inr (ground arith))))

  -- The node after `p` is taken out.
  pub Chain-unlink : (p x : ℕ) (xs : List ℕ) → p < x → Chain m x xs → Chain (write m p (m x)) p xs
  unfolding write
  Chain-unlink p x [] lt c = ground arith
  Chain-unlink p x (y ∷ ys) lt (lt', e, c) = (
    omega arith,
    ground arith,
    Chain-frame (write m p (m x)) y ys c
        (λ b h. ground (arith, not-has_of_le p y ys c (omega arith))),
  )

  -- A new node goes between `p` and what follows it.
  pub Chain-link :
      (a p : ℕ) (xs : List ℕ)
      → p < a
      → Chain m p xs
      → ((x : ℕ) → has x xs ≡ true → a < x)
      → Chain (write (write m a (m p)) p a) p (a ∷ xs)
  unfolding write
  Chain-link a p [] lt c above = (lt, ground arith, ground arith)
  Chain-link a p (x ∷ xs) lt (lt', e, c) above =
      let beyond : a < x = above x (ground arith) in
      (
        lt,
        ground arith,
        (
          beyond,
          ground arith,
          Chain-frame (write (write m a (m p)) p a) x xs c (λ b h.
              ground (
                arith,
                not-has_of_le p x xs c (omega arith),
                not-has_of_le a x xs c (omega arith),
              )),
        ),
      )
