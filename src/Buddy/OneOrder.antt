-- ===== src/Buddy/OneOrder.antt =====
-- One order of `deallocate`: the walk and the splice, on the list that the order's free blocks
-- form.
use toy_riscv_kernel.Prelude.{
  ℕ, zero, suc, ◌+◌, ◌-◌, ◌<◌, ◌≡◌, refl, ◌∙◌, ◌≢◌, ◌⊎◌, inl, inr, true, false, Option, some, List,
  [], ◌∷◌, arith, ◌==◌, if◌then◌else◌, lt→ltb, Bool-cases, length, dec_lt, ℕ_discrete,
}
use toy_riscv_kernel.Machine.{Mem, null, write}
use toy_riscv_kernel.Buddy.{
  block_size, is_odd, remove_tag, walk_odd, walk_even, Level, kept, merged, finish_odd, finish_even,
}
use toy_riscv_kernel.Buddy.Chain.{
  has, Chain, SameOutside, insert, remove, not-has_of_le, Chain-unlink, Chain-link,
}
use toy_riscv_kernel.Buddy.Blocks.{IsAligned, block_size-pos, aligned_apart, odd-le, is_odd-add}

-- The list that is left: without the buddy `b` if that is free, with `a` if it is not.
abbrev pub settle : ℕ → ℕ → List ℕ → List ℕ
settle a b xs = if has b xs then remove b xs else insert a xs

abbrev pub Aligned : ℕ → List ℕ → Type 0
Aligned power xs = (x : ℕ) → has x xs ≡ true → IsAligned power x

-- A run of one order's code that frees `a`, whose buddy is `b`; `up` goes to the next order.
pub record Settles (m : Mem) (a b up p : ℕ) (xs : List ℕ) (run : Option Level) : Type 0 where
  pub after : Mem
  pub outcome : run ≡ some (if has b xs then merged after up else kept after)
  pub chain : Chain after p (settle a b xs)
  pub same : SameOutside m after a p xs

module _ (a b x : ℕ) (xs : List ℕ) where
  settle_past : x < a → (b == x) ≡ false → settle a b (x ∷ xs) ≡ x ∷ settle a b xs
  unfolding insert remove
  settle_past below ne = ground arith

  settle_hit : (b == x) ≡ true → settle a b (x ∷ xs) ≡ xs
  unfolding remove
  settle_hit eq = ground arith

  pub settle_before : a < x → has b (x ∷ xs) ≡ false → settle a b (x ∷ xs) ≡ a ∷ x ∷ xs
  unfolding insert
  settle_before above out = rw (out, lt→ltb a x above)

pub insert_front :
    (a : ℕ) (xs : List ℕ) → ((y : ℕ) → has y xs ≡ true → a < y) → insert a xs ≡ a ∷ xs
unfolding insert
insert_front a [] beyond = refl
insert_front a (x ∷ xs) beyond = rw (lt→ltb a x (beyond x (ground arith)))

settle_behind :
    (a b x : ℕ) (xs : List ℕ)
    → x < a
    → has b (x ∷ xs) ≡ false
    → ((y : ℕ) → has y xs ≡ true → a < y)
    → settle a b (x ∷ xs) ≡ x ∷ a ∷ xs
unfolding insert
settle_behind a b x xs below out beyond = rw out (ground (arith, insert_front a xs beyond))

module _ (m : Mem) (power a : ℕ) (block : IsAligned power a) where
  -- The walk goes on past `x`.
  even_step :
      (fuel p x : ℕ) (xs : List ℕ)
      → p < x
      → x < a
      → m p ≡ x
      → Chain m x xs
      → Settles m a
          (a + block_size power)
          a
          x
          xs
          (finish_even m a power (walk_even fuel m a x (m x)))
      → Settles m a
          (a + block_size power)
          a
          p
          (x ∷ xs)
          (finish_even m a power (walk_even (suc fuel) m a p (m p)))
  unfolding walk_even
  even_step fuel p x xs lt below e c r = record {
    after = r.after;
    outcome = rw (e, walk_even) (ground (arith, r.outcome));
    chain = rw (settle_past a (a + block_size power) x xs below (ground arith)) (
      lt,
      r.same p (ground arith) (ground arith) (not-has_of_le m p x xs c (omega arith)) ∙ e,
      r.chain,
    );
    same = λ b na np out. r.same b na (ground arith) (ground arith);
  }

  -- The walk stops before `x`, the buddy.
  even_hit :
      (fuel p x : ℕ) (xs : List ℕ)
      → p < a
      → m p ≡ x
      → Chain m x xs
      → x ≡ a + block_size power
      → is_odd a power ≡ false
      → Settles m a
          (a + block_size power)
          a
          p
          (x ∷ xs)
          (finish_even m a power (walk_even (suc fuel) m a p (m p)))
  unfolding walk_even finish_even remove_tag
  even_hit fuel p x xs lt e c is even =
      let odd : is_odd x power ≡ true = rw is (is_odd-add power a block even) in
      record {
        after = write m p (m x);
        outcome = rw (e, walk_even) (ground (arith, block_size-pos power));
        chain =
            rw (settle_hit a (a + block_size power) x xs (ground arith))
              (Chain-unlink m p x xs (omega arith) c);
        same = λ b na np out. unfold write in ground arith;
      }

  -- The walk stops before `x`, and the buddy is not free.
  even_miss :
      (fuel p x : ℕ) (xs : List ℕ)
      → p < a
      → a < x
      → m p ≡ x
      → Chain m x xs
      → IsAligned power x
      → x ≢ a + block_size power
      → Settles m a
          (a + block_size power)
          a
          p
          (x ∷ xs)
          (finish_even m a power (walk_even (suc fuel) m a p (m p)))
  unfolding walk_even finish_even remove_tag
  even_miss fuel p x xs lt above e c to ne =
      let far = aligned_apart power block to above in
      let out : has (a + block_size power) (x ∷ xs) ≡ false =
        ground (arith, not-has_of_le m (a + block_size power) x xs c (omega arith)) in
      record {
        after = write (write m a (m p)) p a;
        outcome = rw (out, e, walk_even) (ground arith);
        chain = rw (settle_before a (a + block_size power) x xs above out) (
            Chain-link m a p (x ∷ xs) lt (omega arith, e, c)
              (λ y h. ground (arith, not-has_of_le m y x xs c)));
        same = λ b na np away. unfold write in ground arith;
      }

  -- The even case: the block above is the buddy.
  pub even-Settles :
      (fuel p : ℕ) (xs : List ℕ)
      → is_odd a power ≡ false
      → p < a
      → Chain m p xs
      → has a xs ≡ false
      → Aligned power xs
      → length xs < fuel
      → Settles m a
          (a + block_size power)
          a
          p
          xs
          (finish_even m a power (walk_even fuel m a p (m p)))
  even-Settles zero p xs even lt c out to room = absurd (omega arith)
  even-Settles (suc fuel) p [] even lt c out to room = record {
    after = write (write m a (m p)) p a;
    outcome = rw c (unfold walk_even finish_even in ground arith);
    chain = unfold insert in Chain-link m a p [] lt c (λ y h. cc);
    same = λ b na np away. unfold write in ground arith;
  }
  even-Settles (suc fuel) p (x ∷ xs) even lt (up, e, c) out to room =
      let here : IsAligned power x = to x (ground arith) in
      elim (dec_lt x a) [
        | yes below ↦ even_step fuel p x xs up below e c (
            even-Settles fuel x xs even below c (ground arith) (λ y h. to y (ground arith))
              (omega arith))
        | no beyond ↦
            let above : a < x = ground arith in
            elim (ℕ_discrete x (a + block_size power)) [
              | yes is ↦ even_hit fuel p x xs lt e c is even
              | no ne ↦ even_miss fuel p x xs lt above e c here ne
            ]
      ]

  -- The odd case: the block below is the buddy, and the walk keeps the two nodes before the place.
  odd_step :
      (fuel p x y : ℕ) (ys : List ℕ)
      → p < x
      → x < y
      → y < a
      → m p ≡ x
      → m x ≡ y
      → Chain m y ys
      → IsAligned power y
      → IsAligned power x
      → is_odd a power ≡ true
      → Settles m a
          (a - block_size power)
          (a - block_size power)
          x
          (y ∷ ys)
          (finish_odd m a power (walk_odd fuel m a x y (m y)))
      → Settles m a
          (a - block_size power)
          (a - block_size power)
          p
          (x ∷ y ∷ ys)
          (finish_odd m a power (walk_odd (suc fuel) m a p x (m x)))
  unfolding walk_odd
  odd_step fuel p x y ys lt up below e e' c to_y to_x odd r =
      let size = odd-le power a block odd in
      let gap = aligned_apart power to_y block below in
      record {
        after = r.after;
        outcome = rw (e', walk_odd) (ground (arith, r.outcome));
        chain = rw (settle_past a (a - block_size power) x (y ∷ ys) (omega arith) (ground arith)) (
          lt,
          r.same p (ground arith) (ground arith)
                (not-has_of_le m p x (y ∷ ys) (up, e', c) (omega arith))
              ∙ e,
          r.chain,
        );
        same = λ b na np away. r.same b na (ground arith) (ground arith);
      }

  -- The walk ends behind `x`: `x` is the buddy, or the block goes between `x` and what follows.
  odd_end :
      (fuel p x : ℕ) (xs : List ℕ)
      → p < x
      → x < a
      → m p ≡ x
      → Chain m x xs
      → ((y : ℕ) → has y xs ≡ true → a < y)
      → is_odd a power ≡ true
      → Settles m a
          (a - block_size power)
          (a - block_size power)
          p
          (x ∷ xs)
          (finish_odd m a power (some (p, x, m x)))
  unfolding finish_odd remove_tag
  odd_end fuel p x xs lt below e c beyond odd =
      let size = odd-le power a block odd in
      elim (Bool-cases (a - block_size power == x)) [
        | inl is ↦ record {
          after = write m p (m x);
          outcome = ground arith;
          chain = rw (settle_hit a (a - block_size power) x xs is) (Chain-unlink m p x xs lt c);
          same = λ b na np away. unfold write in ground arith;
        }
        | inr ne ↦
            let out : has (a - block_size power) (x ∷ xs) ≡ false =
              ground (arith, beyond (a - block_size power)) in
            record {
              after = write (write m a (m x)) x a;
              outcome = ground arith;
              chain =
                  rw (settle_behind a (a - block_size power) x xs below out beyond)
                    (lt, unfold write in ground arith, Chain-link m a x xs below c beyond);
              same = λ b na np away. unfold write in ground arith;
            }
      ]

  walk_odd-stop :
      (fuel p x n : ℕ) → (n ≡ null) ⊎ (a < n) → walk_odd (suc fuel) m a p x n ≡ some (p, x, n)
  unfolding walk_odd
  walk_odd-stop fuel p x n h = ground arith

  pub odd-Settles :
      (fuel p x : ℕ) (xs : List ℕ)
      → is_odd a power ≡ true
      → p < x
      → x < a
      → m p ≡ x
      → Chain m x xs
      → has a xs ≡ false
      → Aligned power (x ∷ xs)
      → length xs < fuel
      → Settles m a
          (a - block_size power)
          (a - block_size power)
          p
          (x ∷ xs)
          (finish_odd m a power (walk_odd fuel m a p x (m x)))
  odd-Settles zero p x xs odd lt below e c out to room = absurd (omega arith)
  odd-Settles (suc fuel) p x [] odd lt below e c out to room =
      rw (walk_odd-stop fuel p x (m x) (inl c)) (odd_end fuel p x [] lt below e c (λ y h. cc) odd)
  odd-Settles (suc fuel) p x (y ∷ ys) odd lt below e (up, e', c) out to room = elim (dec_lt y a) [
    | yes on ↦
        odd_step fuel p x y ys lt up on e e' c (to y (ground arith)) (to x (ground arith)) odd (
          odd-Settles fuel x y ys odd up on e' c (ground arith) (λ z h. to z (ground arith))
            (omega arith))
    | no stop ↦
        let above : a < y = ground arith in
        rw (walk_odd-stop fuel p x (m x) (inr (omega arith))) (
          odd_end fuel p x (y ∷ ys) lt below e (up, e', c)
            (λ z h. ground (arith, not-has_of_le m z y ys c)) odd)
  ]
