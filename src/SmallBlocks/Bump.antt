-- ===== src/SmallBlocks/Bump.antt =====
-- What `kmalloc` does while the list of blocks is not empty: it takes every object from the tail.
use toy_riscv_kernel.Prelude.{
  ℕ, ◌+◌, ◌-◌, ◌^◌, ◌≤◌, ◌<◌, ◌≡◌, refl, ap, ◌∙◌, ◌≢◌, true, false, some, arith, ◌==◌, ==_iff,
}
use native.Mathlib.Nat.{pow-le-pow_right}
use toy_riscv_kernel.Machine.{null, write, write-same, write-other, set_interrupt_status}
use toy_riscv_kernel.Buddy.{block_size, kernel_start}
use toy_riscv_kernel.SmallBlocks.{
  Blocks, power_at, count_at, free_at, meta_size, header_size, u64, remained_size, align,
  gross_size, tail_not_enough, take_object, kmalloc_rounds, kmalloc, kfree,
}

-- The tail is a block of the buddy allocator, and its free pointer lies behind its meta data.
pub record IsTail (s : Blocks) : Type 0 where
  pub low : kernel_start ≤ s.tail
  pub power : s.machine.mem (power_at s.tail) ≤ 15
  pub free_low : s.tail + meta_size ≤ s.machine.mem (free_at s.tail)
  pub free_high : s.machine.mem (free_at s.tail) < 2 ^ 62

block_size-le : (power : ℕ) → power ≤ 15 → block_size power ≤ 2 ^ 27
unfolding block_size
block_size-le power le = let two : 0 < 2 = omega arith in omega (arith, pow-le-pow_right two le)

align_bounds : (size : ℕ) → size < 2 ^ 62 → (size ≤ align size) × (align size < size + 8)
unfolding align
align_bounds size lt = omega arith

gross_size-align : (size : ℕ) → size < 2 ^ 62 → gross_size size ≡ align size + 16
unfolding gross_size
gross_size-align size lt = omega (arith, align_bounds size lt)

module _ (s : Blocks) (tail : IsTail s) (size : ℕ) (lt : size < 2 ^ 62) where
  never_full : tail_not_enough s.machine.mem s.tail size ≡ false
  unfolding tail_not_enough remained_size
  never_full =
      let some_tail : (s.tail == null) ≡ false = ground (arith, tail.low) in
      rw some_tail (
        ground (
          arith,
          tail.low,
          tail.free_low,
          tail.free_high,
          block_size-le (s.machine.mem (power_at s.tail)) tail.power,
          gross_size-align size lt,
          align_bounds size lt,
        ))

  kmalloc-take_object : (pool : ℕ) → kmalloc pool size s ≡ some (take_object size s)
  unfolding kmalloc kmalloc_rounds set_interrupt_status take_object
  kmalloc-take_object pool = rw (kmalloc_rounds, never_full) refl

  -- For a well-formed tail and less than 2 ^ 62 bytes, where the object does not fit between the
  -- tail's free pointer and its end, `kmalloc` places it there all the same, and it ends behind the
  -- block.
  pub kmalloc_overrun :
      (pool : ℕ)
      → s.tail + block_size (s.machine.mem (power_at s.tail))
        < s.machine.mem (free_at s.tail) + gross_size size
      → (t : Blocks) × (ret : ℕ) × (kmalloc pool size s ≡ some (t, ret))
        × (ret ≡ s.machine.mem (free_at s.tail) + header_size)
        × (s.tail + block_size (s.machine.mem (power_at s.tail)) < ret + align size)
  unfolding take_object
  kmalloc_overrun pool over =
      let whole = gross_size-align size lt in
      let fits : u64 (s.machine.mem (free_at s.tail) + header_size)
          ≡ s.machine.mem (free_at s.tail) + header_size =
        omega (arith, tail.free_high) in
      ((take_object size s).0, (take_object size s).1, kmalloc-take_object pool, fits, omega arith)

  taken_words :
      let t = (take_object size s).0.machine.mem in
      let f = s.machine.mem (free_at s.tail) in
      (t (free_at s.tail) ≡ f + gross_size size)
      × (t (count_at s.tail) ≡ u64 (s.machine.mem (count_at s.tail) + 1))
      × (t (power_at s.tail) ≡ s.machine.mem (power_at s.tail))
      × (t f ≡ align size)
      × (t (f + 8) ≡ s.tail)
      × ((take_object size s).1 ≡ f + header_size)
  unfolding take_object write
  taken_words =
      let room = align_bounds size lt in
      let whole = gross_size-align size lt in
      (
        ground (arith, tail.free_low, tail.free_high),
        ground (arith, tail.free_low, tail.free_high),
        ground (arith, tail.free_low, tail.free_high),
        ground (arith, tail.free_low, tail.free_high),
        ground (arith, tail.free_low, tail.free_high),
        omega (arith, tail.free_high),
      )

  taken-IsTail :
      s.machine.mem (free_at s.tail) + gross_size size < 2 ^ 62 → IsTail (take_object size s).0
  unfolding take_object
  taken-IsTail room =
      let words = taken_words in
      record {
        low = tail.low;
        power = unfold write in ground (arith, tail.free_low, tail.power);
        free_low = unfold write in ground (arith, tail.free_low);
        free_high = unfold write in ground (arith, tail.free_low);
      }

-- The object that `kmalloc` gave last, given back: the free pointer and the count are as before,
-- and only the object's header has changed.
kfree_last :
    (pool : ℕ) (s t : Blocks) (f size : ℕ)
    → t.machine.mem (f + 8) ≡ s.tail
    → t.machine.mem f ≡ size
    → s.tail + meta_size ≤ f
    → f < 2 ^ 62
    → size < 2 ^ 62 + 8
    → t.machine.mem (free_at s.tail) ≡ f + (size + 16)
    → 1 < t.machine.mem (count_at s.tail)
    → t.machine.mem (count_at s.tail) < 2 ^ 64
    → kfree pool (f + header_size) t
      ≡ some (record t {
        machine = record (t.machine) {
          mem =
              write
                (write t.machine.mem (count_at s.tail) (t.machine.mem (count_at s.tail) - 1))
                (free_at s.tail)
                f;
        };
      })
unfolding kfree set_interrupt_status
kfree_last pool s t f size block sized low high small free count few =
    let header : f + header_size - header_size ≡ f = omega arith in
    let some_addr : (f + header_size == null) ≡ false = ground arith in
    let less : u64 (t.machine.mem (count_at s.tail) + 2 ^ 64 - 1)
        ≡ t.machine.mem (count_at s.tail) - 1 =
      omega arith in
    let c = t.machine.mem (count_at s.tail) - 1 in
    let m = write t.machine.mem (count_at s.tail) c in
    let left : (c == 0) ≡ false = ground arith in
    let sum : u64 (f + header_size + size) ≡ f + (size + 16) = omega arith in
    let same : (f + (size + 16) == f + (size + 16)) ≡ true = (==_iff _ _).1 refl in
    let at_free : m (free_at s.tail) ≡ f + (size + 16) =
      write-other t.machine.mem (count_at s.tail) c (free_at s.tail) (omega arith) ∙ free in
    let at_f : m f ≡ size = write-other t.machine.mem (count_at s.tail) c f (omega arith) ∙ sized in
    rw
      (
        some_addr,
        header,
        block,
        less,
        write-same t.machine.mem (count_at s.tail) c,
        left,
        at_free,
        at_f,
        sum,
        same,
      )
      refl

module _ (s : Blocks) (tail : IsTail s) (size : ℕ) (lt : size < 2 ^ 62) (pool : ℕ) where
  -- Two objects of less than 2 ^ 62 bytes that `kmalloc` takes one after the other from a well-
  -- formed tail, whose free pointer stays below 2 ^ 62, do not overlap: the header of the second
  -- lies behind the first.
  pub kmalloc_apart :
      (next : ℕ)
      → next < 2 ^ 62
      → s.machine.mem (free_at s.tail) + gross_size size < 2 ^ 62
      → (t : Blocks) × (first : ℕ) × (u : Blocks) × (second : ℕ) × (kmalloc pool size s
          ≡ some (t, first))
        × (kmalloc pool next t ≡ some (u, second))
        × (first + align size + header_size ≤ second)
  kmalloc_apart next lt' room =
      let t = (take_object size s).0 in
      let tail' = taken-IsTail s tail size lt room in
      let words = taken_words s tail size lt in
      let words' = taken_words t tail' next lt' in
      let same : t.tail ≡ s.tail = unfold take_object in refl in
      let at = ap (λ (b : ℕ). t.machine.mem (free_at b)) same ∙ words.0 in
      (
        t,
        (take_object size s).1,
        (take_object next t).0,
        (take_object next t).1,
        kmalloc-take_object s tail size lt pool,
        kmalloc-take_object t tail' next lt' pool,
        omega (arith, words.5, words'.5, at, gross_size-align size lt),
      )

  -- If a well-formed tail has an object already, and fewer than 2 ^ 63, and its free pointer stays
  -- below 2 ^ 62 when less than 2 ^ 62 bytes are taken, giving back the object that `kmalloc` gave
  -- last restores every word but the two of the object's header, and the interrupts and the list as
  -- they were.
  pub kfree-kmalloc :
      0 < s.machine.mem (count_at s.tail)
      → s.machine.mem (count_at s.tail) < 2 ^ 63
      → s.machine.mem (free_at s.tail) + gross_size size < 2 ^ 62
      → (t : Blocks) × (ret : ℕ) × (u : Blocks) × (kmalloc pool size s ≡ some (t, ret))
        × (kfree pool ret t ≡ some u)
        × ((a : ℕ)
            → a ≢ s.machine.mem (free_at s.tail)
            → a ≢ s.machine.mem (free_at s.tail) + 8
            → u.machine.mem a ≡ s.machine.mem a)
        × (u.machine.sie ≡ s.machine.sie)
        × (u.head ≡ s.head)
        × (u.tail ≡ s.tail)
  kfree-kmalloc some_object few room =
      let t = (take_object size s).0 in
      let f = s.machine.mem (free_at s.tail) in
      let words = taken_words s tail size lt in
      let c = t.machine.mem (count_at s.tail) - 1 in
      (
        t,
        (take_object size s).1,
        record t {
          machine = record (t.machine) {
            mem = write (write t.machine.mem (count_at s.tail) c) (free_at s.tail) f;
          };
        },
        kmalloc-take_object s tail size lt pool,
        rw words.5 (
            kfree_last pool s t f (align size) words.4 words.3 tail.free_low tail.free_high
              (omega (arith, align_bounds size lt))
              (words.0 ∙ ap (λ (n : ℕ). f + n) (gross_size-align size lt)) (omega (arith, words.1))
              (omega (arith, words.1))),
        λ a na nb. unfold take_object write in ground (arith, tail.free_low),
        unfold take_object in refl,
        unfold take_object in refl,
        unfold take_object in refl,
      )
