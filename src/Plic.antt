-- ===== src/Plic.antt =====
-- kernel/plic.c: the interrupt controller, whose registers are words of the memory. There is one
-- hart, whose number `cpuid` gives as 0.
use toy_riscv_kernel.Prelude.{
  ℕ, zero, suc, ◌+◌, ◌*◌, ◌/◌, ◌%◌, ◌^◌, ◌<◌, ◌≡◌, refl, subst, Bool-cases, ◌&&◌, ◌⊎◌, inl, inr,
  Bool, true, false, not, ◌||◌, arith, ◌==◌,
}
use Prim.{absurd}
use Prim.Native.Nat.{bit_or}
use toy_riscv_kernel.Machine.{Mem, write}

abbrev pub uart0_irq : ℕ
uart0_irq = 10

abbrev pub virtio0_irq : ℕ
virtio0_irq = 1

abbrev pub plic : ℕ
plic = 201326592

abbrev pub cpuid : ℕ
cpuid = 0

-- PLIC_SENABLE, PLIC_SPRIORITY and PLIC_SCLAIM
abbrev pub plic_senable : ℕ → ℕ
plic_senable hart = plic + 8320 + hart * 256

abbrev pub plic_spriority : ℕ → ℕ
plic_spriority hart = plic + 2101248 + hart * 8192

abbrev pub plic_sclaim : ℕ → ℕ
plic_sclaim hart = plic + 2101252 + hart * 8192

unfoldable pub plicinit : Mem → Mem
plicinit m = write (write m (plic + uart0_irq * 4) 1) (plic + virtio0_irq * 4) 1

unfoldable pub plicinithart : Mem → Mem
plicinithart m =
    write (write m (plic_senable cpuid) (bit_or (2 ^ uart0_irq) (2 ^ virtio0_irq)))
      (plic_spriority cpuid) 0

unfoldable pub plic_claim : Mem → ℕ
plic_claim m = m (plic_sclaim cpuid)

unfoldable pub plic_complete : ℕ → Mem → Mem
plic_complete irq m = write m (plic_sclaim cpuid) irq

abbrev wanted : ℕ → Bool
wanted irq = (irq == uart0_irq) || (irq == virtio0_irq)

abbrev is_same : Bool → Bool → Bool
is_same true b = b
is_same false b = not b

is_same-eq : (a b : Bool) → is_same a b ≡ true → a ≡ b
is_same-eq true true e = refl
is_same-eq true false e = absurd (cc)
is_same-eq false true e = absurd (cc)
is_same-eq false false e = refl

and_of : (a b : Bool) → (a && b) ≡ true → (a ≡ true) × (b ≡ true)
and_of true b e = (refl, e)
and_of false b e = absurd (cc)

-- Whether the two bits of 1026 are those wanted, below `n`.
abbrev all_below : ℕ → Bool
all_below zero = true
all_below (suc n) = is_same (1026 / 2 ^ n % 2 == 1) (wanted n) && all_below n

all_below-at :
    (n irq : ℕ)
    → all_below n ≡ true
    → irq < n
    → is_same (1026 / 2 ^ irq % 2 == 1) (wanted irq) ≡ true
all_below-at zero irq e lt = absurd (omega (arith, lt))
all_below-at (suc n) irq e lt =
    let (here, below) = and_of (is_same (1026 / 2 ^ n % 2 == 1) (wanted n)) (all_below n) e in
    elim (Bool-cases (irq == n)) [
      | inl last ↦
          let e : n ≡ irq = ground (arith, last) in
          subst (λ k. is_same (1026 / 2 ^ k % 2 == 1) (wanted k) ≡ true) e here
      | inr before ↦ all_below-at n irq below (ground (arith, lt, before))
    ]

-- After `plicinit` and `plicinithart` an interrupt of the first 32 is enabled for the hart exactly
-- if it is that of the serial port or of the disk, and then its priority is above the hart's
-- threshold.
pub plic-enabled :
    (m : Mem) (irq : ℕ)
    → irq < 32
    → let m' = plicinithart (plicinit m) in
      ((m' (plic_senable cpuid) / 2 ^ irq % 2 == 1) ≡ ((irq == uart0_irq) || (irq == virtio0_irq)))
      × ((((irq == uart0_irq) || (irq == virtio0_irq)) ≡ false)
          ⊎ (m' (plic_spriority cpuid) < m' (plic + irq * 4)))
unfolding plicinithart plicinit write
plic-enabled m irq lt = (
  is_same-eq (1026 / 2 ^ irq % 2 == 1) (wanted irq) (all_below-at 32 irq refl lt),
  elim (Bool-cases ((irq == uart0_irq) || (irq == virtio0_irq))) [
    | inr neither ↦ inl neither
    | inl is ↦ inr (elim (Bool-cases (irq == uart0_irq)) [
      | inl uart ↦ let e : irq ≡ 10 = ground (arith, uart) in rw e (omega arith)
      | inr other ↦ let e : irq ≡ 1 = ground (arith, other, is) in rw e (omega arith)
    ])
  ],
)
