-- ===== src/VirtualMemory/Entries.antt =====
-- Page table entries: what `PA2PTE(pa) | permission | PTE_V` holds, and the indices of an address.
use toy_riscv_kernel.Prelude.{ℕ, ◌+◌, ◌-◌, ◌*◌, ◌/◌, ◌%◌, ◌^◌, ◌<◌, ◌≡◌, ap, true, arith}
use Prim.Native.Nat.{bit_or}
use toy_riscv_kernel.Prelude.BitOr.{bit_or-apart, bit_or-one}
use toy_riscv_kernel.VirtualMemory.{
  max_va, pte_v, page_round_down, page_offset, pa_to_pte, pte_to_pa, pte_flags, px, is_valid,
}

-- The entry that `map_page` writes.
abbrev pub entry : ℕ → ℕ → ℕ
entry pa permission = bit_or (bit_or (pa_to_pte (page_round_down pa)) permission) pte_v

entry-sum :
    (pa permission : ℕ)
    → pa < 2 ^ 56
    → permission < 1024
    → entry pa permission ≡ 1024 * (pa / 4096) + (permission + 1 - permission % 2)
unfolding pa_to_pte page_round_down
entry-sum pa permission small flags =
    let plain : pa_to_pte (page_round_down pa) ≡ 1024 * (pa / 4096) = omega arith in
    omega (
      arith,
      ap (λ (n : ℕ). bit_or (bit_or n permission) 1) plain,
      ap (λ (n : ℕ). bit_or n 1) (bit_or-apart 10 (pa / 4096) permission flags),
      bit_or-one (1024 * (pa / 4096) + permission),
    )

-- For an address below 2 ^ 56 and ten bits of permission, an entry is valid, gives back the page
-- and the permission bits, with `PTE_V` set.
pub entry_fields :
    (pa permission : ℕ)
    → pa < 2 ^ 56
    → permission < 1024
    → (is_valid (entry pa permission) ≡ true)
      × (pte_to_pa (entry pa permission) ≡ page_round_down pa)
      × (pte_flags (entry pa permission) ≡ bit_or permission pte_v)
unfolding pte_to_pa page_round_down
entry_fields pa permission small flags =
    let sum = entry-sum pa permission small flags in
    (ground (arith, sum), omega (arith, sum), omega (arith, sum, bit_or-one permission))

-- The three indices and the offset are the address, so that different pages below `MAXVA` differ in
-- an index; the top index is less than 256.
pub px_split :
    (va : ℕ)
    → va < max_va
    → (va ≡ px 2 va * 2 ^ 30 + px 1 va * 2 ^ 21 + px 0 va * 2 ^ 12 + page_offset va)
      × (px 2 va < 256)
      × (px 1 va < 512)
      × (px 0 va < 512)
unfolding px
px_split va lt = omega arith
