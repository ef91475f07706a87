-- ===== src/Uart/Fifo.antt =====
-- The transmitter's ring is a queue: what has been sent, followed by what waits, is what was put
-- in.
use toy_riscv_kernel.Prelude.{
  ℕ, zero, suc, ◌+◌, ◌-◌, ◌%◌, ◌^◌, ◌≤◌, ◌<◌, ◌≡◌, refl, sym, ap, ◌∙◌, ◌≢◌, inl, inr, Bool, true,
  false, some, List, [], ◌∷◌, ◌++◌, arith, ◌==◌, Bool-cases,
}
use toy_riscv_kernel.Machine.{write, write-same, write-other}
use toy_riscv_kernel.Uart.{Uart, uart_tx_buf_size, uart_start, uart_putc}

-- The counters have not wrapped, and at most 32 bytes wait; each is a byte.
pub record IsRing (u : Uart) : Type 0 where
  pub behind : u.uart_tx_r ≤ u.uart_tx_w
  pub fits : u.uart_tx_w ≤ u.uart_tx_r + uart_tx_buf_size
  pub low : u.uart_tx_w + uart_tx_buf_size < 2 ^ 64
  pub bytes : (i : ℕ) → u.uart_tx_buf i < 256

-- The `n` bytes of the ring from the counter `r` on.
abbrev pub ring_from : (ℕ → ℕ) → ℕ → ℕ → List ℕ
ring_from buf r zero = []
ring_from buf r (suc n) = buf (r % 32) ∷ ring_from buf (r + 1) n

-- The bytes that wait, oldest first.
abbrev pub queued : Uart → List ℕ
queued u = ring_from u.uart_tx_buf u.uart_tx_r (u.uart_tx_w - u.uart_tx_r)

ring_from-write :
    (buf : ℕ → ℕ) (c r n : ℕ)
    → n < 32
    → ring_from (write buf ((r + n) % 32) c) r (suc n) ≡ ring_from buf r n ++ (c ∷ [])
unfolding write
ring_from-write buf c r zero lt =
    let same : (r + 0) % 32 ≡ r % 32 = omega arith in
    ap (λ v. v ∷ []) (ap (λ i. write buf i c (r % 32)) same ∙ write-same buf (r % 32) c)
ring_from-write buf c r (suc n) lt =
    let rest = ring_from-write buf c (r + 1) n (omega arith) in
    let apart : r % 32 ≢ (r + suc n) % 32 = omega arith in
    let shift : (r + 1) + n ≡ r + suc n = omega arith in
    let kept = write-other buf ((r + suc n) % 32) c (r % 32) apart in
    ap (λ v. v ∷ ring_from (write buf ((r + suc n) % 32) c) (r + 1) (suc n)) kept
    ∙ ap (λ ts. buf (r % 32) ∷ ts)
        (ap (λ i. ring_from (write buf (i % 32) c) (r + 1) (suc n)) (sym shift) ∙ rest)

queued-next :
    (u : Uart)
    → IsRing u
    → u.uart_tx_r < u.uart_tx_w
    → (u.uart_tx_r + 1) % 2 ^ 64 ≡ u.uart_tx_r + 1
    → queued u
      ≡ (u.uart_tx_buf (u.uart_tx_r % 32) % 256)
        ∷ queued (record u { uart_tx_r = (u.uart_tx_r + 1) % 2 ^ 64 })
queued-next u ring more up =
    let count : u.uart_tx_w - u.uart_tx_r ≡ suc (u.uart_tx_w - (u.uart_tx_r + 1)) =
      omega (arith, more) in
    let byte : u.uart_tx_buf (u.uart_tx_r % 32) ≡ u.uart_tx_buf (u.uart_tx_r % 32) % 256 =
      omega (arith, ring.bytes (u.uart_tx_r % 32)) in
    ap (ring_from u.uart_tx_buf u.uart_tx_r) count
    ∙ ap (λ c. c ∷ ring_from u.uart_tx_buf (u.uart_tx_r + 1) (u.uart_tx_w - (u.uart_tx_r + 1))) byte
    ∙ ap
        (λ n.
          (u.uart_tx_buf (u.uart_tx_r % 32) % 256) ∷ ring_from u.uart_tx_buf n (u.uart_tx_w - n))
        (sym up)

write-byte : (buf : ℕ → ℕ) (a v i : ℕ) → v < 256 → buf i < 256 → write buf a v i < 256
unfolding write
write-byte buf a v i lt lt' = ground arith

-- Whatever the readings of the status register, `uart_start` sends from the front of the queue: the
-- bytes sent followed by those that still wait are those that waited, and the ring is well formed.
pub uart_start-fifo :
    (readings : List Bool) (u : Uart)
    → IsRing u
    → let (u', sent) = uart_start readings u in (sent ++ queued u' ≡ queued u) × IsRing u'
unfolding uart_start
uart_start-fifo [] u ring = (refl, ring)
uart_start-fifo (false ∷ readings) u ring = elim (Bool-cases (u.uart_tx_w == u.uart_tx_r)) [
  | inl empty ↦ rw (uart_start, empty) (refl, ring)
  | inr waits ↦ rw (uart_start, waits) (refl, ring)
]
uart_start-fifo (true ∷ readings) u ring = elim (Bool-cases (u.uart_tx_w == u.uart_tx_r)) [
  | inl empty ↦ rw (uart_start, empty) (refl, ring)
  | inr waits ↦
      let next : Uart = record u { uart_tx_r = (u.uart_tx_r + 1) % 2 ^ 64 } in
      let up : (u.uart_tx_r + 1) % 2 ^ 64 ≡ u.uart_tx_r + 1 =
        omega (arith, ring.behind, ring.low) in
      let more : u.uart_tx_r < u.uart_tx_w = ground (arith, ring.behind, waits) in
      let ring' : IsRing next = record {
        behind = omega (arith, more, up);
        fits = omega (arith, ring.fits, up);
        low = ring.low;
        bytes = ring.bytes;
      } in
      let (same, well) = uart_start-fifo readings next ring' in
      rw (uart_start, waits)
        (
          ap (λ ts. (u.uart_tx_buf (u.uart_tx_r % 32) % 256) ∷ ts) same
              ∙ sym (queued-next u ring more up),
          well,
        )
]

-- Where no panic has happened, fewer than 32 bytes wait and the write counter is below 2 ^ 64 - 33,
-- `uart_putc` ends, with the ring well formed: the bytes sent followed by those that wait are those
-- that waited and then the new one.
pub uart_putc-fifo :
    (readings : List Bool) (c : ℕ) (u : Uart)
    → IsRing u
    → u.uart_tx_w < u.uart_tx_r + uart_tx_buf_size
    → u.uart_tx_w + 33 < 2 ^ 64
    → (u' : Uart) × (sent : List ℕ) × (uart_putc false readings c u ≡ some (u', sent))
      × (sent ++ queued u' ≡ queued u ++ ((c % 256) ∷ []))
      × IsRing u'
unfolding uart_putc
uart_putc-fifo readings c u ring room low =
    let put : Uart = record {
      uart_tx_buf = write u.uart_tx_buf (u.uart_tx_w % uart_tx_buf_size) (c % 256);
      uart_tx_w = (u.uart_tx_w + 1) % 2 ^ 64;
      uart_tx_r = u.uart_tx_r;
    } in
    let up : (u.uart_tx_w + 1) % 2 ^ 64 ≡ u.uart_tx_w + 1 = omega (arith, low) in
    let ring' : IsRing put = record {
      behind = omega (arith, ring.behind, up);
      fits = omega (arith, room, up);
      low = omega (arith, low, up);
      bytes = λ i.
          write-byte u.uart_tx_buf (u.uart_tx_w % uart_tx_buf_size) (c % 256) i (omega arith)
            (ring.bytes i);
    } in
    let not_full : (u.uart_tx_w == (u.uart_tx_r + uart_tx_buf_size) % 2 ^ 64) ≡ false =
      ground (arith, room, ring.behind, ring.low) in
    let longer : (u.uart_tx_w + 1) % 2 ^ 64 - u.uart_tx_r ≡ suc (u.uart_tx_w - u.uart_tx_r) =
      omega (arith, up, ring.behind) in
    let at_end : u.uart_tx_r + (u.uart_tx_w - u.uart_tx_r) ≡ u.uart_tx_w =
      omega (arith, ring.behind) in
    let (same, well) = uart_start-fifo readings put ring' in
    (
      (uart_start readings put).0,
      (uart_start readings put).1,
      rw (uart_putc, not_full) refl,
      same
          ∙ (ap (ring_from put.uart_tx_buf u.uart_tx_r) longer
              ∙ ap
                  (λ i.
                    ring_from (write u.uart_tx_buf (i % 32) (c % 256)) u.uart_tx_r
                      (suc (u.uart_tx_w - u.uart_tx_r)))
                  (sym at_end)
              ∙ ring_from-write u.uart_tx_buf (c % 256) u.uart_tx_r (u.uart_tx_w - u.uart_tx_r)
                  (omega (arith, room))),
      well,
    )
