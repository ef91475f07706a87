-- ===== src/Ulib/ReadUntil/Edits.antt =====
-- The line editor that `read_until` of user/ulib.h is.
use toy_riscv_kernel.Prelude.{
  ℕ, ◌+◌, ◌-◌, ◌^◌, ◌≤◌, ◌<◌, ◌≡◌, refl, sym, ap, ◌∙◌, subst, ◌≢◌, ◌⊎◌, inl, inr, true, not, ◌||◌,
  List, [], ◌∷◌, ◌++◌, arith, ltb, ◌==◌, if◌then◌else◌, length, append_nil, length-append,
  Bool-cases,
}
use toy_riscv_kernel.Machine.{write, write-same, write-other}
use toy_riscv_kernel.Strings.Texts.{IsString}
use toy_riscv_kernel.Strings.Layout.{IsString-copy}
use toy_riscv_kernel.Ulib.ReadUntil.{Reading, waiting, returned, rubout, read_from, read_until}

-- A line editor on texts: the line is complete, or there is no room for another key.
pub data Edited : Type 0 where
  unfinished : Edited
  line : (text rest : List ℕ) → Edited
  full : (text rest : List ℕ) → Edited

abbrev pub but_last : List ℕ → List ℕ
but_last [] = []
but_last (c ∷ []) = []
but_last (c ∷ d ∷ s) = c ∷ but_last (d ∷ s)

abbrev pub visible : ℕ → List ℕ
visible c = if c == 0 then [] else c ∷ []

abbrev pub edit : (max_length end : ℕ) → List ℕ → List ℕ → Edited
edit max_length end [] text = if ltb (length text + 1) max_length then unfinished else full text []
edit max_length end (c ∷ keys) text =
    let next = edit max_length end keys (if c == rubout then but_last text else text ++ (c ∷ [])) in
    if not (ltb (length text + 1) max_length)
    then full text (c ∷ keys)
    else if c == rubout
    then next
    else if (c == end) || (c == 0)
    then line (text ++ visible c) keys
    else next

-- The bytes of `s` stand at `a`, none of them NUL.
abbrev pub Holds : (ℕ → ℕ) → ℕ → List ℕ → Type 0
Holds m a [] = Unit
Holds m a (c ∷ s) = (m a ≡ c) × (c ≢ 0) × (c < 256) × Holds m (a + 1) s

abbrev pub AllBytes : List ℕ → Type 0
AllBytes [] = Unit
AllBytes (c ∷ s) = (c < 256) × AllBytes s

Holds-append :
    (m : ℕ → ℕ) (a c : ℕ) (s : List ℕ)
    → Holds m a s
    → m (a + length s) ≡ c
    → c ≢ 0
    → c < 256
    → Holds m a (s ++ (c ∷ []))
Holds-append m a c [] h at real byte = (ap m (omega arith) ∙ at, real, byte, tt)
Holds-append m a c (d ∷ s) (at', real', byte', h) at real byte =
    (at', real', byte', Holds-append m (a + 1) c s h (ap m (omega arith) ∙ at) real byte)

Holds-but_last : (m : ℕ → ℕ) (a : ℕ) (s : List ℕ) → Holds m a s → Holds m a (but_last s)
Holds-but_last m a [] h = h
Holds-but_last m a (c ∷ []) h = tt
Holds-but_last m a (c ∷ d ∷ s) (at, real, byte, h) =
    (at, real, byte, Holds-but_last m (a + 1) (d ∷ s) h)

pub length-but_last : (s : List ℕ) → length (but_last s) ≡ length s - 1
length-but_last [] = omega arith
length-but_last (c ∷ []) = omega arith
length-but_last (c ∷ d ∷ s) = omega (arith, length-but_last (d ∷ s))

Holds-frame :
    (m m' : ℕ → ℕ) (a : ℕ) (s : List ℕ)
    → ((b : ℕ) → b < a + length s → m' b ≡ m b)
    → Holds m a s
    → Holds m' a s
Holds-frame m m' a [] kept h = h
Holds-frame m m' a (c ∷ s) kept (at, real, byte, h) = (
  kept a (omega arith) ∙ at,
  real,
  byte,
  Holds-frame m m' (a + 1) s (λ b lt. kept b (omega (arith, lt))) h,
)

Holds-IsString :
    (m : ℕ → ℕ) (a : ℕ) (s : List ℕ) → Holds m a s → m (a + length s) ≡ 0 → IsString m a s
Holds-IsString m a [] h nul = ap m (omega arith) ∙ nul
Holds-IsString m a (c ∷ s) (at, real, byte, h) nul =
    (at, real, byte, Holds-IsString m (a + 1) s h (ap m (omega arith) ∙ nul))

module _ (buffer max_length end : ℕ) where
  abbrev pub Frame : (ℕ → ℕ) → (ℕ → ℕ) → Type 0
  Frame m m' = (b : ℕ) → (b < buffer) ⊎ (buffer + max_length ≤ b) → m' b ≡ m b

  -- What `read_until` gives against the line editor.
  abbrev pub Agrees : (ℕ → ℕ) → Reading → Edited → Type 0
  Agrees m r unfinished = r ≡ waiting
  Agrees m r (line text rest) =
      (m' : ℕ → ℕ) × (echo : List ℕ) × (r ≡ returned m' rest echo 0)
      × IsString m' buffer text
      × Frame m m'
  Agrees m r (full text rest) =
      (m' : ℕ → ℕ) × (echo : List ℕ) × (r ≡ returned m' rest echo (2 ^ 32 - 1))
      × IsString m' buffer text
      × Frame m m'

  Agrees-Frame :
      (m m1 : ℕ → ℕ) (r : Reading) (e : Edited) → Frame m m1 → Agrees m1 r e → Agrees m r e
  Agrees-Frame m m1 r unfinished kept h = h
  Agrees-Frame m m1 r (line text rest) kept (m', echo, run, held, kept') =
      (m', echo, run, held, λ b out. kept' b out ∙ kept b out)
  Agrees-Frame m m1 r (full text rest) kept (m', echo, run, held, kept') =
      (m', echo, run, held, λ b out. kept' b out ∙ kept b out)

  closed :
      (m : ℕ → ℕ) (i : ℕ) (text : List ℕ)
      → i ≡ length text
      → Holds m buffer text
      → IsString (write m (buffer + i) 0) buffer text
  closed m i text count h =
      Holds-IsString (write m (buffer + i) 0) buffer text
        (Holds-frame m (write m (buffer + i) 0) buffer text
          (λ b lt. write-other m (buffer + i) 0 b (omega (arith, count, lt))) h)
        (ap (λ n. write m (buffer + i) 0 (buffer + n)) (sym count) ∙ write-same m (buffer + i) 0)

  stored :
      (m : ℕ → ℕ) (i c : ℕ) (text : List ℕ)
      → i ≡ length text
      → Holds m buffer text
      → c ≢ 0
      → c < 256
      → Holds (write m (buffer + i) c) buffer (text ++ (c ∷ []))
  stored m i c text count h real byte =
      let m' = write m (buffer + i) c in
      Holds-append m' buffer c text
        (Holds-frame m m' buffer text
          (λ b lt. write-other m (buffer + i) c b (omega (arith, count, lt))) h)
        (ap (λ n. m' (buffer + n)) (sym count) ∙ write-same m (buffer + i) c) real byte

  Frame-of : (m : ℕ → ℕ) (i v : ℕ) → i < max_length → Frame m (write m (buffer + i) v)
  Frame-of m i v lt b out = write-other m (buffer + i) v b (ground (arith, lt, out))

  two_frames :
      (m : ℕ → ℕ) (i c : ℕ)
      → i < max_length
      → i + 1 < max_length
      → Frame m (write (write m (buffer + i) c) (buffer + (i + 1)) 0)
  two_frames m i c lt lt' b out =
      Frame-of (write m (buffer + i) c) (i + 1) 0 lt' b out ∙ Frame-of m i c lt b out

  -- A NUL that is typed ends the text, before the one that is written.
  closed_by :
      (m : ℕ → ℕ) (i c : ℕ) (text : List ℕ)
      → i ≡ length text
      → Holds m buffer text
      → c ≡ 0
      → IsString (write (write m (buffer + i) c) (buffer + (i + 1)) 0) buffer text
  closed_by m i c text count h nul =
      let m1 = write m (buffer + i) c in
      IsString-copy m1 (write m1 (buffer + (i + 1)) 0) buffer buffer text
        (λ j le. write-other m1 (buffer + (i + 1)) 0 (buffer + j) (omega (arith, le, count)))
        (subst (λ v. IsString (write m (buffer + i) v) buffer text) (sym nul)
          (closed m i text count h))

  read_from-Agrees :
      (keys text : List ℕ) (i : ℕ) (m : ℕ → ℕ) (echo : List ℕ)
      → i ≡ length text
      → i < max_length
      → Holds m buffer text
      → AllBytes keys
      → Agrees m (read_from buffer max_length end keys i m echo) (edit max_length end keys text)
  unfolding read_from
  read_from-Agrees [] text i m echo count lt h bytes =
      elim (Bool-cases (ltb (length text + 1) max_length)) [
        | inl room ↦ rw (count, room) refl
        | inr full' ↦
            rw (count, full')
              (
                write m (buffer + length text) 0,
                echo,
                refl,
                closed m (length text) text refl h,
                Frame-of m (length text) 0 (omega (arith, count, lt)),
              )
      ]
  read_from-Agrees (c ∷ keys) text i m echo count lt h (byte, bytes) =
      let same : ltb (i + 1) max_length ≡ ltb (length text + 1) max_length =
        ap (λ n. ltb (n + 1) max_length) count in
      elim (Bool-cases (ltb (length text + 1) max_length)) [
        | inr full' ↦
            rw (same, full')
              (write m (buffer + i) 0, echo, refl, closed m i text count h, Frame-of m i 0 lt)
        | inl room ↦ elim (Bool-cases (c == rubout)) [
          | inl rub ↦
              let shorter : i - 1 ≡ length (but_last text) =
                omega (arith, count, length-but_last text) in
              elim (Bool-cases (ltb 0 i)) [
                | inl some_text ↦
                    rw (same, room, rub, some_text)
                      (read_from-Agrees keys (but_last text) (i - 1) m (echo ++ (8 ∷ 32 ∷ 8 ∷ []))
                        shorter (omega (arith, lt)) (Holds-but_last m buffer text h) bytes)
                | inr no_text ↦
                    rw (same, room, rub, no_text)
                      (read_from-Agrees keys (but_last text) i m echo
                        (ground (arith, shorter, no_text)) lt (Holds-but_last m buffer text h)
                        bytes)
              ]
          | inr plain ↦
              let room' : length text + 1 < max_length = ground (arith, room) in
              elim (Bool-cases (c == 0)) [
                | inl nul ↦
                    let ends : ((c == end) || (c == 0)) ≡ true = ground (arith, nul) in
                    rw (same, room, plain, ends, nul)
                      (
                        write (write m (buffer + i) c) (buffer + (i + 1)) 0,
                        echo ++ (c ∷ []),
                        refl,
                        subst
                            (IsString (write (write m (buffer + i) c) (buffer + (i + 1)) 0) buffer)
                            (sym (append_nil text))
                            (closed_by m i c text count h (ground (arith, nul))),
                        two_frames m i c lt (omega (arith, room', count)),
                      )
                | inr real ↦
                    let here : c ≢ 0 = ground (arith, real) in
                    let longer : length (text ++ (c ∷ [])) ≡ i + 1 =
                      length-append text (c ∷ []) ∙ omega (arith, count) in
                    elim (Bool-cases (c == end)) [
                      | inl at_end ↦
                          let m1 = write m (buffer + i) c in
                          rw (same, room, plain, at_end, real)
                            (
                              write m1 (buffer + (i + 1)) 0,
                              echo ++ (c ∷ []),
                              refl,
                              closed m1 (i + 1) (text ++ (c ∷ [])) (sym longer)
                                  (stored m i c text count h here byte),
                              two_frames m i c lt (omega (arith, room', count)),
                            )
                      | inr more ↦
                          rw (same, room, plain, more, real)
                            (Agrees-Frame m (write m (buffer + i) c)
                              (read_from buffer max_length end keys (i + 1) (write m (buffer + i) c)
                                (echo ++ (c ∷ [])))
                              (edit max_length end keys (text ++ (c ∷ []))) (Frame-of m i c lt)
                              (read_from-Agrees keys (text ++ (c ∷ [])) (i + 1)
                                (write m (buffer + i) c) (echo ++ (c ∷ [])) (sym longer)
                                (omega (arith, room', count)) (stored m i c text count h here byte)
                                bytes))
                    ]
              ]
        ]
      ]

  -- For keys that are bytes and a buffer with room for at least one byte: `read_until` returns when
  -- the line editor has a complete line, with 0 and that line as a string in the buffer, or has no
  -- room, with -1 and the text so far; it leaves the keys behind it unread, waits where the editor
  -- is not finished, and changes no byte outside the buffer.
  pub read_until-Agrees :
      (keys : List ℕ) (m : ℕ → ℕ)
      → 0 < max_length
      → AllBytes keys
      → Agrees m (read_until buffer max_length end keys m) (edit max_length end keys [])
  unfolding read_until
  read_until-Agrees keys m room bytes = read_from-Agrees keys [] 0 m [] refl room tt bytes
