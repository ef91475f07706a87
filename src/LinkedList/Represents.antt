-- ===== src/LinkedList/Represents.antt =====
-- The sequence of nodes that a list struct stands for, and each operation as one on sequences.
use toy_riscv_kernel.Prelude.{
  ℕ, ◌+◌, ◌%◌, ◌^◌, ◌≡◌, refl, sym, ap, subst, ◌≢◌, Bool, true, false, ◌||◌, List, [], ◌∷◌, ◌++◌,
  arith, ◌==◌, if◌then◌else◌, length, length-append,
}
use toy_riscv_kernel.Machine.{null, write, write-same}
use toy_riscv_kernel.LinkedList.{
  Nodes, LinkedList, pop_head_without_free, pop_head, push_head, push_tail,
}

abbrev pub has : ℕ → List ℕ → Bool
has a [] = false
has a (x ∷ xs) = (a == x) || has a xs

abbrev pub last_or : ℕ → List ℕ → ℕ
last_or d [] = d
last_or d (x ∷ xs) = last_or x xs

-- The pointer `p` leads through `ns`, all different and not null, to a null pointer.
abbrev pub Links : (ℕ → ℕ) → ℕ → List ℕ → Type 0
Links next p [] = p ≡ null
Links next p (n ∷ ns) = (p ≡ n) × (n ≢ null) × (has n ns ≡ false) × Links next (next n) ns

pub record Represents (nodes : Nodes) (list : LinkedList) (ns : List ℕ) : Type 0 where
  pub links : Links nodes.next list.head ns
  pub tail_last : list.tail ≡ last_or null ns
  pub counted : list.size ≡ length ns % 2 ^ 64

pub Links-frame :
    (next : ℕ → ℕ) (a v p : ℕ) (ns : List ℕ)
    → has a ns ≡ false
    → Links next p ns
    → Links (write next a v) p ns
unfolding write
Links-frame next a v p [] out l = l
Links-frame next a v p (n ∷ ns) out (at, nonnull, once, l) = (
  at,
  nonnull,
  once,
  subst (λ q. Links (write next a v) q ns) (ground (arith, out))
      (Links-frame next a v (next n) ns (ground (arith, out)) l),
)

pub has-append : (b a : ℕ) (ns : List ℕ) → has b ns ≡ false → b ≢ a → has b (ns ++ (a ∷ [])) ≡ false
has-append b a [] out ne = ground arith
has-append b a (n ∷ ns) out ne = ground (arith, has-append b a ns (ground (arith, out)) ne)

pub has-last : (b x : ℕ) (ns : List ℕ) → has b (x ∷ ns) ≡ false → b ≢ last_or x ns
has-last b x [] out = ground (arith, out)
has-last b x (n ∷ ns) out = has-last b n ns (ground (arith, out))

-- The last of the nodes gets a new successor.
Links-append :
    (next : ℕ → ℕ) (a p n : ℕ) (ns : List ℕ)
    → a ≢ null
    → has a (n ∷ ns) ≡ false
    → Links next p (n ∷ ns)
    → Links (write (write next (last_or n ns) a) a null) p (n ∷ (ns ++ (a ∷ [])))
unfolding write
Links-append next a p n [] nonnull out (at, nn, once, l) =
    (at, nn, ground (arith, out), (ground (arith, out), nonnull, refl, ground arith))
Links-append next a p n (x ∷ ns) nonnull out (at, nn, once, l) =
    let rest = Links-append next a (next n) x ns nonnull (ground (arith, out)) l in
    let apart : n ≢ a = ground (arith, out) in
    let inner = has-last n x ns once in
    let kept : next n ≡ write (write next (last_or x ns) a) a null n =
      ground (arith, apart, inner) in
    (
      at,
      nn,
      has-append n a (x ∷ ns) once apart,
      subst (λ q. Links (write (write next (last_or x ns) a) a null) q (x ∷ (ns ++ (a ∷ [])))) kept
          rest,
    )

pub last_or-append : (d a : ℕ) (ns : List ℕ) → last_or d (ns ++ (a ∷ [])) ≡ a
last_or-append d a [] = refl
last_or-append d a (n ∷ ns) = last_or-append n a ns

pub last-nonnull :
    (next : ℕ → ℕ) (p n : ℕ) (ns : List ℕ) → Links next p (n ∷ ns) → last_or n ns ≢ null
last-nonnull next p n [] (at, nn, once, l) = nn
last-nonnull next p n (x ∷ ns) (at, nn, once, l) = last-nonnull next (next n) x ns l

length-snoc : (a : ℕ) (ns : List ℕ) → length (ns ++ (a ∷ [])) ≡ length ns + 1
length-snoc a ns = length-append ns (a ∷ [])

-- `push_tail` of a node that is not null and not in the list appends it.
pub push_tail-append :
    (nodes : Nodes) (list : LinkedList) (ns : List ℕ) (node : ℕ)
    → Represents nodes list ns
    → node ≢ null
    → has node ns ≡ false
    → let (nodes', list') = push_tail nodes list node in Represents nodes' list' (ns ++ (node ∷ []))
unfolding push_tail
push_tail-append nodes list [] node r nonnull out =
    let at_null : (list.tail == null) ≡ true = ground (arith, r.tail_last) in
    rw (push_tail, at_null)
      (record {
        links = (refl, nonnull, refl, write-same nodes.next node null);
        tail_last = refl;
        counted = ground (arith, r.counted);
      })
push_tail-append nodes list (n ∷ ns) node r nonnull out =
    let there = last-nonnull nodes.next list.head n ns r.links in
    let at_node : (list.tail == null) ≡ false = ground (arith, r.tail_last, there) in
    rw (push_tail, at_node, r.tail_last)
      (record {
        links = Links-append nodes.next node list.head n ns nonnull out r.links;
        tail_last = sym (last_or-append n node ns);
        counted = ground (arith, r.counted, length-snoc node ns);
      })

push_head-tail :
    (next : ℕ → ℕ) (list : LinkedList) (ns : List ℕ) (node : ℕ)
    → Links next list.head ns
    → list.tail ≡ last_or null ns
    → (if list.tail == null then node else list.tail) ≡ last_or node ns
push_head-tail next list [] node l t = ground (arith, t)
push_head-tail next list (n ∷ ns) node l t = ground (arith, t, last-nonnull next list.head n ns l)

-- `push_head` of a node that is not null and not in the list puts it first.
pub push_head-cons :
    (nodes : Nodes) (list : LinkedList) (ns : List ℕ) (node : ℕ)
    → Represents nodes list ns
    → node ≢ null
    → has node ns ≡ false
    → let (nodes', list') = push_head nodes list node in Represents nodes' list' (node ∷ ns)
unfolding push_head
push_head-cons nodes list ns node r nonnull out = record {
  links = (
    refl,
    nonnull,
    out,
    subst (λ q. Links (write nodes.next node list.head) q ns)
        (sym (write-same nodes.next node list.head))
        (Links-frame nodes.next node list.head list.head ns out r.links),
  );
  tail_last = push_head-tail nodes.next list ns node r.links r.tail_last;
  counted = ground (arith, r.counted);
}

-- `pop_head` takes the first node off and frees it; on an empty list it frees the null pointer.
pub pop_head-rest :
    (nodes : Nodes) (list : LinkedList) (n : ℕ) (ns : List ℕ)
    → Represents nodes list (n ∷ ns)
    → let (nodes', list') = pop_head nodes list in
      Represents nodes' list' ns × (nodes'.freed ≡ n ∷ nodes.freed)
unfolding pop_head pop_head_without_free
pop_head-rest nodes list n [] r =
    let (at, nn, once, l) = r.links in
    let there : (list.head == null) ≡ false = ground (arith, at, nn) in
    let last : (list.head == list.tail) ≡ true = ground (arith, at, r.tail_last) in
    (
      rw (pop_head, pop_head_without_free, there, last)
          (record { links = refl; tail_last = refl; counted = ground (arith, r.counted) }),
      ap (λ p. p ∷ nodes.freed) at,
    )
pop_head-rest nodes list n (x ∷ ns) r =
    let (at, nn, once, l) = r.links in
    let there : (list.head == null) ≡ false = ground (arith, at, nn) in
    let last : (list.head == list.tail) ≡ false =
      ground (arith, at, r.tail_last, has-last n x ns once) in
    (
      rw (pop_head, pop_head_without_free, there, last)
          (record {
            links = subst (λ p. Links nodes.next (nodes.next p) (x ∷ ns)) (sym at) l;
            tail_last = r.tail_last;
            counted = ground (arith, r.counted);
          }),
      ap (λ p. p ∷ nodes.freed) at,
    )
