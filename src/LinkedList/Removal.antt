-- ===== src/LinkedList/Removal.antt =====
-- `removeAt` of kernel/single_linked_list.h, which never looks at the first node.
use toy_riscv_kernel.Prelude.{
  ℕ, zero, suc, ◌+◌, ◌<◌, ◌≡◌, refl, sym, ap, ◌∙◌, subst, ◌≢◌, inl, inr, Bool, true, false, ◌||◌,
  some, List, [], ◌∷◌, arith, ◌==◌, if◌then◌else◌, Bool-cases, length,
}
use Prim.{absurd}
use toy_riscv_kernel.Machine.{null, write, write-same, write-other}
use toy_riscv_kernel.LinkedList.{Nodes, LinkedList, one_less, remove_from, remove_at}
use toy_riscv_kernel.LinkedList.Represents.{has, last_or, Links, Represents, Links-frame, has-last}

module _ (datum : ℕ → ℕ) (addr : ℕ) where
  abbrev pub holds : List ℕ → Bool
  holds [] = false
  holds (n ∷ ns) = (datum n == addr) || holds ns

  -- Without the first node whose data is `addr`.
  abbrev pub remove_node : List ℕ → List ℕ
  remove_node [] = []
  remove_node (n ∷ ns) = if datum n == addr then ns else n ∷ remove_node ns

  has-remove_node : (b : ℕ) (ns : List ℕ) → has b ns ≡ false → has b (remove_node ns) ≡ false
  has-remove_node b [] out = refl
  has-remove_node b (n ∷ ns) out = ground (arith, has-remove_node b ns (ground (arith, out)))

  length-remove_node :
      (ns : List ℕ) → length ns ≡ (if holds ns then 1 else 0) + length (remove_node ns)
  length-remove_node [] = refl
  length-remove_node (n ∷ ns) = ground (arith, length-remove_node ns)

-- What `remove_from` makes of the part of a list from `prev` on.
record Removed (nodes : Nodes) (list : LinkedList) (addr prev : ℕ) (ns : List ℕ) (nodes' : Nodes)
    (list' : LinkedList) (found : Bool) : Type 0 where
  same_head : list'.head ≡ list.head
  links : Links nodes'.next prev (prev ∷ remove_node nodes.datum addr ns)
  frame : (b : ℕ) → has b (prev ∷ ns) ≡ false → nodes'.next b ≡ nodes.next b
  tail_last : list'.tail ≡ last_or prev (remove_node nodes.datum addr ns)
  size_down : list'.size ≡ (if found then one_less list.size else list.size)
  found_held : found ≡ holds nodes.datum addr ns

tail_after :
    (prev n : ℕ) (ns : List ℕ) (tail : ℕ)
    → tail ≡ last_or n ns
    → has n ns ≡ false
    → (if n == tail then prev else tail) ≡ last_or prev ns
tail_after prev n [] tail t once = ground (arith, t)
tail_after prev n (x ∷ ns) tail t once = ground (arith, t, has-last n x ns once)

remove_from-unlink :
    (nodes : Nodes) (list : LinkedList) (addr prev n : ℕ) (ns : List ℕ)
    → Links nodes.next prev (prev ∷ n ∷ ns)
    → list.tail ≡ last_or prev (n ∷ ns)
    → (nodes.datum n == addr) ≡ true
    → Removed nodes list addr prev
        (n ∷ ns)
        (record nodes { next = write nodes.next prev (nodes.next n); freed = n ∷ nodes.freed })
        (record list {
          tail = if n == list.tail then prev else list.tail;
          size = one_less list.size;
        })
        true
remove_from-unlink nodes list addr prev n ns (at, nn, once, (at', nn', once', l)) t hit = record {
  same_head = refl;
  links = rw (hit) (
    refl,
    nn,
    ground (arith, once),
    subst (λ q. Links (write nodes.next prev (nodes.next n)) q ns)
        (sym (write-same nodes.next prev (nodes.next n)))
        (Links-frame nodes.next prev (nodes.next n) (nodes.next n) ns (ground (arith, once)) l),
  );
  frame = λ b out. write-other nodes.next prev (nodes.next n) b (ground (arith, out));
  tail_last = rw (hit) (tail_after prev n ns list.tail t once');
  size_down = refl;
  found_held = ground (arith, hit);
}

remove_from-pass :
    (nodes : Nodes) (list : LinkedList) (addr prev n : ℕ) (ns : List ℕ) (nodes' : Nodes)
    (list' : LinkedList) (found : Bool)
    → prev ≢ null
    → n ≢ null
    → has prev (n ∷ ns) ≡ false
    → nodes.next prev ≡ n
    → (nodes.datum n == addr) ≡ false
    → Removed nodes list addr n ns nodes' list' found
    → Removed nodes list addr prev (n ∷ ns) nodes' list' found
remove_from-pass nodes list addr prev n ns nodes' list' found nn nn' once at miss r = record {
  same_head = r.same_head;
  links = rw (miss) (
    refl,
    nn,
    ground (arith, once, has-remove_node nodes.datum addr prev ns (ground (arith, once))),
    subst (λ q. Links nodes'.next q (n ∷ remove_node nodes.datum addr ns))
        (sym (r.frame prev once ∙ at)) r.links,
  );
  frame = λ b out. r.frame b (ground (arith, out));
  tail_last = rw (miss) r.tail_last;
  size_down = r.size_down;
  found_held = ground (arith, miss, r.found_held);
}

remove_from_correct :
    (fuel : ℕ) (nodes : Nodes) (list : LinkedList) (addr prev : ℕ) (ns : List ℕ)
    → Links nodes.next prev (prev ∷ ns)
    → list.tail ≡ last_or prev ns
    → length ns < fuel
    → (nodes' : Nodes) × (list' : LinkedList) × (found : Bool) × (remove_from fuel nodes list addr
          prev
          (nodes.next prev)
        ≡ some ((nodes', list'), found))
      × Removed nodes list addr prev ns nodes' list' found
unfolding remove_from
remove_from_correct zero nodes list addr prev ns l t lt = absurd (omega arith)
remove_from_correct (suc fuel) nodes list addr prev [] (at, nn, once, l) t lt = (
  nodes,
  list,
  false,
  ground (arith, l),
  record {
    same_head = refl;
    links = (refl, nn, refl, l);
    frame = λ b out. refl;
    tail_last = t;
    size_down = refl;
    found_held = refl;
  },
)
remove_from_correct (suc fuel) nodes list addr prev (n ∷ ns) (at, nn, once, (at', nn', once', l)) t
      lt =
    let there : (n == null) ≡ false = ground (arith, nn') in
    elim (Bool-cases (nodes.datum n == addr))
      as (λ _.
        (nodes' : Nodes) × (list' : LinkedList) × (found : Bool) × (remove_from (suc fuel) nodes
            list addr prev (nodes.next prev)
          ≡ some ((nodes', list'), found))
        × Removed nodes list addr prev (n ∷ ns) nodes' list' found) [
          | inl hit ↦ (
            record nodes { next = write nodes.next prev (nodes.next n); freed = n ∷ nodes.freed },
            record list {
              tail = if n == list.tail then prev else list.tail;
              size = one_less list.size;
            },
            true,
            rw (at', there, hit) refl,
            remove_from-unlink nodes list addr prev n ns (refl, nn, once, (at', nn', once', l)) t
                hit,
          )
          | inr miss ↦
              let (nodes', list', found, run, r) =
                remove_from_correct fuel nodes list addr n ns (refl, nn', once', l) t
                  (omega arith) in
              (
                nodes',
                list',
                found,
                rw (at', there, miss) run,
                remove_from-pass nodes list addr prev n ns nodes' list' found nn nn' once at' miss
                    r,
              )
        ]

remove_at-nonempty :
    (fuel : ℕ) (nodes : Nodes) (list : LinkedList) (addr : ℕ)
    → (list.head == null) ≡ false
    → remove_at fuel nodes list addr
      ≡ remove_from fuel nodes list addr list.head (nodes.next list.head)
unfolding remove_at
remove_at-nonempty fuel nodes list addr there = rw (remove_at, there) refl

-- On a list that is not empty, with fuel above the number of nodes after the head, `removeAt` takes
-- out the first node after the head whose data is `addr`; its result is 0 exactly when there is
-- one. The head stays, whatever its data.
pub remove_at-later :
    (fuel : ℕ) (nodes : Nodes) (list : LinkedList) (addr n : ℕ) (ns : List ℕ)
    → Represents nodes list (n ∷ ns)
    → length ns < fuel
    → (nodes' : Nodes) × (list' : LinkedList) × (remove_at fuel nodes list addr
        ≡ some ((nodes', list'), holds nodes.datum addr ns))
      × Represents nodes' list' (n ∷ remove_node nodes.datum addr ns)
remove_at-later fuel nodes list addr n ns r lt =
    let (at, nn, once, l) = r.links in
    let there : (list.head == null) ≡ false = ground (arith, at, nn) in
    let (nodes', list', found, run, removed) =
      remove_from_correct fuel nodes list addr n ns (refl, nn, once, l) r.tail_last lt in
    (
      nodes',
      list',
      remove_at-nonempty fuel nodes list addr there
          ∙ ap (λ h. remove_from fuel nodes list addr h (nodes.next h)) at
          ∙ run
          ∙ ap (λ f. some ((nodes', list'), f)) removed.found_held,
      record {
        links =
            subst (λ q. Links nodes'.next q (n ∷ remove_node nodes.datum addr ns))
              (sym (removed.same_head ∙ at)) removed.links;
        tail_last = removed.tail_last;
        counted = ground (
          arith,
          r.counted,
          removed.size_down,
          removed.found_held,
          length-remove_node nodes.datum addr ns,
        );
      },
    )
