-- ===== src/LinkedList/Walks.antt =====
-- The loops over all nodes of a list: `for_each_node` and `clear_single_linked_list`.
use toy_riscv_kernel.Prelude.{
  ℕ, zero, suc, ◌<◌, ◌≡◌, refl, false, some, List, [], ◌∷◌, arith, ◌==◌, length,
}
use Prim.{absurd}
use toy_riscv_kernel.Machine.{null}
use toy_riscv_kernel.LinkedList.{
  Nodes, LinkedList, init_single_linked_list, free_node, clear_from, clear_single_linked_list,
  for_each_from, for_each_node,
}
use toy_riscv_kernel.LinkedList.Represents.{Links, Represents}

-- `func` at the data of the nodes, from the first on.
abbrev pub fold {ℓ} : {S : Type ℓ} → (ℕ → ℕ) → (ℕ → S → S) → List ℕ → S → S
fold datum func [] s = s
fold datum func (n ∷ ns) s = fold datum func ns (func (datum n) s)

for_each_from-fold {ℓ} :
    {S : Type ℓ}
    → (fuel : ℕ) (nodes : Nodes) (func : ℕ → S → S) (p : ℕ) (ns : List ℕ) (s : S)
    → Links nodes.next p ns
    → length ns < fuel
    → for_each_from fuel nodes func p s ≡ some (fold nodes.datum func ns s)
unfolding for_each_from
for_each_from-fold zero nodes func p ns s l lt = absurd (omega arith)
for_each_from-fold (suc fuel) nodes func p [] s l lt = ground (arith, l)
for_each_from-fold (suc fuel) nodes func p (n ∷ ns) s (at, nn, once, l) lt =
    let rest =
      for_each_from-fold fuel nodes func (nodes.next n) ns (func (nodes.datum n) s) l
        (omega arith) in
    let there : (n == null) ≡ false = ground (arith, nn) in rw (at, there) rest

-- With any fuel above the number of nodes `for_each_node` calls `func` once for each node, in the
-- list's order.
pub for_each_node-fold {ℓ} :
    {S : Type ℓ}
    → (fuel : ℕ) (nodes : Nodes) (list : LinkedList) (func : ℕ → S → S) (ns : List ℕ) (s : S)
    → Represents nodes list ns
    → length ns < fuel
    → for_each_node fuel nodes list func s ≡ some (fold nodes.datum func ns s)
unfolding for_each_node
for_each_node-fold fuel nodes list func ns s r lt =
    for_each_from-fold fuel nodes func list.head ns s r.links lt

-- `xs`, reversed, in front of `ys`.
abbrev pub reverse_onto : List ℕ → List ℕ → List ℕ
reverse_onto [] ys = ys
reverse_onto (x ∷ xs) ys = reverse_onto xs (x ∷ ys)

clear_from-all :
    (fuel : ℕ) (nodes : Nodes) (p : ℕ) (ns : List ℕ)
    → Links nodes.next p ns
    → length ns < fuel
    → clear_from fuel nodes p ≡ some (record nodes { freed = reverse_onto ns nodes.freed })
unfolding clear_from
clear_from-all zero nodes p ns l lt = absurd (omega arith)
clear_from-all (suc fuel) nodes p [] l lt = ground (arith, l)
clear_from-all (suc fuel) nodes p (n ∷ ns) (at, nn, once, l) lt =
    let rest = clear_from-all fuel (free_node nodes n) (nodes.next n) ns l (omega arith) in
    let there : (n == null) ≡ false = ground (arith, nn) in rw (at, there) rest

-- With any fuel above the number of nodes `clear_single_linked_list` frees each node once and
-- leaves the empty list.
pub clear-all :
    (fuel : ℕ) (nodes : Nodes) (list : LinkedList) (ns : List ℕ)
    → Represents nodes list ns
    → length ns < fuel
    → clear_single_linked_list fuel nodes list
      ≡ some (record nodes { freed = reverse_onto ns nodes.freed }, init_single_linked_list)
unfolding clear_single_linked_list
clear-all fuel nodes list ns r lt =
    rw (clear_single_linked_list, clear_from-all fuel nodes list.head ns r.links lt) refl
