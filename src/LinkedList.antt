-- ===== src/LinkedList.antt =====
-- The linked lists of kernel/single_linked_list.h: the nodes' two fields as maps from a node's
-- address, the list struct as a record, its `int64` size as a 64-bit pattern. `kfree` of a node is
-- recorded in `freed`. A loop over the nodes runs on fuel, and `none` is fuel run out.
pub mod Represents
pub mod Walks
pub mod Removal
use toy_riscv_kernel.Prelude.{
  ℕ, zero, suc, ◌+◌, ◌-◌, ◌%◌, ◌^◌, Bool, true, false, Option, none, some, List, ◌∷◌, ◌==◌,
  if◌then◌else◌,
}
use toy_riscv_kernel.Machine.{null, write}

pub record Nodes : Type 0 where
  pub next : ℕ → ℕ
  pub datum : ℕ → ℕ
  pub freed : List ℕ

pub record LinkedList : Type 0 where
  pub head : ℕ
  pub tail : ℕ
  pub size : ℕ

abbrev pub init_single_linked_list : LinkedList
init_single_linked_list = record { head = null; tail = null; size = 0 }

-- `++size` and `--size`
abbrev pub one_more : ℕ → ℕ
one_more size = (size + 1) % 2 ^ 64

abbrev pub one_less : ℕ → ℕ
one_less size = (size + (2 ^ 64 - 1)) % 2 ^ 64

abbrev pub free_node : Nodes → ℕ → Nodes
free_node nodes node = record nodes { freed = node ∷ nodes.freed }

-- `node` is what `kmalloc` gave.
unfoldable pub make_single_linked_list_node : Nodes → ℕ → ℕ → Nodes
make_single_linked_list_node nodes node datum =
    if node == null
    then nodes
    else record nodes { datum = write nodes.datum node datum; next = write nodes.next node null }

unfoldable pub pop_head_without_free : Nodes → LinkedList → LinkedList
pop_head_without_free nodes list =
    if list.head == null
    then list
    else if list.head == list.tail
    then record { head = null; tail = null; size = one_less list.size }
    else record list { head = nodes.next list.head; size = one_less list.size }

unfoldable pub pop_head : Nodes → LinkedList → Nodes × LinkedList
pop_head nodes list = (free_node nodes list.head, pop_head_without_free nodes list)

unfoldable pub push_head : Nodes → LinkedList → ℕ → Nodes × LinkedList
push_head nodes list node = (
  record nodes { next = write nodes.next node list.head },
  record {
    head = node;
    tail = if list.tail == null then node else list.tail;
    size = one_more list.size;
  },
)

unfoldable pub push_tail : Nodes → LinkedList → ℕ → Nodes × LinkedList
push_tail nodes list node =
    if list.tail == null
    then (
      record nodes { next = write nodes.next node null },
      record { head = node; tail = node; size = one_more list.size },
    )
    else (
      record nodes { next = write (write nodes.next list.tail node) node null },
      record list { tail = node; size = one_more list.size },
    )

-- The loop of `clear_single_linked_list` from `node` on.
unfoldable pub clear_from : ℕ → Nodes → ℕ → Option Nodes
clear_from zero nodes node = none
clear_from (suc fuel) nodes node =
    let rest = clear_from fuel (free_node nodes node) (nodes.next node) in
    if node == null then some nodes else rest

unfoldable pub clear_single_linked_list : ℕ → Nodes → LinkedList → Option (Nodes × LinkedList)
clear_single_linked_list fuel nodes list = elim (clear_from fuel nodes list.head) [
  | none ↦ none
  | some cleared ↦ some (cleared, init_single_linked_list)
]

-- The loop of `for_each_node`, with a `func` that changes a state of its own.
unfoldable pub for_each_from {ℓ} : {S : Type ℓ} → ℕ → Nodes → (ℕ → S → S) → ℕ → S → Option S
for_each_from zero nodes func node s = none
for_each_from (suc fuel) nodes func node s =
    let rest = for_each_from fuel nodes func (nodes.next node) (func (nodes.datum node) s) in
    if node == null then some s else rest

unfoldable pub for_each_node {ℓ} :
    {S : Type ℓ} → ℕ → Nodes → LinkedList → (ℕ → S → S) → S → Option S
for_each_node fuel nodes list func s = for_each_from fuel nodes func list.head s

-- The loop of `removeAt`, where `prev` is a node: its test of `prev` against NULL is never true.
unfoldable pub remove_from :
    ℕ → Nodes → LinkedList → ℕ → ℕ → ℕ → Option ((Nodes × LinkedList) × Bool)
remove_from zero nodes list addr prev node = none
remove_from (suc fuel) nodes list addr prev node =
    let rest = remove_from fuel nodes list addr node (nodes.next node) in
    if node == null
    then some ((nodes, list), false)
    else if nodes.datum node == addr
    then some (
      (
        record nodes { next = write nodes.next prev (nodes.next node); freed = node ∷ nodes.freed },
        record list {
          tail = if node == list.tail then prev else list.tail;
          size = one_less list.size;
        },
      ),
      true,
    )
    else rest

-- `true` is the result 0, `false` the result -1.
unfoldable pub remove_at : ℕ → Nodes → LinkedList → ℕ → Option ((Nodes × LinkedList) × Bool)
remove_at fuel nodes list addr =
    if list.head == null
    then some ((nodes, list), false)
    else remove_from fuel nodes list addr list.head (nodes.next list.head)
