-- ===== src/Examples/Lists.antt =====
-- A list of two nodes, at 100 and 200, with the data 7 and 8.
use toy_riscv_kernel.Prelude.{ℕ, ◌+◌, ◌≡◌, refl, some, List, [], ◌∷◌, arith}
use toy_riscv_kernel.Machine.{write}
use toy_riscv_kernel.LinkedList.{Nodes, LinkedList, remove_at}
use toy_riscv_kernel.LinkedList.Represents.{Represents}
use toy_riscv_kernel.LinkedList.Removal.{holds, remove_node, remove_at-later}

abbrev nodes : Nodes
nodes = record {
  next = write (write (λ _. 0) 100 200) 200 0;
  datum = write (write (λ _. 0) 100 7) 200 8;
  freed = [];
}

abbrev list : LinkedList
list = record { head = 100; tail = 200; size = 2 }

abbrev both : List ℕ
both = 100 ∷ 200 ∷ []

two_nodes : Represents nodes list both
unfolding write
two_nodes = record {
  links = (refl, omega arith, refl, (refl, omega arith, refl, refl));
  tail_last = refl;
  counted = refl;
}

abbrev add : ℕ → ℕ → ℕ
add n sum = sum + n

remove_at-later_example :
    (nodes' : Nodes) × (list' : LinkedList) × (remove_at 3 nodes list 8
      ≡ some ((nodes', list'), holds nodes.datum 8 (200 ∷ [])))
    × Represents nodes' list' (100 ∷ remove_node nodes.datum 8 (200 ∷ []))
remove_at-later_example = remove_at-later 3 nodes list 8 100 (200 ∷ []) two_nodes (omega arith)
