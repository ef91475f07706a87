-- ===== src/Examples/Runs.antt =====
-- The memory work of a fork, a loaded file and a program, run to their ends on the states of
-- Programs.
use toy_riscv_kernel.Prelude.{◌≡◌, refl, true, false, none, some}
use toy_riscv_kernel.Buddy.{
  allocate, block_size, deallocate, deallocate_rows, finish_even, finish_odd, split_block,
  take_block, walk_even, walk_odd,
}
use toy_riscv_kernel.Elf.{
  check_elf_magic, load_elf, load_section, load_sections, map_section_for_user, map_section_from,
}
use toy_riscv_kernel.Machine.{set_interrupt_status, write}
use toy_riscv_kernel.Process.Exec.{exec_registers}
use toy_riscv_kernel.Process.Fork.{
  copy_all_memory_with_pagetable, copy_sections, fork_process, new_task,
}
use toy_riscv_kernel.Process.Program.{allocate_two_for_user, exec_process, map_vectors, runs}
use toy_riscv_kernel.Process.Space.{
  clear_sections, clear_user_memory_space, free_nodes, register_memory_section, set_stack,
}
use toy_riscv_kernel.Process.Stack.{allocate_for_user, available_from}
use toy_riscv_kernel.SmallBlocks.{
  append_block, drop_block, gross_size, init_block, kfree, kmalloc, kmalloc_rounds, remained_size,
  tail_not_enough, take_object,
}
use toy_riscv_kernel.VirtualMemory.{
  clear_page, create_void_pagetable, entry_at, entry_from, free_memory, free_memory_from, map_page,
  pa_to_pte, page_round_down, pagetable_entry, physical_address, pte_to_pa, px,
}
use toy_riscv_kernel.VirtualMemory.Sections.{
  copy_area, copy_memory_with_pagetable, copy_pages, map_page_for_user, undo_pages,
}
use toy_riscv_kernel.Examples.Programs.{blocks, forked, file, fresh}

fork_gives_a_child : (elim forked [ some (_, _, some _) ↦ true | _ ↦ false ]) ≡ true
unfolding write set_interrupt_status allocate take_block split_block deallocate deallocate_rows
    walk_odd walk_even finish_odd finish_even block_size kmalloc kmalloc_rounds append_block
    take_object init_block kfree drop_block tail_not_enough remained_size gross_size page_round_down
    pa_to_pte pte_to_pa px entry_at entry_from pagetable_entry map_page clear_page allocate_for_user
    physical_address create_void_pagetable copy_memory_with_pagetable copy_pages undo_pages new_task
    copy_sections copy_all_memory_with_pagetable fork_process
fork_gives_a_child = refl

file_is_loaded :
    (elim (load_elf 4096 file fresh blocks) [ some (_, ok) ↦ ok | none ↦ false ]) ≡ true
unfolding write set_interrupt_status allocate take_block split_block deallocate deallocate_rows
    walk_odd walk_even finish_odd finish_even block_size kmalloc kmalloc_rounds append_block
    take_object init_block kfree drop_block tail_not_enough remained_size gross_size page_round_down
    pa_to_pte pte_to_pa px entry_at entry_from pagetable_entry map_page clear_page allocate_for_user
    check_elf_magic load_sections load_section map_section_for_user map_section_from load_elf
    map_page_for_user copy_area register_memory_section
file_is_loaded = refl

program_runs :
    (elim (exec_process 4096 file 2 fresh blocks) [ some (runs _ _ _) ↦ true | _ ↦ false ]) ≡ true
unfolding write set_interrupt_status allocate take_block split_block deallocate deallocate_rows
    walk_odd walk_even finish_odd finish_even block_size kmalloc kmalloc_rounds append_block
    take_object init_block kfree drop_block tail_not_enough remained_size gross_size page_round_down
    pa_to_pte pte_to_pa px entry_at entry_from pagetable_entry map_page clear_page allocate_for_user
    check_elf_magic load_sections load_section map_section_for_user map_section_from load_elf
    map_page_for_user copy_area register_memory_section clear_user_memory_space clear_sections
    free_nodes free_memory free_memory_from set_stack available_from exec_registers
    allocate_two_for_user map_vectors exec_process
program_runs = refl
