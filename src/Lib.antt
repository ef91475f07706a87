-- ===== src/Lib.antt =====
-- A model of toy-riscv-kernel, a small RISC-V kernel with its user library and shell, and what is
-- proved of it.
--
-- The kernel manages memory by a buddy allocator of pages, on which an allocator of small objects
-- and the Sv39 page tables stand. A task's memory is a list of sections in its page table, made by
-- the loader or by a fork. Tasks wait in a queue, which `yield` turns; they are kept in linked lists
-- whose nodes are small objects. System calls wait for children, exit, send signals, fork, start
-- programs and read and write characters; page faults let the stack grow. Bytes for the UART wait in
-- a ring. The user library prints, formats, reads lines, splits strings and marshals the strings of
-- `exec` into a page that the task shares with the kernel; the shell is a program over it.
--
-- Prelude: numbers, lists and Boolean tests that all parts use, and the bitwise or.
-- Machine (kernel/riscv.h): 64-bit words of memory by address and the interrupt-enable bit.
-- Registers (kernel/riscv.h): the control registers and the switching of interrupts; Interrupts
--   shows that Machine's one bit is a view of them.
-- Start (kernel/start.c): the start in machine mode; Identity reads its page table.
-- Main (kernel/main.c): the set-up in supervisor mode, composed of the parts below.
-- Plic (kernel/plic.c): the interrupt controller.
-- Buddy (kernel/mem_manage.c, lines 16 to 173): `allocate`, `deallocate` and, in Buddy.Init,
--   `init_mem_manage`. Chain, Blocks and OneOrder treat the list of one order, Pool the invariant
--   of all orders, Release the abstract operation on lists of free blocks, Deallocate, Allocate
--   and Init.Loops the theorems, Pages the count of free pages.
-- SmallBlocks (kernel/mem_manage.c, lines 222 to 332): `kmalloc` and `kfree` over Buddy; Bump is
--   what they do at the last block of the list.
-- VirtualMemory (kernel/virtual_memory.c, kernel/riscv_defs.h): page table walks over Buddy;
--   Entries is the encoding of an entry, Tables the mapping of a page whose tables are there,
--   Sections the copies of memory sections, WholeTables the kernel's own table and the release of
--   a table.
-- Elf (kernel/elf.c, `map_section_for_user` of kernel/virtual_memory.c): the loader; Touched is the
--   description of the pages of a section, Loaded what a task has after the loader.
-- LinkedList (kernel/single_linked_list.h): the list struct and its nodes; Represents, Walks and
--   Removal show each operation to be one on the sequence of nodes.
-- Process (kernel/process.c, kernel/process.h): tasks, queue, `yield` and `scheduler` over
--   sequences of tasks, as LinkedList shows the lists to be; Schedule is the queue, Turns the
--   sequences of turns that tasks take, Family the searches, Reparent the children of zombies,
--   Syscalls the system calls with Exit, Waits and Dispatch, Characters the two calls for
--   characters, Stack the growth of the user stack over VirtualMemory. Space is the memory of a
--   task over SmallBlocks and VirtualMemory, Fork `new_task` and `fork_process` with
--   `copy_all_memory_with_pagetable`, Program the memory work of `exec_process` and
--   `init_scheduler`, and Exec what `exec_process` makes of the shared page: the vectors, and the
--   task's name in Exec.Name. Exec.RoundTrip composes it with System's `exec`.
-- Trap (kernel/trap.c): the causes of traps and the page faults of a user, over Process.Stack;
--   Frame is the trap frame and Return the ways back.
-- Uart (kernel/uart.c): the device and the ring of the transmitter, shown to be a queue in Fifo.
-- Strings (kernel/utility.h, user/ulib.h): the string functions over a memory of bytes; Tokens is
--   `strtok` with the words of a string, Layout strings one behind the other.
-- Print (kernel/print.c) and Ulib (user/ulib.c, user/ulib.h): the bytes that each printer sends;
--   Ulib.ReadUntil is the line editor `read_until`.
-- System (user/system.c): `exec` of the user library, and the other calls in Requests.
-- Shell (user/sh.c): the parsing of a line and the rounds of `main`.
-- Examples: the theorems at concrete inputs, and runs of a fork and of a program to their ends.
--
-- Numbers are natural numbers; a 64-bit result that may wrap is taken modulo 2 ^ 64. A panic and
-- a read through a null pointer end a run: `none`, or a constructor where the difference matters.
-- Loops over lists run on fuel. In Buddy the fuel is the number of pages there are, which no list
-- exceeds; in LinkedList and for the walk to an ancestor the theorems take any fuel above the
-- length; `kmalloc` calls itself once more after adding a block, so that two rounds are given;
-- digits are printed by recursion on the number. Loops that look for a byte take any fuel above the
-- length of the string, which 4096 is for the shared page and a line of the shell. The loop of
-- `exec` has 4097 rounds: one for each byte of the page, and one that turns to the environment
-- without a byte.
--
-- Not modelled: assembly; `switch_context` ends a step, with the contexts saved and loaded, and
-- the entry `syscall` hands its arguments on. The readings of the UART's status register and the
-- interrupt that `plic_claim` gives are arguments. The messages and the small test programs are
-- left out. Allocators and page tables work on words of memory, strings on bytes: the page of
-- strings that `exec_process` fills is modelled on bytes, apart from its allocation, and its
-- vectors as words, where a store behind the two pages ends the run. The trap frame of a task is a
-- record of its words; a fork also writes the child's to its page, which a failed copy has given
-- back. What `fork_process`, `exec_process` and `sys_get_char` give to the table of system calls
-- is an argument of it. What a fresh `task_struct` holds is an argument. In the system calls over
-- sequences of tasks a node for a list is taken to be given, and the pages that an exiting task
-- gives back are recorded; Process.Space frees them.
pub mod Prelude
pub mod Plic
pub mod Print
pub mod Registers
pub mod Shell
pub mod Main
pub mod Start
pub mod System
pub mod Ulib
pub mod Machine
pub mod Buddy
pub mod SmallBlocks
pub mod VirtualMemory
pub mod Elf
pub mod LinkedList
pub mod Process
pub mod Uart
pub mod Trap
pub mod Strings
pub mod Examples
