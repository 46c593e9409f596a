-- ===== src/Lib.antt =====
-- A model of the simple operating system of src/ and include/, in its 64-bit configuration (MM64,
-- MLQ_SCHED, MM_PAGING): the process queues and the scheduler, the physical memory devices, the
-- five-level page table, the memory areas, the regions of a process, its instructions, and the threads
-- of the CPUs, the loader and the timer; with what takes the place of some of these in the other
-- configurations.
--
-- The parts, and the files that model them:
-- - Base: native numbers with Boolean tests, C arrays as functions (Arrays), lists (Lists), `int`
--   results (Int), linked lists whose last pointer is NULL or was never set (Chain), and computations
--   that may be undefined behaviour (Run).
-- - Queue, src/queue.c and include/queue.h: `enqueue`, `dequeue` and `purgequeue` on the array with
--   its shifting loops; Queue/Refine relates them to a bounded list.
-- - Sched, src/sched.c: `init_scheduler`, `get_mlq_proc`, `put_mlq_proc` and `add_mlq_proc` on the 140
--   queues, the running list and the slots. Each function holds `queue_lock`, so it is one step.
--   Its `queue_empty` is not called by the others. The scheduler uses the operations of Queue.
-- - Memphy, src/mm-memphy.c: the device with its lists of free and used frames; Memphy/Inspect has
--   `init_memphy`, `MEMPHY_cleanup` and the functions that look at the lists.
-- - Pte, include/mm.h and `init_pte` of src/mm64.c: the fields of a page table entry.
-- - Mm, include/os-mm.h: regions, areas and the address space of a process.
-- - PageTable, src/mm64.c: `get_pd_from_pagenum`, `pte_set_fpn`, `pte_set_swap`, `pte_set_entry` and
--   `pte_get_entry`. The walk that the code writes out three times is one definition here.
-- - Mapping, src/mm64.c: `vmap_pgd_memset`, `vmap_page_range`, `alloc_pages_range`, `vm_map_ram` and
--   `__swap_cp_page`, on PageTable and Memphy.
-- - Setup, src/mm64.c: `init_mm` and `free_mm`.
-- - Vma, src/mm-vm.c: `get_vma_by_num`, `validate_overlap_vm_area`, `inc_vma_limit`, and in Vma/Lists
--   `create_vm_area`, `add_vm_area` and `remove_vm_area`, in Vma/Joins `merge_vm_areas` and `split_vm_area`.
-- - Regions, src/libmem.c: `get_free_vmrg_area`, `__alloc`, `__free`, `liballoc`, `libfree` and
--   `find_victim_page`, on Vma.
-- - Paging, src/libmem.c and src/sys_mem.c: `pg_getpage`, `pg_getval`, `pg_setval` and the operations
--   of `__sys_memmap`; Paging/Registers has `__read`, `__write`, `libread`, `libwrite` and
--   `free_pcb_memph`.
-- - CpuOrder, src/timer.c: the order in which the CPUs and the loader take their turns, and the barrier.
-- - Timer, src/timer.c: the timer thread step by step, and its devices, which are the CPUs and the loader.
--   It opens each time slot with the `reset_cpu_order` of CpuOrder.
-- - Cpu, src/cpu.c, src/libstd.c and src/syscall.c: `run`, one instruction of a process, and the system
--   calls, on Regions and Paging.
-- - Scan: the `scanf` directives, `fgets` and `strcmp` of the C library, on the bytes of a file.
-- - Loader, src/loader.c: `load` and `get_opcode`; Loader/Programs is the format of the files in input/proc.
-- - Config, src/os.c: `read_config`; Config/Formats has the two formats of the files in input/.
-- - Boot, src/os.c: `main`, from its arguments to the threads, on Config, Timer, CpuOrder, Memphy and Sched;
--   Boot/Runs is about every run from there.
-- - Kernel, src/os.c and `load` of src/loader.c: `cpu_routine` and `ld_routine` as threads that take one
--   step at a time, on Sched, Timer, CpuOrder, Setup and Cpu. Kernel/Exclusive has the interleavings of
--   all threads; Owners, Moves, Handovers, Choices, Cores and Loads are about who has a process,
--   Counters about program counters, Slices about time slices, Leaving, Stages and Starts about start
--   times and the end, and Turns, Ends, Places, Orders, Passing, Rounds, Admits, Ticks and Alone about turns:
--   where a thread is, by whose turn it is and how far the slot is, and each step of a CPU, of the loader
--   and of the timer; Timer/Counts is about what the timer counts, until it ends. Able and Alive are about which thread has a step. Kernel/Scripts makes runs for the tests.
-- - Flat, src/mm.c: the table, the mapping and the copies of the configuration without MM64.
-- - PageMap: the interface that src/mm64.c and src/mm.c share, which PageTable and Flat implement.
-- - Mem, src/mem.c and src/cpu.c: the memory and the instructions of the configuration without MM_PAGING.
--
-- A function of the code is a function of the model by the same name, less `MEMPHY_` and leading
-- underscores. A struct that a function changes is an argument and part of the result. What `malloc`
-- leaves in fresh memory is an argument, and so is whether it succeeds, where the code tests that.
-- A loop over an array or a counter is recursion on the number of rounds that are left, a loop over
-- a linked list is recursion on the list, so none of them needs a bound. The two exceptions have fuel:
-- `get_mlq_proc` calls itself after it refills the slots (one call is enough, and any more fuel gives the
-- same), and the cursor of a device moves at most `maxsz` steps, which is the fuel it has.
--
-- Numbers are natural numbers; a sum that the code keeps in 64 bits is taken modulo 2^64. Numbers of
-- pages, sizes of devices and other values of type `int` are not negative and fit where a comment says so.
--
-- Not modelled: `stop_timer`, which runs when the threads have ended; the test driver src/paging.c; and
-- everything that only prints.
pub mod Base
pub mod Scan
pub mod Queue
pub mod Sched
pub mod Memphy
pub mod Pte
pub mod Mm
pub mod PageTable
pub mod Mapping
pub mod Setup
pub mod Vma
pub mod Regions
pub mod CpuOrder
pub mod Paging
pub mod Cpu
pub mod Loader
pub mod Config
pub mod Timer
pub mod Kernel
pub mod Boot
pub mod Flat
pub mod PageMap
pub mod Mem
