-- ===== src/Lib.antt =====
-- ChCore: a verification library for the ChCore teaching microkernel.
--
-- The kernel keeps physical memory, address spaces, capabilities, threads and their
-- synchronisation; files are kept by a server at user level. The semaphores call the scheduler,
-- whose interface to them is `rr_sched`, `rr_sched_enqueue` and the invariants of Sched/Queue and
-- Sched/Round. The kernel heap joins the buddy allocator and the slabs, the affinity calls the
-- capabilities and the scheduler, and the handler of page faults the regions, the trees of pages
-- and the page tables. The other parts stand by themselves. Each part has its state and operations
-- in the file named here and its theorems in the files below it:
--
--   Buddy       kernel/mm/buddy.c. A pool is a record of its fields, `page_metadata` a function of
--               the page index, each free list the list of its chunks' indices. The operations are
--               `init_buddy`, `buddy_get_pages` with `split_page`, `buddy_free_pages` with
--               `merge_page`, `get_buddy_chunk` with its address arithmetic modulo 2^64, and
--               `get_free_mem_size_from_buddy`.
--   Caps        kernel/object/capability.c and kernel/object/cap_group.c: the slot table with its two
--               bitmaps (`alloc_slot_id`, `expand_slot_table`, `free_slot_id`), and `cap_alloc`,
--               `cap_copy`, `cap_move`, `cap_free`, `cap_free_all`, `obj_get` and `obj_put` on groups,
--               objects and reference counts, and the system calls in Caps/Syscalls. The answers of the
--               heap and the calls of the functions that end an object are lists in the state.
--   Sched       kernel/sched/policy_rr.c and kernel/sched/sched.c: `rr_sched_enqueue`,
--               `rr_sched_dequeue`, `rr_sched_choose_thread`, `rr_sched`, `switch_to_thread`,
--               `sched_handle_timer_irq`, `sys_yield` and `sched_to_thread`, on the ready queues and
--               current threads of all CPUs; the executing CPU is an argument. The last three are in
--               Sched/Calls.
--   Semaphore   kernel/semaphore/semaphore.c over the scheduler: `wait_sem` and `signal_sem`.
--   TicketLock  kernel/arch/aarch64/sync/ticket.c: the instructions of `lock`, `try_lock` and
--               `unlock` as a step relation on any number of threads, with the reservations of the
--               exclusive loads. The kernel runs the other parts under this lock, so they are
--               sequential functions.
--   VmSpace     kernel/mm/vmregion.c: the regions of an address space, with `check_vmr_intersect`,
--               `find_vmr_for_va`, `vmspace_map_range`, `vmspace_unmap_range`,
--               `unmap_pmo_in_vmspace`, and in VmSpace/Mmap `vmspace_mmap_with_pmo`,
--               `vmspace_munmap_with_addr`, `vmspace_unmap_shm_vmr` and `init_heap_vmr`. munmap
--               runs the page table; the other calls into it and the TLB are a list in the state.
--   Radix       kernel/lib/radix.c: `radix_add`, `radix_get` and `radix_del` on a tree whose type
--               counts the levels.
--   PageTable   kernel/arch/aarch64/mm/page_table.c: the four levels of tables as a tree of entries,
--               with `set_pte_flags`, `get_next_ptp`, `query_in_pgtbl`, `map_range_in_pgtbl` and
--               `unmap_range_in_pgtbl`; in PageTable/Huge the two functions on blocks of 2MB and 1GB,
--               in PageTable/Free `free_page_table`.
--   PageFault   kernel/mm/pgfault_handler.c: `handle_trans_fault`, with `get_page_from_pmo` and
--               `commit_page_to_pmo` of kernel/object/memory.c.
--   Slab        kernel/mm/slab.c: the slabs of each order and their free lists, with
--               `init_slab_cache`, `alloc_in_slab`, `free_in_slab`, `size_to_order` and
--               `get_free_mem_size_from_slab`.
--   Kmalloc     kernel/mm/kmalloc.c: `kmalloc`, `kfree`, `get_pages` and `free_pages`.
--   Tmpfs       userland/servers/tmpfs: `tfs_file_write` and `tfs_file_read` on the pages of a file;
--               in Tmpfs/Names the directories as hash tables, with `tfs_mknod`, `tfs_lookup`,
--               `tfs_remove`, `tfs_namex`, and `fs_creat`, `tmpfs_mkdir`, `tmpfs_unlink` and
--               `tfs_open_path` on paths.
--   FsBase      userland/servers/fs_base: the entries, vnodes and descriptors of fs_vnode.c and
--               fs_wrapper.c, with `fs_wrapper_open` and `fs_wrapper_close` of fs_wrapper_ops.c; in
--               FsBase/Offset `fs_wrapper_read`, `fs_wrapper_write` and `fs_wrapper_lseek`. What a
--               server does is a record of its operations.
--   Mount       userland/servers/fsm/mount_info.c: `set_mount_point`, `get_mount_point` and
--               `remove_mount_point` on the list of mount points.
--   Affinity    kernel/object/thread.c: `sys_set_affinity` and `sys_get_affinity`.
--   Common      Boolean tests, lists by native numbers, arrays as functions, and the outcome `Run`.
--
-- A stop at BUG_ON, an access out of bounds or through NULL is `bug`; an error code is a value. An
-- intrusive list is the list of its nodes' owners, so `list_del` takes its node off the list that
-- it is on. Counters keep their wrap-around (`% 2 ^ 32`, `% 2 ^ 64`).
--
-- Bounds: `merge_page` is fuelled with 14 rounds, and each round raises the order, which stays
-- below BUDDY_MAX_ORDER = 14; `buddy_get_pages` counts the orders left to the end of the array;
-- `unmap_vmrs` gets a round more than there are regions, and each round but the last removes one;
-- `alloc_slot_id` gets two rounds, since a table that has grown has a free number;
-- the loops of the page table get the pages or blocks of the length and one or two rounds more, those
-- of a file the pages that the request can touch and one more, `size_to_order` the size itself, and
-- `tfs_namex` two rounds for each character of the path;
-- `split_page` recurs on the order of the page. There is one pool (PHYS_MEM_POOL_SIZE is 1).
--
-- Not modelled: what the kernel's memory holds, the creation and the reads and writes of memory
-- objects, the registers and the start of threads, and IPC, which are state of their own; the
-- functions that end an object of a type, since they belong to those; devices, interrupts and boot,
-- which are input and output; of user level the libraries, the messages of the servers and the
-- applications. Of the regions' calls only munmap runs the page table: where the others record a
-- call of it, its stops are not seen. The size of a region that is read after the region is freed is
-- a parameter, as is what a server of files answers.
pub mod Common
pub mod Buddy
pub mod Caps
pub mod Sched
pub mod Semaphore
pub mod TicketLock
pub mod Affinity
pub mod FsBase
pub mod Kmalloc
pub mod Mount
pub mod PageFault
pub mod PageTable
pub mod Radix
pub mod Slab
pub mod Tmpfs
pub mod VmSpace
