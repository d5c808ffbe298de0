-- ===== src/Lib.antt =====
-- ilobilix, an operating system kernel. Paths are from the repository's root.
--
-- Parts and how they interact. A process owns an address space (vmspace), a tree of mappings above
-- the page tables; system calls map, unmap and protect ranges of it, and a page fault looks the
-- page up in it. It also owns a table of file descriptors, which the system calls on files look
-- up, and an open of a file passes the access check. A path is resolved segment by segment, over
-- mounts and symbolic links. Short sections are guarded by ticket locks. Threads that wait for an
-- event sleep on semaphores, which hand them to the scheduler. It keeps the ready threads of a
-- processor in a queue by the time they have used, and those that sleep in another. Physical pages
-- come from the buddy allocators of three zones. The network code fills in the checksum of
-- headers. At the start of the kernel, a graph of initialisation tasks runs them after what they
-- require. All of these use the page arithmetic of the math library and the memory functions of
-- the C library.
--
-- Files.
-- - Base: names of the libraries passed on, Boolean tests, lists and signed counters over native
--   numbers, machine words, bit masks. It models no file.
-- - Vm and its children: kernel/source/system/memory/vmm.cpp and
--   kernel/interfaces/system/memory/vmm.cppm. Vm.Mapping is the struct mapping, Vm.Space is
--   vmspace with map, map_one (the body of its loop), unmap, unmap_obj, protect, is_mapped and
--   find_free_region. Vm.Pages has what a page shows: the lookup of handle_pfault and the object
--   page it gives (backing). The tree of mappings and the page tables are interfaces (records of
--   operations and laws), which sections take as parameters.
-- - PageMap and its children: kernel/source/system/memory/pagemap.cpp,
--   kernel/interfaces/system/memory/pagemap.cppm and, for the format of an entry,
--   kernel/source/arch/x86_64/system/pagemap.cpp. PageMap has the entries and getlvl and getpte,
--   PageMap.Ops map, protect, unmap and translate. A table is the address of its frame, and the
--   allocator of frames is an interface. PageMap.Place says that the tables are a tree (each entry
--   that getlvl would follow leads to a table of its own, where a large page counts as one), which
--   the lemmas of PageMap.View, PageMap.Write, PageMap.Grow and PageMap.Walk keep; PageMap.Range
--   is about the loops over the pages of any size, PageMap.Pages and PageMap.Mapping about small
--   pages. PageMap.Flags is about the rights and the caching in an entry. PageMap.Present is about
--   protect of pages that are all there, and PageMap.Lower about the pages of the lower half.
--   PageMap.Interface fills the interface of page tables that Vm.Space takes, which sees the lower
--   half of the tables, as the upper one is the kernel's in all page maps, and PageMap.Composed
--   has what follows for vmspace.
-- - Math: kernel/interfaces/lib/math.cppm, align_down to range_intersection, log2, next_pow2 and
--   pre_pow2; Math.Calendar has freqfrac and the dates.
-- - Libc and its children: kernel/source/libc/string.cpp. The memory is a function from addresses
--   to bytes; memcpy_words and, in Libc.Memset, memset_words are those of the build for uACPI,
--   memcpy and memset the portable ones.
-- - Sync and its children: kernel/source/lib/semaphore.cpp. Each operation holds the lock with
--   interrupts off, so it is one function from state to state; wait is split at its call of
--   sched::yield into wait and interrupted. Sync.Queue has the step relation of all threads.
-- - Vfs and its children: fdtable and check_access of kernel/source/system/vfs.cpp, is_read and
--   is_write of kernel/interfaces/system/vfs.cppm.
-- - Resolve and its children: the rest of kernel/source/system/vfs.cpp. Dentries, mounts and
--   inodes are numbers, and Resolve.Dentries has their maps, the loops over mounts, populate and
--   the interfaces of a filesystem and of the path library; Resolve has resolve, reduce, path_for
--   and pathname_from, Resolve.Entries mount, create, symlink, link, unlink and stat.
--   Resolve.Segments is about text, Resolve.Located says by which names a path is found, and
--   Resolve.Round, Resolve.Symlink and Resolve.Create what the functions do.
-- - Files: the struct file of kernel/interfaces/system/vfs.cppm with its offset, and the state
--   that the calls on files work on. The operations of the device are a parameter (Ops); a read or
--   write gets the inode of the file and may change it.
-- - Calls and its children: kernel/source/system/syscall/vfs.cpp. Each call is a function from the
--   state to a result and the new state; a call that fails keeps the changes made so far.
--   Calls.Vectors has readv, writev, preadv and pwritev, Calls.Seek has lseek, Calls.Descriptors
--   has close, dup, dup2, dup3 and fcntl.
-- - Pmm and its children: kernel/source/system/memory/pmm.cpp. Pmm is the struct allocator,
--   Pmm.Grow its add_range, and Pmm.Zones the functions of the namespace over the three
--   allocators. The intrusive lists are lists of block addresses, and a removal of a block that is
--   not in the list, which is undefined there, stops. Pmm.Cover counts the free blocks that hold
--   an address.
-- - InitGraph and its children: kernel/interfaces/lib/initgraph.cppm. Nodes are numbers, and the
--   activation of a node is a parameter that acts on a world of its own. InitGraph.Loop and
--   InitGraph.Round have the invariant of the loop of engine::run, InitGraph.Start the state in
--   which it begins and what a built graph is, and InitGraph.Build is about realise_node and
--   realise_edge.
-- - Lock and its children: kernel/interfaces/lib/spinlock.cppm and kernel/source/lib/lock.cpp.
--   Lock is the ticket lock, each access to its counters a step of the relation of all threads;
--   Lock.Seat and Lock.Ticket have the line in which the threads stand, Lock.Exclusion what
--   follows from it, and Lock.Irq the lock that turns interrupts off, on the state of each
--   processor.
-- - Sched and its children: kernel/source/system/scheduler.cpp and
--   kernel/interfaces/system/scheduler.cppm, for one processor. Threads are numbers; Sched.Threads
--   has their fields (Thread), the processor (Percpu) and what does not need its queues, Sched the
--   operations, schedule cut into pick (the run queue), retire (the thread that ran), wake_reaper,
--   run_next and start_time. A panic is a value of Outcome. Sched.Queue is the interface of the
--   trees (kernel/interfaces/lib/rbtree.cppm), Sched.Fit says when a processor is well formed,
--   Sched.Pick, Sched.Charge, Sched.Cases, Sched.Retire and Sched.Schedule follow the parts of
--   schedule, and Sched.Turns has the whole; Sched.Sleep is about sleeper, Sched.Idle about the
--   idle thread, and Sched.Spread has allocate_cpu.
-- - Checksum and its children: kernel/interfaces/system/net/checksum.cppm.
-- - The Tests modules run the definitions on concrete inputs and apply the theorems to them.
--
-- Bounds and fuel. Addresses, lengths and page numbers are 64-bit words with their wrap-around
-- written out. The C library's addresses are numbers without wrap-around, since no object reaches
-- the top of the address space. A scan for a NUL takes fuel, one unit for each character; the
-- theorems ask for more fuel than the string has characters. The loops of memcpy_words and
-- memset_words get as many rounds as there are bytes. The search for a free descriptor gets one
-- round more than the table has entries, of which one must find a free one. The fold of the
-- checksum gets two rounds, which bring each sum of two 16-bit numbers below 65536. The search of
-- split_to looks at no more than the 16 orders, bit_width at 64 bits. A merge takes two blocks
-- from the list of its order, so that its length is enough rounds for coalesce_to. The loop of
-- engine::run gets one round for each registered node, since a round finishes one. Each round of
-- add_range takes a page or more. The loops over the pages of a range get as many rounds as the
-- length has pages, rounded up, and a walk of the page tables one for each level. The ticket lock
-- wraps its counters and takes fewer threads than 2 ^ 64. The path functions take fuel, as resolve
-- and reduce call one another without a bound; it also bounds the mounts on one another and the
-- rounds of populate. Descriptors are numbers; their counter stays below 2 ^ 31 and does not wrap.
--
-- Not modelled: the creation of processes and threads, the reaper, the allocator of objects,
-- filesystems, the system calls but those on open files, the loader, the locks but the ticket lock
-- and its form that turns interrupts off, trees, drivers, and the code of the architectures. Of
-- vmm.cpp the memory objects and the copy on write are left out, of string.cpp strdup, strncmp,
-- strstr and strrev, of semaphore.cpp wait_for, of pmm.cpp the page database and init. Of
-- pagemap.cpp map_alloc, unmap_dealloc and the life of a page map are left out, and the tables are
-- those of x86_64 without the flush of the cache of addresses. Of schedule and yield the registers
-- that are saved, the page map that is loaded and the interrupts are left out, and the lock of a
-- queue, which one processor alone takes. Copies across the user boundary always succeed.
pub mod Base
pub mod Math
pub mod Vm
pub mod Libc
pub mod Checksum
pub mod Sync
pub mod Vfs
pub mod Files
pub mod Calls
pub mod Pmm
pub mod InitGraph
pub mod Lock
pub mod PageMap
pub mod Resolve
pub mod Sched
