-- ===== src/Lib.antt =====
-- The OS/161 kernel of CSE451: its containers, allocation maps, process directory and
-- synchronisation.
--
-- Base has the names that the others share. Of its children, Memory is a block of memory as a
-- function from indices, and Outcome a run of C code: it ends with a result, panics in a KASSERT,
-- touches memory outside a block, or is out of fuel.
--
-- Array models the resizeable array of kern/include/array.h and kern/lib/array.c: array_add,
-- array_get and the others are the functions of these names, over a record with the fields of
-- struct array. kmalloc is a parameter that may refuse any request. A pointer takes 4 bytes, so
-- array_preallocate asks for at most 2 ^ 30 bytes at 2 ^ 28 elements, and the 32 rounds that
-- grow_loop has as fuel double the size past every unsigned int.
--
-- Coremap models the core map of kern/vm/coremap.c over two bitmaps: locate_range in Coremap, and in
-- Coremap/Frames the entries with coremap_allocate_page, as far as it finds free frames,
-- coremap_free_page, coremap_lock_acquire and coremap_lock_release. search_loop has coremap_length + 1
-- rounds as fuel, of which each starts at a later page.
--
-- Pagetable models kern/vm/pagetable.c with the free list of kern/vm/swap.c: the two levels with
-- pagetable_lookup and pagetable_add in Pagetable, with what other threads do to the table while the
-- lock is released for a new subtable as a parameter, and pagetable_remove over the core map in
-- Pagetable/Vm.
--
-- Heap models the priority queue of kern/lib/heap.c, which stands on Array. The comparator is a
-- parameter; the theorems want it to be a strict order. bubble_up and trickle_down run on fuel, the
-- index plus one and the number of elements, which the theorems show to be enough.
--
-- Bitmap models kern/lib/bitmap.c, the bits in a block of bytes, with the leftover bits of the last
-- byte marked as in use.
--
-- Copy models kern/vm/copyinout.c. Which user addresses can be touched is a parameter, and an access
-- to any other ends the copy with EFAULT, as copyfail and setjmp have it; the words of memcpy are
-- copied byte by byte.
--
-- Uio models kern/lib/uio.c, with memcpy and memmove of common/libc/string in Uio/Move, where a long has
-- 4 bytes. A uio holds its iovecs as a list, and the address space of the caller is a parameter.
-- uiomove_loop has two rounds for each iovec and one more as fuel, and zeros_loop one round for each
-- byte and one more; the theorems show that both are enough. The panics on a uio_rw or a uio_segflg
-- outside its enum have no counterpart, as the types have no such value.
--
-- Linked models kern/lib/list.c over a memory of nodes at addresses. Chain relates it to a sequence.
-- list_find and list_remove run on the size plus one as fuel. list_assertvalid and list_destroy are
-- not modelled.
--
-- Hashtable models kern/lib/hashtable.c. A chain is the sequence of the items of its list, on which
-- list_find, list_remove and list_push_back act as the theorems of Linked say. kmalloc is a parameter
-- that answers the n-th request. hashtable_add calls itself through grow and rehash; its first
-- argument bounds the depth of these calls, and two are enough. kfree on the key of a removed item is a
-- parameter of hashtable_remove. hashtable_assertvalid is not modelled.
--
-- Sbrk models sys_sbrk of kern/syscall/sbrk.c over the fields of struct addrspace that it uses, with
-- addresses and amounts as words of 32 bits.
--
-- Pid models kern/proc/pid.c, the directory that kern/proc/proc.c keeps of the processes: a search
-- tree whose nodes have eight slots, each with a pid, a process and a subtree. A pointer to a node
-- is the tree below it; the way up to the parents, along which pid_remove_proc counts, is the way
-- back out of the recursion. The lock of the directory is the caller's.
--
-- Process models the life of a process in kern/proc/proc.c and kern/syscall/process_syscalls.c: the
-- records of parents and children with proc_exit, proc_destroy and proc_remlist in Process, sys_fork,
-- sys_waitpid and sys__exit in Process/Calls, where a step of any process is a section between two
-- waits under the lock of the directory. The directory is the map that pid_get_proc reads. What
-- pid_remove_proc makes of that map is a parameter, as the function of kern/proc/pid.c may drop other
-- processes too where it acts below the topmost node; the close of the files and of the condition
-- variable is another, and so is the pid that pid_allocate answers, one without a process. kmalloc finds memory, and a pid
-- that waitpid is asked for is not negative. The value that waitpid returns in the model is the one
-- that it copies out; an error of copyout replaces the code that it returns and changes nothing else.
--
-- Sync models P, V, lock_acquire, lock_release and lock_do_i_hold of kern/thread/synch.c as threads
-- that interleave between the sections that a spinlock protects. A state has a program counter for
-- each thread, and one step moves any one of them; Wchan is the wait channel of
-- kern/thread/thread.c as a queue.
--
-- Not modelled: the allocator behind kmalloc and kfree, interrupt levels, the inside of a spinlock
-- and of the scheduler, condition variables, the faults and regions of an address space, and the parts
-- of the kernel that load programs and drive devices and file systems.
pub mod Base
pub mod Array
pub mod Heap
pub mod Bitmap
pub mod Copy
pub mod Uio
pub mod Coremap
pub mod Linked
pub mod Hashtable
pub mod Pagetable
pub mod Sbrk
pub mod Pid
pub mod Process
pub mod Sync
