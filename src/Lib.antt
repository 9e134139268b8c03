-- ===== src/Lib.antt =====
-- A model of the kernel under pintos/src, with the theorems that make it correct.
--
-- The kernel runs threads on one processor. threads/thread.c keeps them on 64 ready queues, one for each
-- priority, and switches between them; threads/synch.c builds semaphores, locks and condition variables
-- on blocking and unblocking them; devices/timer.c puts threads to sleep and wakes them, from the
-- interrupt that threads/interrupt.c handles, and thread_tick changes the priorities there, by aging or
-- by the BSD scheduler.
--
-- Base holds the shared tests, lists, queues, options and integers.
-- Threads/FixedPoint is the 17.14 arithmetic of thread.c. Threads/Kernel is the store of `struct thread`,
-- the ready queues, and schedule, thread_block, thread_yield, thread_unblock and thread_set_priority.
-- Threads/Aging is thread_aging and Threads/Bsd the functions named BSD_ of thread.c. Threads/Timer is
-- thread_tick, timer_sleep, timer_interrupt and intr_handler at the timer's vector. Threads/Synch is
-- synch.c, and Threads/Synch/Exclusion the steps that the threads take through a lock. Threads/Life is
-- thread_create, with init_thread, allocate_tid and the page from Palloc, thread_from_tid, and the last
-- statements of thread_exit.
--
-- lib/kernel/bitmap.c keeps arrays of bits. threads/palloc.c hands out the pages of the memory by such
-- maps, filesys/free-map.c the sectors of the device, and filesys/inode.c reads and writes the bytes of a
-- file in its sectors; filesys/file.c keeps the position of an open file and its denial of writes, and
-- filesys/directory.c the names of files as entries in the bytes of an inode. Bitmap, Palloc, FreeMap,
-- Inode, Files and Directory model these files, each with the function names of its source;
-- inode_open, inode_close, inode_reopen and inode_remove are in Files, and block_read and block_write of
-- devices/block.c in Inode.
--
-- LinkedList is lib/kernel/list.c, the linked elements of which the other parts are given as sequences.
-- userprog/pagedir.c keeps the page tables of a process in pages of the page allocator, and Paging models
-- it on the bytes of that memory. userprog/process.c loads a program: it checks the headers of its file,
-- reads its segments into fresh pages, maps them, and lays out the stack of its arguments; Loader models
-- it, over Palloc, Files and Paging. userprog/syscall.c answers the calls of a program, on the files of its
-- table of descriptors and after a check of the addresses that the program passes; Syscall models it.
--
-- Hash is lib/kernel/hash.c, the table of chains that the parts of the kernel may keep elements in, over
-- the functions `hash` and `less` of its client.
-- Malloc is threads/malloc.c, the heap of blocks of seven sizes in pages of Palloc.
--
-- A pointer is a number, NULL is 0, and the store is a function from addresses to structs. A function that
-- may fail an ASSERT returns an Option, with `none` for the panic. A function that gives the processor away
-- ends where it calls schedule: what stands behind that call runs when the thread is switched to again.
-- An `int` that may wrap does so at 32 bits; tick counts are numbers. The loops run over lists or down
-- from a number; those of Inode take the size of the request as their number of rounds, since each round
-- moves a byte at least, and the theorems about them show that it is enough. The walks of LinkedList take
-- more rounds than the list has elements, the parser of Loader more than the line has characters, and
-- load_segment as many as the segment has pages. In Hash, turning off bits takes at most as many rounds as
-- the number, and hash_next at most as many as there are buckets.
--
-- Whether an allocation of the source succeeds is an argument, or follows from Palloc; only the malloc of
-- the handlers of system calls for their arguments is taken to succeed. A failure that the
-- source does not test, and so a write through NULL, is `none` as a panic is: the realloc of sys_open, the
-- malloc of timer_sleep, and the arrays of construct_ESP, whose stack is the one page that setup_stack maps.
--
-- Not modelled: the sectors that free_map_release writes where inode_close calls it, which are those of the
-- free map's own file; the boot code with thread_init and thread_start, the drivers and the set-up of the processor;
-- the creation of inodes, and with it filesys_create, whose result is an argument of the system calls; what
-- process_execute does before it creates the thread, and process_exit; the locks by which process_execute,
-- process_wait and thread_exit meet, since they lie in the page of the child, which is freed when it dies;
-- vm/swap_out.c, which is commented out; and the C library, apart from strtok_r.
pub mod Base
pub mod Threads
pub mod Bitmap
pub mod FreeMap
pub mod Palloc
pub mod Inode
pub mod Files
pub mod LinkedList
pub mod Directory
pub mod Paging
pub mod Loader
pub mod Syscall
pub mod Hash
pub mod Malloc
