-- ===== src/Lib.antt =====
-- osdesignasst: a user-level thread library with a paged memory of its own (tmp2/), and its earlier
-- version without it (code/).
--
-- Parts. my_pthread.c keeps two queues of threads and a table of mutexes; a thread's id is a handle of
-- that table, and joining is waiting for it. Its switches call virt.c, which moves the pages of the
-- threads between the virtual heap and the physical memory, and swaps pages out to the file of swap.c
-- when the physical memory is full. my_malloc.c is the allocator of a thread's heap on pages of
-- virt.c, and shm.c gives out pages that all threads share.
--
-- Files.
--   Prelude       shared names, lists, the search loop of the tables, faults, integers
--   Limits        the constants of tmp2/virt.h
--   Pthread       tmp2/my_pthread.c. State: the globals, the queue spinlock and the timer; Sched: schedule,
--                 schedule_swap_current_to_wait, timer_handler, release_thread, release_all_thread;
--                 Mutex: alloc_mutex and the calls on mutexes; Thread: init, create, yield, exit, join
--   Malloc        tmp2/my_malloc.c. Malloc itself: _malloc and _free on a trunk; Heap: my_malloc, my_free
--   Swap          tmp2/swap.c
--   Share         tmp2/shm.c
--   Virt          tmp2/virt.c. Pte: the bit fields of mmpte; State: the page tables, frames and pages;
--                 Frames: allocate_physical_page, evict_page, free_physical_page; Pages: mm_allocate_page,
--                 pagefault_handler, free_thread_pages; Switch: mm_store_virtual_pages_back and
--                 mm_switch_virtual_pages; Init: mm_init; Owners: who owns which frame, over all steps
--   Code          the earlier version in code/. Malloc: code/my_malloc.c, with one page for each thread;
--                 Pthread: code/my_pthread.c, and in Refine the relation between its states and calls and
--                 those of tmp2/my_pthread.c; Conserve: where each thread is, over runs
--   Benchmark     the programs of Benchmark/, over the library of code/. Worker: the loop of a worker, step
--                 by step; Lock: who holds the mutex and what is left to add; Start: main up to its joins,
--                 and runs from there; Wakes: who ends a wait in pthread_join; Pages: the page of main;
--                 Shares: which indices a worker has; Vector: vectorMultiply.c; External: externalCal.c; Parallel: parallelCal.c
--
-- Conventions. A pointer to a thread is a number, and `c` in Virt is CURRENT. An array is a list. A
-- run that ends the process, or leaves an array, or never ends, is a `fault`; -1 and NULL as answers
-- are values. A function that switches threads gives the state in which the next thread runs on. The
-- loops over tables are recursions on the tables, and need no fuel. The one loop that may not end, the
-- wait for the queue spinlock, takes a number of rounds, of which one is enough to know its end. The loop
-- of a worker of the benchmarks over its share has as many rounds as there are indices, enough since each
-- round goes on by one index or more.
--
-- Not modelled: what the user's threads do (an argument of thread_stub), the C library's malloc of the
-- thread structures (an argument), debug output, the unit tests, the files that externalCal.c reads (an
-- argument), and scheduler/, a copy of code/my_pthread.c that does not compile. The links of the two queues
-- are not modelled: a queue is a list of threads, and the places where the links matter, the loops of
-- release_all_thread, say so. In code/ no call is protected from the timer; a tick is modelled between
-- calls, and in Benchmark also between the load and the store of the global, but not inside a call, where it
-- breaks the queues and the mutexes, and not before the first join of main. A worker of the benchmarks has a
-- list of the numbers that it adds, which stands for the number that main has put in the page of id 0; that
-- page is taken not to be cleared by the end of a thread, whose freed memory tells which page is. The mallocs of
-- main, which fail with more than 128 threads, are not modelled, and the joins are events. What main does
-- behind its joins is modelled in verify only.
pub mod Prelude
pub mod Limits
pub mod Pthread
pub mod Malloc
pub mod Virt
pub mod Swap
pub mod Share
pub mod Code
pub mod Benchmark
