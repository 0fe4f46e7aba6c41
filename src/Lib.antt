-- ===== src/Lib.antt =====
-- A model of the Pebbles kernel of this repository (kern/), a multiprocessor kernel in C in which
-- core 0 manages the other cores by messages, and of the thread library of its user programs
-- (user/libthread), with the theorems that make their parts correct.
--
-- Base            tests, lists as C arrays, bits of a word, signed integers
-- SegTree         kern/seg_tree.c: the segment tree over the bitmap of free frames. One core's tree;
--                 `init_recursive`, `update_tree`, `get_next` and `put_back` are the source's
--                 functions. Fuel 32 is enough, since an index of a tree has at most 27 bits.
-- Pm              kern/pm.c: frames handed out and given back by address, over SegTree, and the count
--                 of reserved frames. Each call is one step, because of the source's mutex; the count
--                 has no lock, and Pm/Race models its accesses one by one. Pm/Usable counts the frames
--                 that can still be handed out.
-- Hashtable       kern/hashtable.c: the table of chains. The success of `malloc` is an argument.
-- SimpleQueue     kern/simple_queue.c: the queue of nodes that its callers provide, on an explicit
--                 memory of nodes with `next` and `prev`. A queue `Holds` a list of nodes if the links
--                 lead over them both ways. The fuel of a loop is more than the number of nodes.
-- PriorityQueue   kern/priority_queue.c: a list kept in the order of a comparison function.
-- Sleep           kern/syscall_thr_management.c and kern/timer_driver.c: sleep(), the timer interrupt
--                 and the thread that it resumes, over PriorityQueue.
-- Search          kern/smp_syscall_thr_management.c and the loops of make_runnable() and yield(): a
--                 request goes round the cores. The state of the cores is an argument, fixed during a
--                 search; the fuel counts visits.
-- Lifecycle       kern/smp_syscall_lifecycle.c: wait(), vanish() and fork() on the manager core, over
--                 Hashtable. A task is a record at an address; its queues are lists, not the
--                 nodes of SimpleQueue. A handler ends in a new state, panics, dereferences NULL or loops.
-- Mutex           kern/mutex.c: the mutex, and the threads that lock and unlock it as a step relation
--                 from an unlocked mutex.
-- Spinlock        kern/spinlock.c: the lock between two cores, each access to its fields a step.
-- Vm              kern/vm.c: the pages of a task. Vm has new_pages and remove_pages, Vm/Fault the write to
--                 a page that is zero-filled on demand and the check of user memory, Vm/Copy the copy
--                 for fork() and the release at exit. A page directory is a function from indices to
--                 page tables. The success of kernel allocations is a list in the state. The fuel of
--                 remove_pages counts pages.
-- Message         kern/smp_message.c and kern/scheduler.c: the queues between the manager core and the
--                 worker cores, and the choice of the next thread of a core. The fuel of the polling
--                 counts slots; a run out of fuel has found no message yet.
-- Rwlock          user/libthread/rwlock.c over user/libthread/cond_var.c: the readers/writers lock of
--                 the user thread library, and the threads that use it as a step relation. A stretch
--                 between two waits is one step because of the inner mutex.
-- Console         kern/console_driver.c: the video memory as a function from offsets to bytes, the
--                 logical cursor and the registers of the hardware cursor. Console/Display has the
--                 screen by rows and columns, Console/Requests the requests of other cores in
--                 kern/smp_syscall_consoleio.c.
-- Readline        kern/keyboard_driver.c and the readline() requests of kern/smp_syscall_consoleio.c, over
--                 Console. Messages and threads are addresses with a store for the messages. The
--                 decoder of scancodes is a parameter. The fuel of the loops counts characters and
--                 scancodes, and the ring holds at most 255.
-- Semaphore       user/libthread/sem.c over user/libthread/cond_var.c: the semaphore, and the threads
--                 that use it as a step relation.
-- Arraytcb        user/libthread/arraytcb.c: the array of thread control blocks and its list of free
--                 slots. Whether an allocation succeeds is an argument.
-- ThrLib          user/libthread/thr_lib.c: creating, joining and exiting threads, over Arraytcb. A
--                 stretch under a mutex is one function; the exit statuses are a list.
-- ThrMutex        user/libthread/mutex.c: the mutex of the thread library, compared with Mutex.
--
-- Numbers are natural numbers; a `uint32_t` keeps its wrap-around where it can occur, and the counts
-- that go below zero are integers. An index past an array reads a default and a write to it changes
-- nothing.
--
-- Not modelled: the page table locks and the content of memory, the assembly and the context switch,
-- the boot code, and the course's support libraries (410kern, 410user).
pub mod Base
pub mod Arraytcb
pub mod Console
pub mod Hashtable
pub mod Lifecycle
pub mod Message
pub mod Mutex
pub mod Pm
pub mod PriorityQueue
pub mod Readline
pub mod Rwlock
pub mod Search
pub mod SegTree
pub mod Semaphore
pub mod SimpleQueue
pub mod Sleep
pub mod Spinlock
pub mod ThrLib
pub mod ThrMutex
pub mod Vm
