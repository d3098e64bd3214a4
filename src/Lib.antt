-- ===== src/Lib.antt =====
-- Models of parts of the x15 kernel, with proofs about them.
--
-- Numbers are the native natural numbers. `size_t`, `unsigned long` and `uint64_t` are numbers below
-- 2 ^ 64, `unsigned int` below 2 ^ 32, and the wrap-around of their sums and differences is written
-- out (Prelude.Words). `none` is a failed assertion, a null pointer dereferenced or a copy out of
-- bounds; error codes are values (Errno for include/errno.h). Operations that the kernel runs under
-- one lock, or with preemption and interrupts disabled, are single steps.
--
-- The parts and their files:
--   * Cbuf: the circular byte buffer of kern/cbuf.{h,c}. `Cbuf` is `struct cbuf` with the storage as
--     a list of bytes at the address `buf`; `push`, `pushb`, `pop`, `popb`, `write` and `read` are
--     the functions cbuf_push to cbuf_read. Cbuf.Inv has the well-formed states (a capacity that is
--     a power of two, a storage of that length that does not wrap in memory), Cbuf.Closed and
--     Cbuf.Fill the copies in closed form, Cbuf.Reference a byte by byte writer, Cbuf.Contents the
--     bytes that a buffer holds, Cbuf.Fifo the queue of bytes that it implements, Cbuf.Refine and
--     Cbuf.Pop the refinement, and Cbuf.Empty the copies of no bytes.
--   * Bitmap: kern/bitmap.h, a bitmap being the list of its words. Bitmap.Bits has the digits of the
--     words, and Bitmap.Update is about the operations.
--   * Clock: the comparison of times of kern/clock.h. The tick counter is an input of the timers.
--   * CString: kern/string.c, on memory as a function of addresses. CString.Copy is about copies of
--     bytes, CString.Text about strings; the loops that end at a null byte have a fuel, and one more
--     than the characters is enough.
--   * FormatPrint: formatted output in kern/fmt.c: the buffer of fmt_vsnprintf, and the conversion
--     of integers (fmt_sprintf_state_produce_int) from the argument as a number of 64 bits on, with
--     its digits on a fuel of 64, which is enough as each digit takes three bits at least.
--     FormatPrint.Buffer is about the buffer, Digits about the digits, Plain about numbers without
--     flags.
--   * FormatScan: formatted input in kern/fmt.c: `scan_int` is fmt_sscanf_state_produce_int up to
--     the store of the number, with the loop over the digits on a fuel of one more than the
--     characters left. FormatScan.Characters is about digits as characters, Loop has the loops,
--     RoundTrip what is printed and read again, Auto the base 0.
--   * Init: kern/init.c, the operations of the initialisation, of which the section is a list.
--     `bootstrap`, `scan_ops`, `run_ops` and `setup` are the functions init_bootstrap to init_setup;
--     the loop of the sort has one more fuel than there are operations, which is enough. Init.Count
--     counts dependencies, Init.Visit and Init.Scan are about the sort, Init.Run about the run,
--     Init.Setup about the whole.
--   * LinkedList: kern/list.h, doubly linked lists as the `prev` and `next` members of nodes that
--     are numbers. LinkedList.Chain relates a list to the sequence of its nodes; Gap, Insert, Join,
--     Split and Walk are about the operations, the walk on fuel that a list of fewer nodes does not
--     use up. LinkedList.Rcu has the states between the assignments of the RCU variants, as a reader
--     sees them.
--   * PriorityList: kern/plist.{h,c}, over two stores of links. PriorityList.Place is about the loop
--     of `add`, on fuel, and the place that it finds, PriorityList.Change about adding and removing.
--   * PageZone: the buddy system of vm/vm_page.c. A zone has a list of free blocks per order;
--     `alloc_from_buddy` and `free_to_buddy` are the functions of that name, with the loops on the
--     number of orders left. PageZone.Weight sums a weight over the pages of blocks, which says of
--     each page how often it is free, and PageZone.Once counts one page; PageZone.Align has the
--     addresses of buddies, Shape what holds of the free lists, Moved that it is kept when a block
--     enters or leaves one, Split and Merge the two loops, and Pages the operations. The assertions on
--     the orders of pages are tests, and a failed one is no result.
--   * PagePool: the pools of pages of the processors in vm/vm_page.c, and the allocation from a zone
--     through them. PagePool.Fill is about the transfers between a pool and its zone, Held about
--     the types of the pages that they hold, which the assertions test, Alloc and Serve about
--     allocating and freeing, Start about the initialisation.
--   * Semaphore: kern/semaphore.{h,c}. The steps of threads are a relation: `wait` and `post` up to
--     the slow paths, `wait_slow` for a turn of the loop of the waiters, `post_slow` for the signal;
--     the queue is the sequence of the waiters that are not signaled yet. Semaphore.Runs is about
--     runs, and counts the waits that return in one, the tries that succeed and the posts.
--   * Timer: kern/timer.c. `System` has the timers, the wheel of each processor (`CpuData`) and what
--     was asked of other parts: works scheduled and threads woken up. `init`, `schedule`, `cancel`,
--     `process` and `report_periodic_event` are the functions timer_init to
--     timer_report_periodic_event; timer_cancel is `cancel` up to its first sleep and `await` for
--     each test of its loop. Timer.Valid has the well-formed states, Timer.Sweep, Timer.Wheels and
--     Timer.Collect the loop of an event, on fuel: one more than the ticks since the last event,
--     which is enough when these are at most 2 ^ 60. Timer.Event, Timer.Schedule, Timer.Cancel,
--     Timer.Join and Timer.Priority are about one operation each.
--   * Work: kern/work.{h,c}. Work.Queue has the queues as linked lists: a work is a number, and the
--     `next` members are a function that the operations change. Work.Queue.Chain relates a queue to
--     a sequence, Work.Queue.Sequence says what the operations do to it. Work.Pool has the pools,
--     their two queues, their identifiers, and the scheduling of works; a bitmap is a function into
--     Bool. Work.Pool.Holds relates a pool to a sequence; Fifo, Report, Bounds, Schedule and Rest
--     beside it are about the operations. Work.Process has work_process as the steps of a worker,
--     from one release of the pool or one sleep to the next: `enter` is the head of the loop,
--     `wake_spare` and `wake_manager` follow the sleeps, `destroyed` and `created` follow the two
--     sections outside the lock. Work.Process.Staff relates the members of the pool to where the
--     workers stand, and Steps, Loop and Turns are about the steps.
--
-- How the parts interact: a timer that does not run in interrupt context defers its handler to a
-- work (timer_process calls work_schedule), so Timer keeps the calls with their flags, and
-- Timer.Priority uses the test of these flags in Work.Pool. PriorityList uses the operations of
-- LinkedList as they are. PagePool uses the buddy system of PageZone; both take a list as its
-- sequence of nodes, whose insertion at the head and removal LinkedList.Insert justifies.
--
-- Not modelled: the handlers of timers, which are a parameter, and those of works, of which only the
-- return counts; waits with a time limit; the creation of worker threads, and the building of wheels
-- and pools at boot; the parsing of formats and the conversions of characters and strings; the table
-- of the zones of pages; the locks, the scheduler, the caches of objects, the machine code and the other parts of the kernel.
pub mod Prelude
pub mod Bitmap
pub mod CString
pub mod Cbuf
pub mod Clock
pub mod Errno
pub mod FormatPrint
pub mod FormatScan
pub mod Init
pub mod LinkedList
pub mod PagePool
pub mod PageZone
pub mod PriorityList
pub mod Semaphore
pub mod Timer
pub mod Work
