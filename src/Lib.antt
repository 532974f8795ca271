-- ===== src/Lib.antt =====
-- TaskClock keeps a deterministic logical clock, counted in retired instructions, for each thread
-- of a process, and tells the waiting thread with the lowest clock that it is its turn. This is a
-- model of its kernel module and of the library that a program is linked with.
--
-- Listarray.antt is the list of active threads (module/listarray.h): an array of linked entries.
-- Each C function is the function of the same name without `listarray_`; its child modules show
-- what it stands for (Represents), and each operation (Insert, Remove, Foreach).
-- Group.antt is the state of a group of threads and the macros of module/utility.h: an `Entry` for
-- each thread, the status record of each thread that user space shares (lib/determ_clock.h), the
-- group, and the requests made to the rest of the kernel. A macro `__x` is the function `x`.
-- Search.antt is module/search_entries.h. Search/Order is the order of the clocks, Search/Fold and
-- Search/Lowest the scans for the lowest, Search/Waiting the search with the uninitialised array,
-- Search/Count the count of awake threads, Search/Debug the search that notes what it visits,
-- Search/Printing those that print it.
-- Fence.antt is module/bounded_tso.c and .h, in builds with and without USE_BOUNDED_FENCE;
-- Fence/Stepping and Fence/Chunk follow the fence from its start to the signal.
-- Counter.antt is module/logical_clock_instruction_counting.h, and the empty macros of
-- module/logical_clock_no_ticks.h; Counter/Delta is the arithmetic of the 48-bit counter,
-- Counter/Clock a read of it, Counter/Period the overflow period.
-- Notify.antt is the first half of module/clock_main.c: who is the lowest, and who is woken.
-- Notify/Kept is what this leaves alone, Notify/Settle the part after the search, Notify/Determine
-- the whole, Notify/Wake, Notify/Notified and Notify/NewLowest the rest.
-- Handlers.antt is the second half, the functions that the kernel calls, which use all of these:
-- Handlers/Lists and Handlers/Threads are about threads that come and go, Handlers/Wait,
-- Handlers/Disable, Handlers/Sleep and Handlers/Stuck about waiting and sleeping,
-- Handlers/Interrupt about the overflow interrupt, Handlers/GroupInit about the start.
-- System.antt puts the functions of the table that `init_module` fills together: a `Call`, and any
-- sequence of calls by any threads. System/Quiet, System/Counters, System/Notices and System/Calls
-- are what a call leaves alone of other threads and of the list, System/Listing the calls that change
-- the list, System/WellFormed the invariant, System/Turn a turn that stays, System/Published the
-- status record's copy of the clock. The flag of each thread, `lowest_clock`, is followed through the
-- calls by System/Truthful (determining the lowest thread), System/Telling (waking it), System/Steady
-- and System/Activation (what leaves the flags alone), System/Honest and System/Flags (the calls that
-- determine the lowest), System/Announced (the queued work), System/Taken (a thread that activates
-- itself), and System/Exclusive puts these together.
-- Estimate.antt is lib/tx_estimate.h: Estimate/Rounding is the arithmetic of `float`,
-- Estimate/Average the range of the average, Estimate/Ring the observations that an entry holds.
-- Library.antt is lib/determ_clock.c with lib/perf_counter.c: its records and small functions;
-- Library/Waiting and Library/Sections have the functions for waiting and for counted sections,
-- Library/Turns, Library/Wait and Library/Coarsened are about these, and Library/Composed,
-- Library/Granted and Library/Counted run the library on top of the functions of Handlers.antt.
-- Library/Startup is the start of the threads' clocks, and what a program reads of them.
-- ClockCache.antt is lib/debug_clock_cache.c, and ClockCache/Replay two runs with one file.
-- Module.antt is the start and the end of the kernel module and its time helpers, with Module/Table
-- and Module/Times about these; Module/Snapshots is the debug log of module/clock_main.c, and
-- Module/Printed what is printed of it.
-- Common.antt holds the shared helpers, and Tests.antt the theorems at concrete states.
--
-- A call is a function from a `Context`, which says who runs it, in which build, and what it will
-- read from the hardware, and a `Machine` to a `Result`: a value, a `BUG_ON`, an access out of
-- bounds, or the end of the fuel. What runs under the group lock is one step, and the unlocked
-- `__wake_up_waiting_thread` a function of its own; System.antt runs a call with its wake-up at once.
-- Entries and status records are functions of the thread id. Numbers are natural numbers that are
-- reduced modulo 2 ^ 64 where the code's are 64-bit words; an id that may be -1 is an `Option`.
-- The loops over the list have fuel for one entry more than it counts, which is shown to be enough.
-- The retries of a counter read end with the list of what the hardware returns. The loop of
-- `task_clock_entry_sleep` has its rounds as an argument.
-- The library's functions go from a `Thread` to an `Option`, where `none` stands for the exit of the
-- program. What is not the library is a record `Kernel` of functions over a state of its own, with
-- what a theorem relies on as its hypotheses. A `float` is a natural number in
-- units of 2^-26 or 2^0, rounded to 24 bits with ties to even, and a `double` one in units of 2^-55 or
-- 2^0, rounded to 53 bits (Common/Rounding); 128 doublings of the unit are enough for all numbers
-- below 2^152.
--
-- Not modelled: debug output of single values, the page table walk of `task_clock_entry_init`
-- beyond its `BUG_ON`, how the shared memory and the file of the debug clock cache are opened and
-- mapped, which are parameters, and lib/determ_perf_event.h, which is a kernel header. Of the
-- kernel's own types the records hold the fields that the module uses. The bounds of `clocks` and
-- of the status records are not checked, nor that the kernel maps a single page of the latter, so
-- that what is said of them is said of ids within them.
mod Common
pub mod Listarray
pub mod Group
pub mod Search
pub mod Fence
pub mod Counter
pub mod Notify
pub mod Handlers
pub mod System
pub mod Estimate
pub mod Library
pub mod ClockCache
pub mod Module
pub mod Tests
