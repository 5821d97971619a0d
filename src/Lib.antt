-- ===== src/Lib.antt =====
-- A verification library of the bthread sources in this repository: dbrpc/butex.cpp,
-- dbrpc/task_control.cpp, dbrpc/task_group.cpp, dbrpc/task_group_inl.h and dbrpc/bthread.cpp.
--
-- bthreads are threads in user space that a fixed set of pthreads, the workers, run. Each worker has a
-- TaskGroup with two run queues; one TaskControl has the table of all groups and lets idle workers
-- steal; a butex is what bthreads and pthreads wait on; bthread.cpp is the C interface.
--
-- The parts of the library, by the code that they are about:
--
--   * Prelude: names of the libraries, Boolean tests, lists and sums over the native numbers.
--   * Queues: the work stealing queue and the remote queue as interfaces, with a bounded list as an
--     instance. Both classes are defined outside the repository.
--   * Butex: dbrpc/butex.cpp. State is the memory that waiters and butexes live in and the record of
--     calls that leave the file; Wake, Wait and Pthread have the functions; the other modules prove
--     what they do, and Steps puts them into one transition system. Spec states what the functions
--     promise on queues alone, and Refines relates the two. Callers has the callers of erase_from_butex.
--   * Control: dbrpc/task_control.cpp. Groups has the table (_add_group, _delete_group), Steal has
--     steal_task, Signal has signal_task, Workers has init and add_workers, Pending has
--     exposed_pending_time. Registry is the table without its order, and Refines relates the two.
--   * Group: the queues of dbrpc/task_group.cpp: ready_to_run in its forms, push_rq, the flushes,
--     start_background, and Timer the callback of the timer for a sleeping bthread.
--   * Task: the bthreads of dbrpc/task_group.cpp: TaskMeta and identifiers, start, end, join, stop,
--     interruption and sleep, get_attr and print_task, and histories of the pool. Tid has make_tid
--     and get_slot of dbrpc/task_group_inl.h.
--   * Sched: switching in dbrpc/task_group.cpp and dbrpc/task_group_inl.h: sched, ending_sched,
--     sched_to, exchange, yield, task_runner (Ending has one round of its loop),
--     _release_last_context and start_foreground (Foreground).
--   * Worker: the life of a worker in dbrpc/task_control.cpp and dbrpc/task_group.cpp. Construct and
--     Create have the constructor, init and destructor of a group, create_group, worker_thread and
--     destroy_self, with a ledger of what they take and give back; Lot is the parking lot as an
--     interface; Wait has wait_task, Main run_main_task, Stop stop_and_join,
--     Destroy the destructor of TaskControl.
--   * Api: dbrpc/bthread.cpp: the flags on the number of workers, the control of the process, and
--     which group a call goes to, what differs between bthreads and pthreads, and lists of bthreads.
--   * Tests: the theorems at concrete data.
--
-- State is passed explicitly; calls that leave a part are collected in a list, newest first. A section
-- under a lock is one step; what other threads do between two sections is an argument. The scan of
-- steal_task, which takes no lock, is one step too. Numbers are
-- natural; identifiers and versions wrap where the code's types do, which the definitions write out.
--
-- Loops over lists and counts are structural. Loops that another thread can keep going (push_rq,
-- erase_from_butex, join, the spin on current_waiter, the remained functions) run on the rounds that
-- are given, as fuel or as a list of what the others do, and answer none when these are used up; the
-- theorems that they return say which rounds are enough.
--
-- Outside the repository, and therefore parameters: the timer thread, the parking lots, the object and
-- resource pools, butil::double_lock, TaskMeta, the container of lists of bthreads, stacks and jump_stack, pthread_create,
-- and butex_wait for bthreads, of which the repository has only the callback wait_for_butex.
--
-- Not modelled: statistics (print_rq_sizes, the variables that the constructor of TaskControl sets up),
-- logging, errno, the contents of key tables, exceptions of user code other than ExitException,
-- thread-local pointers of the RPC layer, the context of task_runner after it has jumped away, and the
-- order of memory accesses within a locked section. bthread_about_to_quit has the body of another
-- function, with undeclared names. The loops of the main task, of task_runner and of wait_task run on
-- fuel; what the other threads do between two of their steps is an argument by round.
pub mod Prelude
pub mod Queues
pub mod Butex
pub mod Control
pub mod Group
pub mod Task
pub mod Sched
pub mod Worker
pub mod Api
pub mod Tests
