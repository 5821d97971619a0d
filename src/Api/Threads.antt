-- ===== src/Api/Threads.antt =====
-- dbrpc/bthread.cpp: calls that treat a bthread and a plain pthread differently, and those that set up
-- or stop the workers.
--
-- `is_current_main_task` and `is_current_pthread_task` are called and defined nowhere in the
-- repository; what they answer is part of the caller.
use brpc_source_code_analysi.Prelude.{
  ℕ, ◌==◌, not, if◌then◌else◌, Bool, true, false, Option, none, some,
}
use brpc_source_code_analysi.Worker.Lot.{ParkingLot}
use brpc_source_code_analysi.Worker.Stop.{Stopping, stop_and_join}

-- The thread that makes the call: the task that runs in its `tls_task_group`, if it has one.
pub record CurrentTask : Type 0 where
  pub current_tid : ℕ
  pub is_current_main_task : Bool
  pub is_current_pthread_task : Bool

pub data ExitCall : Type 0 where
  throw_exit_exception pthread_exit : (retval : ℕ) → ExitCall

unfoldable pub bthread_exit : (retval : ℕ) → Option CurrentTask → ExitCall
bthread_exit retval none = pthread_exit retval
bthread_exit retval (some t) =
    if not t.is_current_main_task then throw_exit_exception retval else pthread_exit retval

pub data LeaveCall : Type 0 where
  task_group_usleep system_usleep : (microseconds : ℕ) → LeaveCall
  task_group_yield sched_yield : LeaveCall

abbrev pub is_bthread : Option CurrentTask → Bool
is_bthread none = false
is_bthread (some t) = not t.is_current_pthread_task

unfoldable pub bthread_usleep : (microseconds : ℕ) → Option CurrentTask → LeaveCall
bthread_usleep microseconds t =
    if is_bthread t then task_group_usleep microseconds else system_usleep microseconds

unfoldable pub bthread_yield : Option CurrentTask → LeaveCall
bthread_yield t = if is_bthread t then task_group_yield else sched_yield

-- `g_worker_startfn`, 0 for NULL; the answer is whether the function was set, false for EINVAL.
unfoldable pub bthread_set_worker_startfn : (start_fn : ℕ) → (g_worker_startfn : ℕ) → ℕ × Bool
bthread_set_worker_startfn start_fn g_worker_startfn =
    if start_fn == 0 then (g_worker_startfn, false) else (start_fn, true)

-- The function that a worker calls first, in dbrpc/task_control.cpp.
unfoldable pub run_worker_startfn : (g_worker_startfn : ℕ) → Option ℕ
run_worker_startfn g_worker_startfn = if g_worker_startfn == 0 then none else some g_worker_startfn

unfoldable pub bthread_stop_world :
    (L : ParkingLot) → (has_control : Bool) (num_workers : ℕ) → Stopping L → Stopping L
bthread_stop_world L has_control num_workers c =
    if has_control then stop_and_join L num_workers c else c
