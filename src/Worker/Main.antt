-- ===== src/Worker/Main.antt =====
-- dbrpc/task_group.cpp: `run_main_task`.
--
-- The variable that shows the usage of a worker is left out. A switch of the main task to a task with
-- a stack of its own leaves the main stack by a jump; `until_back` is what the workers do until a task
-- jumps back to it, and stands for nothing when there was no jump. A task that runs on the main stack
-- is run by `task_runner`.
use brpc_source_code_analysi.Prelude.{
  ℕ, zero, suc, ◌+◌, ◌-◌, ◌==◌, if◌then◌else◌, Bool, true, Option,
}
use brpc_source_code_analysi.Queues.{WorkStealingQueue, RemoteTaskQueue}
use brpc_source_code_analysi.Task.Meta.{Pool}
use brpc_source_code_analysi.Sched.Switch.{
  State, Switched, jumps, same_stack, fatal, itself, set_task, sched_to_tid,
}
use brpc_source_code_analysi.Sched.Runner.{Ended, quits, left, task_runner}
use brpc_source_code_analysi.Sched.Runner
use brpc_source_code_analysi.Sched.Ending.{LocalStorage}
use brpc_source_code_analysi.Sched.Ending
use brpc_source_code_analysi.Worker.Lot.{ParkingLot}
use brpc_source_code_analysi.Worker.Wait.{
  Shared, Waited, task, lot_stopped, asleep, unfinished, wait_task,
}

-- How the loop ends: `wait_task` answered false; the worker sleeps for good; the context was given up
-- by a jump in `task_runner`; or not within the rounds given.
pub data MainEnded : Type 0 where
  main_ended main_asleep main_left main_unfinished : MainEnded

module _ (W : WorkStealingQueue) (R : RemoteTaskQueue) (L : ParkingLot) where
  pub record Main : Type 0 where
    pub world : Ending.World
    pub shared : Shared W R L

  -- What the main loop takes from outside, by its round.
  pub record Outside : Type 0 where
    pub until_wait_ends : ℕ → ℕ → Shared W R L → Shared W R L
    pub meanwhile : ℕ → ℕ → Shared W R L → Shared W R L
    pub wait_rounds : ℕ
    pub until_back : ℕ → Main → Main
    pub slot_of : ℕ → ℕ
    pub now : ℕ → ℕ
    pub pthread_type : ℕ
    pub get_stack : ℕ → ℕ → Option ℕ
    pub storage : LocalStorage
    pub destructors : ℕ → Pool × State → Pool × State
    pub user : ℕ → Pool × State → Pool × State
    pub next : ℕ → State → ℕ
    pub remained : ℕ → Ending.World → Ending.World
    pub runner_rounds : ℕ

  abbrev pub is_main : Main → Bool
  is_main m = m.world.sched.group.cur_meta == m.world.sched.group.main_task

  abbrev pub with_sched : State → Main → Main
  with_sched s m = record m { world = record (m.world) { sched = s } }

  abbrev pub back : (until_back : Main → Main) → Switched → Main → Main
  back until_back (jumps from to) m = until_back m
  back until_back same_stack m = m
  back until_back fatal m = m
  back until_back itself m = m

  -- `sched_to(&dummy, tid)`, to its return.
  unfoldable pub switch_to : Outside → (round tid : ℕ) → Main → Main
  switch_to o round tid m =
      let (s, how) =
        sched_to_tid o.pthread_type (o.get_stack round) (o.now round) (o.slot_of tid)
          m.world.sched in
      back (o.until_back round) how (with_sched s m)

  -- `task_runner(1)` when a task runs on the main stack.
  unfoldable pub run_on_main_stack : Outside → Main → Main × Ended
  run_on_main_stack o m =
      if is_main m
      then (m, quits)
      else (let (w, ended) =
            task_runner o.storage o.destructors o.user o.next o.now o.pthread_type o.get_stack
              (λ fn s. s) 0 true o.remained o.runner_rounds m.world in
          (record m { world = w }, ended))

  -- `current_task()->stat.cputime_ns += cpuwide_time_ns() - _last_run_ns`
  unfoldable pub charge_idle : (now : ℕ) → Main → Main
  charge_idle now m =
      let s = m.world.sched in
      let cur = s.group.cur_meta in
      let t = s.tasks cur in
      with_sched
        (set_task cur (record t { cputime_ns = t.cputime_ns + (now - s.group.last_run_ns) }) s) m

  abbrev pub after_runner : Main × Ended → Main × MainEnded → Main × MainEnded
  after_runner (m, quits) again = again
  after_runner (m, left) again = (m, main_left)
  after_runner (m, Runner.unfinished) again = (m, main_unfinished)

  abbrev pub wait_in : Outside → (g offset round : ℕ) → Main → Shared W R L × Waited
  wait_in o g offset round m =
      wait_task W R L (o.until_wait_ends round) (o.meanwhile round) g offset o.wait_rounds 0
        m.shared

  abbrev pub run_waited :
      Outside → (round : ℕ) → Waited → Main → (Main → Main × MainEnded) → Main × MainEnded
  run_waited o round (task tid) m rest =
      let ran = run_on_main_stack o (switch_to o round tid m) in after_runner ran (rest ran.0)
  run_waited o round lot_stopped m rest = (charge_idle (o.now round) m, main_ended)
  run_waited o round asleep m rest = (m, main_asleep)
  run_waited o round unfinished m rest = (m, main_unfinished)

  unfoldable pub run_main_task : Outside → (g offset fuel round : ℕ) → Main → Main × MainEnded
  run_main_task o g offset zero round m = (m, main_unfinished)
  run_main_task o g offset (suc fuel) round m =
      let (shared, how) = wait_in o g offset round m in
      run_waited o round how (record m { shared = shared })
        (run_main_task o g offset fuel (suc round))
