-- ===== src/Group/History.antt =====
-- dbrpc/task_group.cpp: the announcements over any history of a task group.
use brpc_source_code_analysi.Prelude.{ℕ, suc, ◌≡◌, Bool, some, arith}
use brpc_source_code_analysi.Queues.{WorkStealingQueue, RemoteTaskQueue}
use brpc_source_code_analysi.Group.Ready.{
  TaskGroup, flush_nosignal_tasks, ready_to_run, flush_nosignal_tasks_remote_locked,
  ready_to_run_remote,
}
use brpc_source_code_analysi.Group.Ledger.{
  OnlyTakes, Counted, Counted-step, flush-Counted, flush_remote-Counted, ready_to_run-Counted,
  ready_to_run_remote-Counted,
}

module _ (W : WorkStealingQueue) (R : RemoteTaskQueue) where
  -- A history of one group: tasks made ready by the worker and by other threads, and flushes. The
  -- numbers count the local and the remote tasks.
  pub data History (g : TaskGroup W R) : ℕ → ℕ → TaskGroup W R → Type 0 where
    start : History g 0 0 g
    ready :
        {n m : ℕ} {g1 g2 : TaskGroup W R} (others : ℕ → TaskGroup W R → TaskGroup W R)
        (fuel tid : ℕ) (nosignal : Bool)
        → OnlyTakes W R others
        → ready_to_run W R others fuel tid nosignal g1 ≡ some g2
        → History g n m g1
        → History g (suc n) m g2
    ready_remote :
        {n m : ℕ} {g1 g2 : TaskGroup W R} (others : ℕ → TaskGroup W R → TaskGroup W R)
        (fuel tid : ℕ) (nosignal : Bool)
        → OnlyTakes W R others
        → ready_to_run_remote W R others fuel tid nosignal g1 ≡ some g2
        → History g n m g1
        → History g n (suc m) g2
    flush :
        {n m : ℕ} {g1 : TaskGroup W R}
        → History g n m g1
        → History g n m (flush_nosignal_tasks W R g1)
    flush_remote :
        {n m : ℕ} {g1 : TaskGroup W R}
        → History g n m g1
        → History g n m (flush_nosignal_tasks_remote_locked W R g1)

  -- After any history of `n` local and `m` remote tasks, the announcements made and those still to be
  -- made have grown by `n` and `m`: no task is forgotten, none announced twice. The other workers only
  -- take tasks from the queues.
  pub History-Counted :
      {g : TaskGroup W R} {n m : ℕ} {g' : TaskGroup W R} → History g n m g' → Counted W R n m g g'
  History-Counted start = record {
    more_local = omega arith;
    more_remote = omega arith;
    settled = λ h. h;
  }
  History-Counted (ready {g1 = g1} {g2 = g2} others fuel tid nosignal o e h) =
      Counted-step W R (ready_to_run-Counted W R others fuel tid nosignal g1 g2 o e).0 (omega arith)
        (omega arith) (History-Counted h)
  History-Counted (ready_remote {g1 = g1} {g2 = g2} others fuel tid nosignal o e h) =
      Counted-step W R (ready_to_run_remote-Counted W R others fuel tid nosignal g1 g2 o e)
        (omega arith) (omega arith) (History-Counted h)
  History-Counted (flush {g1 = g1} h) =
      Counted-step W R (flush-Counted W R g1).0 (omega arith) (omega arith) (History-Counted h)
  History-Counted (flush_remote {g1 = g1} h) =
      Counted-step W R (flush_remote-Counted W R g1).0 (omega arith) (omega arith)
        (History-Counted h)
