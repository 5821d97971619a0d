-- ===== src/Group/Start.antt =====
-- dbrpc/task_group.cpp: `start_background`, from the new bthread to its run queue.
--
-- `nosignal_flag` says whether a number of flags has BTHREAD_NOSIGNAL, which is defined outside the
-- repository. The answer is `none` while the run queue is still full.
use brpc_source_code_analysi.Prelude.{ℕ, ◌+◌, Bool, true, false, Option, some, none}
use brpc_source_code_analysi.Queues.{WorkStealingQueue, RemoteTaskQueue}
use brpc_source_code_analysi.Task.Meta.{TaskMeta, Attr, TidCodec, Pool}
use brpc_source_code_analysi.Task.Life.{started, failed, StartError, start_task, attr_or}
use brpc_source_code_analysi.Group.Ready.{TaskGroup, ready_to_run, ready_to_run_remote}

module _ (W : WorkStealingQueue) (R : RemoteTaskQueue) where
  pub record Starting : Type 0 where
    pub pool : Pool
    pub group : TaskGroup W R
    pub nbthreads : ℕ

  -- 0 with the identifier, or an errno.
  pub data StartResult : Type 0 where
    start_ok : (tid : ℕ) → StartResult
    start_failed : StartError → StartResult

  abbrev pub make_ready :
      (remote : Bool) (others : ℕ → TaskGroup W R → TaskGroup W R) (fuel tid : ℕ) (nosignal : Bool)
      → TaskGroup W R
      → Option (TaskGroup W R)
  make_ready true others fuel tid nosignal g = ready_to_run_remote W R others fuel tid nosignal g
  make_ready false others fuel tid nosignal g = ready_to_run W R others fuel tid nosignal g

  unfoldable pub start_background :
      (C : TidCodec) (nosignal_flag : ℕ → Bool) (remote : Bool)
      (others : ℕ → TaskGroup W R → TaskGroup W R) (fuel : ℕ) (get_resource : Option ℕ)
      (fresh : TaskMeta) (fn arg now : ℕ) (attr : Option Attr) (normal : Attr)
      → Starting
      → Option (Starting × StartResult)
  start_background C nosignal_flag remote others fuel get_resource fresh fn arg now attr normal s =
      elim (start_task C get_resource fresh fn arg now attr normal s.pool) [
        | failed e ↦ some (s, start_failed e)
        | started tid p ↦
            elim (make_ready remote others fuel tid (nosignal_flag (attr_or normal attr).flags)
              s.group) [
                | none ↦ none
                | some g ↦
                    some (record { pool = p; group = g; nbthreads = s.nbthreads + 1 }, start_ok tid)
              ]
      ]
