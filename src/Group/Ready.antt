-- ===== src/Group/Ready.antt =====
-- dbrpc/task_group.cpp and dbrpc/task_group_inl.h: `push_rq`, `ready_to_run`, its remote and general
-- forms, and the flushes.
--
-- The counters are C ints; they are natural numbers here, so a counter that would pass the largest
-- int (undefined in C++) is outside the model. `signals` records the arguments of the calls of
-- `_control->signal_task`, newest first. A push into a full queue is tried again after
-- `usleep(1000)`: what other threads do to the group in the meantime is an argument, and the answer
-- is `none` while the queue is still full.
use brpc_source_code_analysi.Prelude.{
  ℕ, zero, suc, ◌+◌, ◌==◌, if◌then◌else◌, Bool, Option, none, some, List, ◌∷◌,
}
use brpc_source_code_analysi.Queues.{WorkStealingQueue, RemoteTaskQueue}

module _ (W : WorkStealingQueue) (R : RemoteTaskQueue) where
  pub record TaskGroup : Type 0 where
    pub rq : W.Queue
    pub remote_rq : R.Queue
    pub num_nosignal : ℕ
    pub nsignaled : ℕ
    pub remote_num_nosignal : ℕ
    pub remote_nsignaled : ℕ
    pub signals : List ℕ

  unfoldable pub flush_nosignal_tasks : TaskGroup → TaskGroup
  flush_nosignal_tasks g = if g.num_nosignal == 0 then g else record g {
    num_nosignal = 0;
    nsignaled = g.nsignaled + g.num_nosignal;
    signals = g.num_nosignal ∷ g.signals;
  }

  unfoldable pub push_rq :
      (others : ℕ → TaskGroup → TaskGroup) → ℕ → ℕ → ℕ → TaskGroup → Option TaskGroup
  push_rq others zero round tid g = none
  push_rq others (suc fuel) round tid g = elim (W.push tid g.rq) [
    | some q ↦ some (record g { rq = q })
    | none ↦ push_rq others fuel (suc round) tid (others round (flush_nosignal_tasks g))
  ]

  -- After the push: count the task, or announce it with those that were only counted.
  unfoldable pub announce : Bool → TaskGroup → TaskGroup
  announce nosignal g =
      if nosignal then record g { num_nosignal = g.num_nosignal + 1 } else record g {
        num_nosignal = 0;
        nsignaled = g.nsignaled + (1 + g.num_nosignal);
        signals = (1 + g.num_nosignal) ∷ g.signals;
      }

  unfoldable pub ready_to_run :
      (others : ℕ → TaskGroup → TaskGroup) → ℕ → ℕ → Bool → TaskGroup → Option TaskGroup
  ready_to_run others fuel tid nosignal g = elim (push_rq others fuel 0 tid g) [
    | none ↦ none
    | some g' ↦ some (announce nosignal g')
  ]

  unfoldable pub flush_nosignal_tasks_remote_locked : TaskGroup → TaskGroup
  flush_nosignal_tasks_remote_locked g = if g.remote_num_nosignal == 0 then g else record g {
    remote_num_nosignal = 0;
    remote_nsignaled = g.remote_nsignaled + g.remote_num_nosignal;
    signals = g.remote_num_nosignal ∷ g.signals;
  }

  -- The counter is tested without the lock, and again under it.
  unfoldable pub flush_nosignal_tasks_remote : TaskGroup → TaskGroup
  flush_nosignal_tasks_remote g =
      if g.remote_num_nosignal == 0 then g else flush_nosignal_tasks_remote_locked g

  unfoldable pub push_remote_rq :
      (others : ℕ → TaskGroup → TaskGroup) → ℕ → ℕ → ℕ → TaskGroup → Option TaskGroup
  push_remote_rq others zero round tid g = none
  push_remote_rq others (suc fuel) round tid g = elim (R.push_locked tid g.remote_rq) [
    | some q ↦ some (record g { remote_rq = q })
    | none ↦
        push_remote_rq others fuel (suc round) tid
          (others round (flush_nosignal_tasks_remote_locked g))
  ]

  unfoldable pub announce_remote : Bool → TaskGroup → TaskGroup
  announce_remote nosignal g =
      if nosignal then record g { remote_num_nosignal = g.remote_num_nosignal + 1 } else record g {
        remote_num_nosignal = 0;
        remote_nsignaled = g.remote_nsignaled + (1 + g.remote_num_nosignal);
        signals = (1 + g.remote_num_nosignal) ∷ g.signals;
      }

  unfoldable pub ready_to_run_remote :
      (others : ℕ → TaskGroup → TaskGroup) → ℕ → ℕ → Bool → TaskGroup → Option TaskGroup
  ready_to_run_remote others fuel tid nosignal g = elim (push_remote_rq others fuel 0 tid g) [
    | none ↦ none
    | some g' ↦ some (announce_remote nosignal g')
  ]

  -- `is_tls` says whether the caller runs in this group. In the other case the source calls
  -- `ready_nosignal_tasks_remote()`, with no argument; no such function is declared, so it is a
  -- parameter.
  unfoldable pub ready_to_run_general :
      (ready_nosignal_tasks_remote : TaskGroup → Option TaskGroup)
      → (others : ℕ → TaskGroup → TaskGroup) → ℕ
      → (is_tls : Bool) → ℕ
      → Bool
      → TaskGroup
      → Option TaskGroup
  ready_to_run_general ready_nosignal_tasks_remote others fuel is_tls tid nosignal g =
      if is_tls then ready_to_run others fuel tid nosignal g else ready_nosignal_tasks_remote g

  unfoldable pub flush_nosignal_tasks_general : (is_tls : Bool) → TaskGroup → TaskGroup
  flush_nosignal_tasks_general is_tls g =
      if is_tls then flush_nosignal_tasks g else flush_nosignal_tasks_remote g

  -- The callbacks for `set_remained`, run in the group of the next task.
  pub record ReadyToRunArgs : Type 0 where
    pub tid : ℕ
    pub nosignal : Bool

  unfoldable pub ready_to_run_in_worker :
      (others : ℕ → TaskGroup → TaskGroup) → ℕ → ReadyToRunArgs → TaskGroup → Option TaskGroup
  ready_to_run_in_worker others fuel args g = ready_to_run others fuel args.tid args.nosignal g

  unfoldable pub ready_to_run_in_worker_ignoresignal :
      (others : ℕ → TaskGroup → TaskGroup) → ℕ → ReadyToRunArgs → TaskGroup → Option TaskGroup
  ready_to_run_in_worker_ignoresignal others fuel args g = push_rq others fuel 0 args.tid g
