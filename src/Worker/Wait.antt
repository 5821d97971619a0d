-- ===== src/Worker/Wait.antt =====
-- dbrpc/task_group.cpp: `wait_task`; dbrpc/task_group.h: `steal_task`.
--
-- BTHREAD_DONT_SAVE_PARKING_STATE is not defined: the state of the lot is saved before a steal.
-- `meanwhile` is what other threads do between that read and the steal from the other groups, and
-- `until_wait_ends` what they do until `_pl->wait` returns or, if it does not, while the worker sleeps.
-- A wake without a signal is left out.
use brpc_source_code_analysi.Prelude.{ℕ, zero, suc, if◌then◌else◌, Option, none, some, update}
use brpc_source_code_analysi.Queues.{WorkStealingQueue, RemoteTaskQueue}
use brpc_source_code_analysi.Control.Groups.{Groups}
use brpc_source_code_analysi.Control.Steal.{RunQueues, steal_task}
use brpc_source_code_analysi.Worker.Lot.{ParkingLot}

-- How `wait_task` goes: a task, false because the lot is stopped, a sleep that nobody ends, or not
-- within the rounds given.
pub data Waited : Type 0 where
  task : (tid : ℕ) → Waited
  lot_stopped asleep unfinished : Waited

module _ (W : WorkStealingQueue) (R : RemoteTaskQueue) (L : ParkingLot) where
  -- What the worker of one group shares with the other threads, and its `_last_pl_state` and
  -- `_steal_seed`.
  pub record Shared : Type 0 where
    pub lot : L.State
    pub last_pl_state : L.State
    pub table : Groups
    pub queues : RunQueues W R
    pub steal_seed : ℕ

  abbrev pub from_others : (offset : ℕ) → Shared → Shared × Option ℕ
  from_others offset s =
      let r = steal_task W R s.steal_seed offset s.table s.queues in
      (record s { steal_seed = r.seed; queues = r.queues }, r.task)

  abbrev pub save_state : Shared → Shared
  save_state s = record s { last_pl_state = s.lot }

  -- `TaskGroup::steal_task` of group `g`.
  unfoldable pub group_steal_task :
      (meanwhile : Shared → Shared) (g offset : ℕ) → Shared → Shared × Option ℕ
  group_steal_task meanwhile g offset s = elim (R.pop (s.queues.remote_rq g)) [
    | some (tid, q) ↦ (
      record s { queues = record (s.queues) { remote_rq = update s.queues.remote_rq g q } },
      some tid,
    )
    | none ↦ from_others offset (meanwhile (save_state s))
  ]

  abbrev pub found_or : Shared × Option ℕ → Shared × Waited → Shared × Waited
  found_or (s, some tid) again = (s, task tid)
  found_or (s, none) again = again

  unfoldable pub wait_task :
      (until_wait_ends meanwhile : ℕ → Shared → Shared) (g offset : ℕ)
      → (fuel round : ℕ) → Shared
      → Shared × Waited
  wait_task until_wait_ends meanwhile g offset zero round s = (s, unfinished)
  wait_task until_wait_ends meanwhile g offset (suc fuel) round s =
      let s1 = until_wait_ends round s in
      let stolen = group_steal_task (meanwhile round) g offset s1 in
      let again = wait_task until_wait_ends meanwhile g offset fuel (suc round) stolen.0 in
      if L.stopped s.last_pl_state
      then (s, lot_stopped)
      else if L.equal s1.lot s1.last_pl_state
      then (s1, asleep)
      else found_or stolen again
