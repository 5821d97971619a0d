-- ===== src/Group/Progress.antt =====
-- dbrpc/task_group_inl.h and dbrpc/task_group.cpp: pushes into a full run queue; the general form.

use brpc_source_code_analysi.Prelude.{
  ℕ, zero, suc, ◌≡◌, refl, ◌<◌, Bool, Option, some, List, [], ◌∷◌, ◌++◌, length, arith,
  Option-cases, inl, inr, true, false,
}
use brpc_source_code_analysi.Queues.{WorkStealingQueue, RemoteTaskQueue}
use brpc_source_code_analysi.Group.Ready.{
  TaskGroup, flush_nosignal_tasks, push_rq, announce, ready_to_run, ready_to_run_general,
}

module _ (W : WorkStealingQueue) (R : RemoteTaskQueue) where
  -- The group after `k` rounds that found the queue full.
  abbrev pub retried :
      (others : ℕ → TaskGroup W R → TaskGroup W R) → ℕ → ℕ → TaskGroup W R → TaskGroup W R
  retried others zero round g = g
  retried others (suc k) round g =
      retried others k (suc round) (others round (flush_nosignal_tasks W R g))

  -- The task is the newest of the run queue.
  abbrev pub IsNewest : ℕ → TaskGroup W R → Type 0
  IsNewest tid g = (before : List ℕ) × (W.contents g.rq ≡ before ++ tid ∷ [])

  announce-IsNewest :
      (tid : ℕ) (nosignal : Bool) (g : TaskGroup W R)
      → IsNewest tid g
      → IsNewest tid (announce W R nosignal g)
  unfolding announce
  announce-IsNewest tid true g newest = newest
  announce-IsNewest tid false g newest = newest

  pushed_now :
      (others : ℕ → TaskGroup W R → TaskGroup W R) (fuel round tid : ℕ) (g : TaskGroup W R)
      (q : W.Queue)
      → W.push tid g.rq ≡ some q
      → (g' : TaskGroup W R) × (push_rq W R others (suc fuel) round tid g ≡ some g')
        × IsNewest tid g'
  unfolding push_rq
  pushed_now others fuel round tid g q pushed =
      (record g { rq = q }, rw (pushed, push_rq), (W.contents g.rq, W.push-some tid g.rq q pushed))

  push_rq_progress :
      (others : ℕ → TaskGroup W R → TaskGroup W R) (k fuel round tid : ℕ) (g : TaskGroup W R)
      → length (W.contents (retried others k round g).rq) < W.capacity
      → k < fuel
      → (g' : TaskGroup W R) × (push_rq W R others fuel round tid g ≡ some g') × IsNewest tid g'
  unfolding push_rq
  push_rq_progress others k zero round tid g room lt = absurd (omega (arith, lt))
  push_rq_progress others zero (suc fuel) round tid g room lt =
      elim (Option-cases (W.push tid g.rq)) [
        | inr (q, pushed) ↦ pushed_now others fuel round tid g q pushed
        | inl full ↦ absurd (omega (arith, room, W.push-none tid g.rq full))
      ]
  push_rq_progress others (suc k) (suc fuel) round tid g room lt =
      elim (Option-cases (W.push tid g.rq)) [
        | inr (q, pushed) ↦ pushed_now others fuel round tid g q pushed
        | inl full ↦
            let (g', done, newest) =
              push_rq_progress others k fuel (suc round) tid
                (others round (flush_nosignal_tasks W R g)) room (omega (arith, lt)) in
            (g', rw (full, push_rq) done, newest)
      ]

  -- `ready_to_run` returns and the task is at the end of the run queue, if within the rounds given
  -- the other workers bring the queue below its capacity.
  pub ready_to_run_progress :
      (others : ℕ → TaskGroup W R → TaskGroup W R) (k fuel tid : ℕ) (nosignal : Bool)
      (g : TaskGroup W R)
      → length (W.contents (retried others k 0 g).rq) < W.capacity
      → k < fuel
      → (g' : TaskGroup W R) × (ready_to_run W R others fuel tid nosignal g ≡ some g')
        × IsNewest tid g'
  unfolding ready_to_run
  ready_to_run_progress others k fuel tid nosignal g room lt =
      let (g1, done, newest) = push_rq_progress others k fuel 0 tid g room lt in
      (
        announce W R nosignal g1,
        rw (done, ready_to_run) refl,
        announce-IsNewest tid nosignal g1 newest,
      )

  -- `ready_to_run_general` called from outside the group hands over neither the task nor the flag:
  -- whatever the undeclared function does, the outcome is the same for every task.
  pub ready_to_run_general_drops_task :
      (ready_nosignal_tasks_remote : TaskGroup W R → Option (TaskGroup W R))
      (others : ℕ → TaskGroup W R → TaskGroup W R) (fuel t t' : ℕ) (nosignal nosignal' : Bool)
      (g : TaskGroup W R)
      → ready_to_run_general W R ready_nosignal_tasks_remote others fuel false t nosignal g
        ≡ ready_to_run_general W R ready_nosignal_tasks_remote others fuel false t' nosignal' g
  unfolding ready_to_run_general
  ready_to_run_general_drops_task f others fuel t t' nosignal nosignal' g = refl
