-- ===== src/Group/Starts.antt =====
-- dbrpc/task_group.cpp: what `start_background` starts, and where it queues it.
use brpc_source_code_analysi.Prelude.{
  ℕ, zero, suc, ◌≡◌, ◌≢◌, refl, ◌+◌, ◌<◌, ◌^◌, Bool, true, false, Option, some, List, [], ◌∷◌, ◌++◌,
  length, arith, Option-cases, inl, inr,
}
use brpc_source_code_analysi.Queues.{WorkStealingQueue, RemoteTaskQueue}
use brpc_source_code_analysi.Task.Meta.{TaskMeta, Attr, TidCodec, is_stopped}
use brpc_source_code_analysi.Task.Life.{slot_meta, attr_or}
use brpc_source_code_analysi.Task.Identity.{IsRunning, start_task-IsRunning}
use brpc_source_code_analysi.Group.Ready.{
  TaskGroup, flush_nosignal_tasks_remote_locked, push_remote_rq, announce_remote,
  ready_to_run_remote,
}
use brpc_source_code_analysi.Group.Progress.{retried, IsNewest, ready_to_run_progress}
use brpc_source_code_analysi.Group.Start.{Starting, start_ok, make_ready, start_background}

module _ (W : WorkStealingQueue) (R : RemoteTaskQueue) where
  -- The group after `k` rounds that found the remote queue full.
  abbrev pub retried_remote :
      (others : ℕ → TaskGroup W R → TaskGroup W R) → ℕ → ℕ → TaskGroup W R → TaskGroup W R
  retried_remote others zero round g = g
  retried_remote others (suc k) round g =
      retried_remote others k (suc round) (others round (flush_nosignal_tasks_remote_locked W R g))

  abbrev pub IsNewestRemote : ℕ → TaskGroup W R → Type 0
  IsNewestRemote tid g = (before : List ℕ) × (R.contents g.remote_rq ≡ before ++ tid ∷ [])

  announce_remote-newest :
      (tid : ℕ) (nosignal : Bool) (g : TaskGroup W R)
      → IsNewestRemote tid g
      → IsNewestRemote tid (announce_remote W R nosignal g)
  unfolding announce_remote
  announce_remote-newest tid true g newest = newest
  announce_remote-newest tid false g newest = newest

  remote_pushed_now :
      (others : ℕ → TaskGroup W R → TaskGroup W R) (fuel round tid : ℕ) (g : TaskGroup W R)
      (q : R.Queue)
      → R.push_locked tid g.remote_rq ≡ some q
      → (g' : TaskGroup W R) × (push_remote_rq W R others (suc fuel) round tid g ≡ some g')
        × IsNewestRemote tid g'
  unfolding push_remote_rq
  remote_pushed_now others fuel round tid g q pushed = (
    record g { remote_rq = q },
    rw (pushed, push_remote_rq),
    (R.contents g.remote_rq, R.push-some tid g.remote_rq q pushed),
  )

  push_remote_rq_progress :
      (others : ℕ → TaskGroup W R → TaskGroup W R) (k fuel round tid : ℕ) (g : TaskGroup W R)
      → length (R.contents (retried_remote others k round g).remote_rq) < R.capacity
      → k < fuel
      → (g' : TaskGroup W R) × (push_remote_rq W R others fuel round tid g ≡ some g')
        × IsNewestRemote tid g'
  unfolding push_remote_rq
  push_remote_rq_progress others k zero round tid g room lt = absurd (omega (arith, lt))
  push_remote_rq_progress others zero (suc fuel) round tid g room lt =
      elim (Option-cases (R.push_locked tid g.remote_rq)) [
        | inr (q, pushed) ↦ remote_pushed_now others fuel round tid g q pushed
        | inl full ↦ absurd (omega (arith, room, R.push-none tid g.remote_rq full))
      ]
  push_remote_rq_progress others (suc k) (suc fuel) round tid g room lt =
      elim (Option-cases (R.push_locked tid g.remote_rq)) [
        | inr (q, pushed) ↦ remote_pushed_now others fuel round tid g q pushed
        | inl full ↦
            let (g', done, newest) =
              push_remote_rq_progress others k fuel (suc round) tid
                (others round (flush_nosignal_tasks_remote_locked W R g)) room
                (omega (arith, lt)) in
            (g', rw (full, push_remote_rq) done, newest)
      ]

  pub ready_to_run_remote_progress :
      (others : ℕ → TaskGroup W R → TaskGroup W R) (k fuel tid : ℕ) (nosignal : Bool)
      (g : TaskGroup W R)
      → length (R.contents (retried_remote others k 0 g).remote_rq) < R.capacity
      → k < fuel
      → (g' : TaskGroup W R) × (ready_to_run_remote W R others fuel tid nosignal g ≡ some g')
        × IsNewestRemote tid g'
  unfolding ready_to_run_remote
  ready_to_run_remote_progress others k fuel tid nosignal g room lt =
      let (g1, done, newest) = push_remote_rq_progress others k fuel 0 tid g room lt in
      (
        announce_remote W R nosignal g1,
        rw (done, ready_to_run_remote) refl,
        announce_remote-newest tid nosignal g1 newest,
      )

  -- Within `k` rounds the queue that the new task goes to has room.
  abbrev pub HasRoom :
      (remote : Bool) (others : ℕ → TaskGroup W R → TaskGroup W R) (k : ℕ) → TaskGroup W R → Type 0
  HasRoom true others k g = length (R.contents (retried_remote others k 0 g).remote_rq) < R.capacity
  HasRoom false others k g = length (W.contents (retried W R others k 0 g).rq) < W.capacity

  abbrev pub IsQueued : (remote : Bool) (tid : ℕ) → TaskGroup W R → Type 0
  IsQueued true tid g = IsNewestRemote tid g
  IsQueued false tid g = IsNewest W R tid g

  make_ready_progress :
      (remote : Bool) (others : ℕ → TaskGroup W R → TaskGroup W R) (k fuel tid : ℕ)
      (nosignal : Bool) (g : TaskGroup W R)
      → HasRoom remote others k g
      → k < fuel
      → (g' : TaskGroup W R) × (make_ready W R remote others fuel tid nosignal g ≡ some g')
        × IsQueued remote tid g'
  make_ready_progress true others k fuel tid nosignal g room lt =
      ready_to_run_remote_progress others k fuel tid nosignal g room lt
  make_ready_progress false others k fuel tid nosignal g room lt =
      ready_to_run_progress W R others k fuel tid nosignal g room lt

  -- `start_background`, from a worker or from another thread, with a function and a slot, returns 0
  -- once the run queue has room within the rounds given: the identifier names a new running bthread in
  -- the slot, which is not stopped and is the newest task of the run queue of the worker, or of the
  -- remote queue, and one more bthread is counted. The version of the slot fits into 32 bits and is
  -- not 0, and so does the slot.
  pub start_background-starts :
      (C : TidCodec) (nosignal_flag : ℕ → Bool) (remote : Bool)
      (others : ℕ → TaskGroup W R → TaskGroup W R) (k fuel slot : ℕ) (fresh : TaskMeta)
      (fn arg now : ℕ) (attr : Option Attr) (normal : Attr) (s : Starting W R)
      → 0 < (slot_meta fresh (s.pool slot)).version_butex
      → (slot_meta fresh (s.pool slot)).version_butex < 2 ^ 32
      → slot < 2 ^ 32
      → fn ≢ 0
      → HasRoom remote others k s.group
      → k < fuel
      → (tid : ℕ) × (s' : Starting W R) × (start_background W R C nosignal_flag remote others fuel
            (some slot)
            fresh
            fn
            arg
            now
            attr
            normal
            s
          ≡ some (s', start_ok tid))
        × (C.get_slot tid ≡ slot)
        × IsRunning C tid s'.pool
        × (is_stopped C tid s'.pool ≡ false)
        × IsQueued remote tid s'.group
        × (s'.nbthreads ≡ s.nbthreads + 1)
  unfolding start_background
  start_background-starts C nosignal_flag remote others k fuel slot fresh fn arg now attr normal s
        positive fits slot_fits has_fn room lt =
      let (tid, p, began, at_slot, running, there, going) =
        start_task-IsRunning C slot fn arg now attr normal fresh s.pool positive fits slot_fits
          has_fn in
      let (g, queued, newest) =
        make_ready_progress remote others k fuel tid (nosignal_flag (attr_or normal attr).flags)
          s.group room lt in
      (
        tid,
        record { pool = p; group = g; nbthreads = s.nbthreads + 1 },
        ground (arith, began, queued),
        at_slot,
        running,
        going,
        newest,
        refl,
      )
