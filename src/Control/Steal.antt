-- ===== src/Control/Steal.antt =====
-- dbrpc/task_control.cpp: `TaskControl::steal_task`.
-- The scan takes no lock. The model is one step, for a table and queues that stay as they are while it
-- runs; what other threads do before and after it is an argument of the callers.
use brpc_source_code_analysi.Prelude.{
  ℕ, zero, suc, ◌+◌, ◌%◌, ◌^◌, ◌==◌, if◌then◌else◌, Option, none, some, update,
}
use brpc_source_code_analysi.Queues.{WorkStealingQueue, RemoteTaskQueue}
use brpc_source_code_analysi.Control.Groups.{Groups}

-- size_t arithmetic.
abbrev pub u64 : ℕ → ℕ
u64 n = n % 2 ^ 64

module _ (W : WorkStealingQueue) (R : RemoteTaskQueue) where
  -- The two run queues of each group.
  pub record RunQueues : Type 0 where
    pub rq : ℕ → W.Queue
    pub remote_rq : ℕ → R.Queue

  -- What `steal_task` leaves: the task it found, the new seed and the queues.
  pub record Stolen : Type 0 where
    pub task : Option ℕ
    pub seed : ℕ
    pub queues : RunQueues

  -- A look at one group: its own queue first, then its remote queue.
  unfoldable pub try_group : ℕ → RunQueues → Option (ℕ × RunQueues)
  try_group g qs = elim (W.steal (qs.rq g)) [
    | some (t, q) ↦ some (t, record qs { rq = update qs.rq g q })
    | none ↦ elim (R.pop (qs.remote_rq g)) [
      | some (t, q) ↦ some (t, record qs { remote_rq = update qs.remote_rq g q })
      | none ↦ none
    ]
  ]

  abbrev pub try_slot : Option ℕ → RunQueues → Option (ℕ × RunQueues)
  try_slot none qs = none
  try_slot (some g) qs = try_group g qs

  -- The loop: `left` rounds remain, `s` is the running seed.
  unfoldable pub steal_loop : ℕ → ℕ → ℕ → Groups → RunQueues → Stolen
  steal_loop zero offset s t qs = record { task = none; seed = s; queues = qs }
  steal_loop (suc left) offset s t qs =
      let next = steal_loop left offset (u64 (s + offset)) t qs in
      elim (try_slot (t.groups (s % t.ngroup)) qs) [
        | some (tid, qs') ↦ record { task = some tid; seed = s; queues = qs' }
        | none ↦ next
      ]

  unfoldable pub steal_task : ℕ → ℕ → Groups → RunQueues → Stolen
  steal_task seed offset t qs =
      if t.ngroup == 0
      then record { task = none; seed = seed; queues = qs }
      else steal_loop t.ngroup offset seed t qs
