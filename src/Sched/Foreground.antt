-- ===== src/Sched/Foreground.antt =====
-- dbrpc/task_group.cpp: `start_foreground`, which runs the new bthread at once and queues its caller.
--
-- `start_task` is what both ways to start a bthread do with the pool. The stack, the storage and the
-- statistics of the new task are those of `begin_task`; LOCAL_STORAGE_INIT and `nosignal_flag`, the
-- test of a number of flags for BTHREAD_NOSIGNAL, come from outside the repository.
use mathlib.Core.Path.{subst}
use brpc_source_code_analysi.Prelude.{
  ℕ, sym, ◌∙◌, ◌≡◌, ◌≢◌, ◌+◌, ◌<◌, ◌^◌, Bool, true, false, Option, none, some, arith,
}
use brpc_source_code_analysi.Task.Meta.{TaskMeta, Attr, TidCodec, Pool, is_stopped}
use brpc_source_code_analysi.Task.Life.{started, failed, StartError, start_task, slot_meta, attr_or}
use brpc_source_code_analysi.Task.Identity.{IsRunning, start_task-IsRunning}
use brpc_source_code_analysi.Sched.Switch.{
  Remained, State, set_task, account, exchange_storage, new_stack, ensure_stack, sched_to,
  sched_to_tid,
}
use brpc_source_code_analysi.Sched.Leave.{
  Left, made_ready, switched, set_remained, leave_for, requeue, run_foreground, KeepsBoth,
  exchange-KeepsBoth,
}

-- The pool, the worker and the number of bthreads.
pub record Worker : Type 0 where
  pub pool : Pool
  pub sched : State
  pub nbthreads : ℕ

-- An errno; or 0 with the identifier, the pool, the number, and how the caller left its worker.
pub data ForegroundResult : Type 0 where
  not_started : StartError → ForegroundResult
  runs_now : (tid : ℕ) (pool : Pool) (nbthreads : ℕ) → Left → ForegroundResult

-- The rest of `TaskMeta`; the stack is NULL already, which the code checks.
unfoldable pub begin_task : (local_storage_init slot : ℕ) → Attr → State → State
begin_task local_storage_init slot using_attr s =
    set_task slot
      (record (s.tasks slot) {
        stack_type = using_attr.stack_type;
        local_storage = local_storage_init;
        cputime_ns = 0;
        nswitch = 0;
      })
      s

abbrev pub is_about_to_quit : Option TaskMeta → Bool
is_about_to_quit none = false
is_about_to_quit (some m) = m.about_to_quit

module _ (C : TidCodec) (nosignal_flag : ℕ → Bool) (local_storage_init pthread_type : ℕ)
    (get_stack : ℕ → Option ℕ) (now : ℕ) where
  -- `current_tid` is the identifier of the caller, whose meta is that of its slot in the pool before.
  unfoldable pub start_foreground :
      (is_pthread : Bool) (current_tid : ℕ) (get_resource : Option ℕ) (fresh : TaskMeta)
      (fn arg start_ns : ℕ)
      → Option Attr
      → (normal : Attr) → Worker
      → ForegroundResult
  start_foreground is_pthread current_tid get_resource fresh fn arg start_ns attr normal w =
      elim (start_task C get_resource fresh fn arg start_ns attr normal w.pool) [
        | failed e ↦ not_started e
        | started tid pool ↦ runs_now tid pool (w.nbthreads + 1) (
            run_foreground pthread_type get_stack now C.get_slot is_pthread
              (is_about_to_quit (pool (C.get_slot current_tid)))
              (nosignal_flag (attr_or normal attr).flags) current_tid tid
              (begin_task local_storage_init (C.get_slot tid) (attr_or normal attr) w.sched))
      ]

  -- After a switch the worker has the storage.
  abbrev pub HasStorage : ℕ → Left → Type 0
  HasStorage storage (made_ready tid nosignal s) = Unit {0}
  HasStorage storage (switched s how) = s.tls_bls ≡ storage

  leave_for-HasStorage :
      (fn : Remained) (next_tid : ℕ) (s : State)
      → C.get_slot next_tid ≢ s.group.cur_meta
      → HasStorage
          (s.tasks (C.get_slot next_tid)).local_storage
          (leave_for pthread_type get_stack now C.get_slot fn next_tid s)
  unfolding leave_for set_remained sched_to_tid ensure_stack new_stack sched_to account
      exchange_storage
  leave_for-HasStorage fn next_tid s other = ground (arith, other)

  run_foreground-HasStorage :
      (is_pthread about_to_quit nosignal : Bool) (current_tid new_tid : ℕ) (s : State)
      → C.get_slot new_tid ≢ s.group.cur_meta
      → HasStorage (s.tasks (C.get_slot new_tid)).local_storage (
          run_foreground pthread_type get_stack now C.get_slot is_pthread about_to_quit nosignal
            current_tid new_tid s)
  unfolding run_foreground
  run_foreground-HasStorage true about_to_quit nosignal current_tid new_tid s other = tt
  run_foreground-HasStorage false about_to_quit nosignal current_tid new_tid s other =
      leave_for-HasStorage
        (requeue pthread_type get_stack now C.get_slot about_to_quit current_tid nosignal) new_tid s
        other

  -- What `start_foreground` gives back for a slot that is not the one of the running task.
  pub data Foreground (is_pthread : Bool) (current_tid slot : ℕ) (attr : Attr) (w : Worker)
      : ForegroundResult → Type 0 where
    foreground :
        (tid : ℕ) (pool : Pool) (left : Left)
        → C.get_slot tid ≡ slot
        → IsRunning C tid pool
        → is_stopped C tid pool ≡ false
        → KeepsBoth pthread_type get_stack now C.get_slot is_pthread current_tid tid
            (begin_task local_storage_init slot attr w.sched)
            left
        → HasStorage local_storage_init left
        → Foreground is_pthread current_tid slot attr w (runs_now tid pool (w.nbthreads + 1) left)

  -- `start_foreground` with a function and a slot that is not that of the running task: the identifier
  -- names a new running bthread in the slot, which is not stopped, and one more is counted. From a
  -- bthread, the new one is the current task with the initial storage, and the function that remains
  -- puts the caller into a run queue; from a pthread task the new one is made ready and nothing else
  -- changes. The version of the slot fits into 32 bits and is not 0, and so does the slot.
  pub start_foreground-starts :
      (is_pthread : Bool) (current_tid slot : ℕ) (fresh : TaskMeta) (fn arg start_ns : ℕ)
      (attr : Option Attr) (normal : Attr) (w : Worker)
      → 0 < (slot_meta fresh (w.pool slot)).version_butex
      → (slot_meta fresh (w.pool slot)).version_butex < 2 ^ 32
      → slot < 2 ^ 32
      → fn ≢ 0
      → slot ≢ w.sched.group.cur_meta
      → Foreground is_pthread current_tid slot
          (attr_or normal attr)
          w
          (start_foreground is_pthread current_tid (some slot) fresh fn arg start_ns attr normal w)
  unfolding start_foreground begin_task
  start_foreground-starts is_pthread current_tid slot fresh fn arg start_ns attr normal w positive
        fits slot_fits has_fn other =
      let (tid, pool, began, at_slot, running, there, going) =
        start_task-IsRunning C slot fn arg start_ns attr normal fresh w.pool positive fits slot_fits
          has_fn in
      let quits = is_about_to_quit (pool (C.get_slot current_tid)) in
      let nosignal = nosignal_flag (attr_or normal attr).flags in
      let s = begin_task local_storage_init (C.get_slot tid) (attr_or normal attr) w.sched in
      let left =
        run_foreground pthread_type get_stack now C.get_slot is_pthread quits nosignal current_tid
          tid s in
      let keeps =
        (exchange-KeepsBoth pthread_type get_stack now C.get_slot is_pthread quits nosignal
          current_tid tid 0 s).1 in
      let storage : HasStorage local_storage_init left =
        subst (λ (x : ℕ). HasStorage x left) (ground arith)
          (run_foreground-HasStorage is_pthread quits nosignal current_tid tid s
            (λ e. other (sym at_slot ∙ e))) in
      rw (began, start_foreground)
        (foreground tid pool left at_slot running going
          (subst
            (λ (x : ℕ).
              KeepsBoth pthread_type get_stack now C.get_slot is_pthread current_tid tid
                (begin_task local_storage_init x (attr_or normal attr) w.sched) left)
            at_slot keeps)
          storage)
