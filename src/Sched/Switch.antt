-- ===== src/Sched/Switch.antt =====
-- dbrpc/task_group.cpp and dbrpc/task_group_inl.h: `sched`, `ending_sched`, `sched_to`.
--
-- Tasks are the addresses of their metas. `get_stack` and `jump_stack` are outside the repository:
-- the first is a parameter, the second ends the part of `sched_to` that runs before the switch, and
-- `after_jump` is the part that runs when the caller's stack goes on, which may be in another group.
-- Times are nanoseconds. Errno, the log lines and `tls_unique_user_ptr`, which is a local copy put
-- back at the end, are left out.
use brpc_source_code_analysi.Prelude.{
  ℕ, zero, suc, ◌+◌, ◌-◌, ◌==◌, if◌then◌else◌, Bool, Option, none, some, update, same,
}
use brpc_source_code_analysi.Queues.{WorkStealingQueue}

-- The fields of `TaskMeta` that switching uses.
pub record Task : Type 0 where
  pub stack : Option ℕ
  pub stack_type : ℕ
  pub local_storage : ℕ
  pub cputime_ns : ℕ
  pub nswitch : ℕ

-- `TaskGroup::RemainedFn` with its argument.
pub data Remained : Type 0 where
  release_last_context : (task : ℕ) → Remained
  ready_to_run_in_worker : (tid : ℕ) (nosignal : Bool) → Remained
  ready_to_run_in_worker_ignoresignal : (tid : ℕ) (nosignal : Bool) → Remained
  add_sleep_event : (sleep_args : ℕ) → Remained
  wait_for_butex : (waiter : ℕ) → Remained

pub record Group : Type 0 where
  pub cur_meta : ℕ
  pub main_task : ℕ
  pub main_stack : ℕ
  pub sched_recursive_guard : ℕ
  pub last_run_ns : ℕ
  pub cumulated_cputime_ns : ℕ
  pub nswitch : ℕ
  pub last_context_remained : Option Remained

pub record State : Type 0 where
  pub tasks : ℕ → Task
  pub group : Group
  pub tls_bls : ℕ

abbrev pub set_task : ℕ → Task → State → State
set_task a t s = record s { tasks = update s.tasks a t }

abbrev pub set_stack : ℕ → Option ℕ → State → State
set_stack a x s = set_task a (record (s.tasks a) { stack = x }) s

-- The task that `sched` and `ending_sched` take: the newest of the own queue, one stolen from
-- elsewhere, or the main task. `stolen` is what `steal_task` answers.
unfoldable pub choose_next :
    (W : WorkStealingQueue) → (stolen : Option ℕ) → (main_tid : ℕ) → W.Queue → W.Queue × ℕ
choose_next W stolen main_tid rq = elim (W.pop rq) [
  | some (tid, rq') ↦ (rq', tid)
  | none ↦ elim stolen [ some tid ↦ (rq, tid) | none ↦ (rq, main_tid) ]
]

-- A stack of its own for a task, or the main stack of the group, with the type changed.
unfoldable pub new_stack : (pthread_type : ℕ) (get_stack : ℕ → Option ℕ) → ℕ → State → State
new_stack pthread_type get_stack next s = elim (get_stack (s.tasks next).stack_type) [
  | some x ↦ set_stack next (some x) s
  | none ↦
      set_task next
        (record (s.tasks next) { stack_type = pthread_type; stack = some s.group.main_stack }) s
]

-- In `sched_to(pg, next_tid)`.
unfoldable pub ensure_stack : (pthread_type : ℕ) (get_stack : ℕ → Option ℕ) → ℕ → State → State
ensure_stack pthread_type get_stack next s = elim (s.tasks next).stack [
  | some x ↦ s
  | none ↦ new_stack pthread_type get_stack next s
]

-- In `ending_sched`: the ending task hands its stack over to a task of the same type.
unfoldable pub hand_over : (pthread_type : ℕ) (get_stack : ℕ → Option ℕ) → ℕ → State → State
hand_over pthread_type get_stack next s = elim (s.tasks next).stack [
  | some x ↦ s
  | none ↦
      if (s.tasks next).stack_type == (s.tasks s.group.cur_meta).stack_type
      then set_stack next (s.tasks s.group.cur_meta).stack (set_stack s.group.cur_meta none s)
      else new_stack pthread_type get_stack next s
]

-- How the first part of `sched_to` ends: with a jump, on the same stack, after LOG(FATAL), or
-- because the next task is the current one.
pub data Switched : Type 0 where
  jumps : (from to : Option ℕ) → Switched
  same_stack fatal itself : Switched

-- The counters of `sched_to`, before the test.
unfoldable pub account : (now : ℕ) → State → State
account now s =
    let g = s.group in
    let cur = g.cur_meta in
    let elp_ns = now - g.last_run_ns in
    let t = s.tasks cur in
    record s {
      tasks =
          update s.tasks cur
            (record t { cputime_ns = t.cputime_ns + elp_ns; nswitch = t.nswitch + 1 });
      group = record g {
        sched_recursive_guard = g.sched_recursive_guard + 1;
        last_run_ns = now;
        cumulated_cputime_ns =
            if cur == g.main_task then g.cumulated_cputime_ns else g.cumulated_cputime_ns + elp_ns;
        nswitch = g.nswitch + 1;
      };
    }

-- `cur_meta->local_storage = tls_bls; tls_bls = next_meta->local_storage;` and the new `_cur_meta`.
unfoldable pub exchange_storage : ℕ → State → State
exchange_storage next s =
    let cur = s.group.cur_meta in
    let saved = set_task cur (record (s.tasks cur) { local_storage = s.tls_bls }) s in
    record saved {
      group = record s.group { cur_meta = next };
      tls_bls = (saved.tasks next).local_storage;
    }

unfoldable pub sched_to : (now : ℕ) → ℕ → State → State × Switched
sched_to now next s =
    let cur = s.group.cur_meta in
    let counted = account now s in
    if next == cur
    then (counted, itself)
    else (let s' = exchange_storage next counted in
        (
          s',
          elim (s'.tasks cur).stack [
            | none ↦ fatal
            | some x ↦
                if same (s'.tasks next).stack (some x)
                then same_stack
                else jumps (some x) (s'.tasks next).stack
          ],
        ))

-- The rest of `sched_to` after the switch, in the group that the task runs in then: the remained
-- functions, each of which may leave another, and the guard. `run` is a call of a function.
unfoldable pub run_remained : (run : Remained → State → State) → ℕ → State → Option State
run_remained run zero s = elim s.group.last_context_remained [ none ↦ some s | some fn ↦ none ]
run_remained run (suc fuel) s = elim s.group.last_context_remained [
  | none ↦ some s
  | some fn ↦
      run_remained run fuel
        (run fn (record s { group = record (s.group) { last_context_remained = none } }))
]

unfoldable pub after_jump : (run : Remained → State → State) → ℕ → State → Option State
after_jump run fuel s = elim (run_remained run fuel s) [
  | none ↦ none
  | some s' ↦ some (record s' {
    group = record (s'.group) { sched_recursive_guard = s'.group.sched_recursive_guard - 1 };
  })
]

unfoldable pub sched_to_tid :
    (pthread_type : ℕ) (get_stack : ℕ → Option ℕ) (now : ℕ) → ℕ → State → State × Switched
sched_to_tid pthread_type get_stack now next s =
    sched_to now next (ensure_stack pthread_type get_stack next s)

unfoldable pub ending_sched :
    (pthread_type : ℕ) (get_stack : ℕ → Option ℕ) (now : ℕ) → ℕ → State → State × Switched
ending_sched pthread_type get_stack now next s =
    sched_to now next (hand_over pthread_type get_stack next s)
