-- ===== src/Butex/State.antt =====
-- dbrpc/butex.cpp: the waiters, the butexes that queue them, and what waking asks of the
-- scheduler, the timer thread and the kernel.
--
-- Addresses are numbers. `waiters b` is the linked list of butex `b`, head first; unlinking a node
-- takes it out of the list that it stands in. The fields of a waiter that never change after it is
-- set up are in `Waiter`; each of the others is a function of the waiter's address. `calls` records
-- the calls that leave this file, newest first.
use brpc_source_code_analysi.Prelude.{
  ℕ, ◌==◌, if◌then◌else◌, update, same, Bool, true, false, Option, none, some, List, [], ◌∷◌, ◌≡◌,
  count,
}

pub data WaiterState : Type 0 where
  waiter_none ready timeout unmatched_value interrupted : WaiterState

pub data ButexPthreadSignal : Type 0 where
  not_signalled signalled : ButexPthreadSignal

-- `tid` is 0 for a pthread; the other fields belong to `ButexBthreadWaiter`.
pub record Waiter : Type 0 where
  pub tid : ℕ
  pub task_meta : ℕ
  pub expected_value : ℕ
  pub initial_butex : ℕ

pub data Call : Type 0 where
  futex_wake : (waiter : ℕ) → Call
  unschedule : (sleep_id : ℕ) → Call
  exchange : (group tid : ℕ) → Call
  ready_to_run : (group tid : ℕ) → Call
  ready_to_run_remote : (group tid : ℕ) → Call
  ready_to_run_general : (group tid : ℕ) → (nosignal : Bool) → Call
  flush_nosignal_tasks_general : (group : ℕ) → Call

pub record Mem : Type 0 where
  pub value : ℕ → ℕ
  pub waiters : ℕ → List ℕ
  pub waiter : ℕ → Waiter
  pub container : ℕ → Option ℕ
  pub sleep_id : ℕ → ℕ
  pub waiter_state : ℕ → WaiterState
  pub sig : ℕ → ButexPthreadSignal
  pub task_interrupted : ℕ → Bool
  pub current_waiter : ℕ → Option ℕ
  pub calls : List Call

-- What `TimerThread::unschedule` answers: 0, 1 and -1.
pub data Unscheduled : Type 0 where
  removed running missing : Unscheduled

-- The calling thread: its `tls_task_group`, the group that `choose_one_group` picks for it, and
-- the timer thread's answers.
pub record Env : Type 0 where
  pub tls_task_group : Option ℕ
  pub choose_one_group : ℕ
  pub timer_unschedule : ℕ → Unscheduled

abbrev pub emit : Call → Mem → Mem
emit c m = record m { calls = c ∷ m.calls }

abbrev pub set_waiters : ℕ → List ℕ → Mem → Mem
set_waiters b ws m = record m { waiters = update m.waiters b ws }

abbrev pub set_container : ℕ → Option ℕ → Mem → Mem
set_container w c m = record m { container = update m.container w c }

abbrev pub set_sleep_id : ℕ → ℕ → Mem → Mem
set_sleep_id w id m = record m { sleep_id = update m.sleep_id w id }

abbrev pub set_waiter_state : ℕ → WaiterState → Mem → Mem
set_waiter_state w s m = record m { waiter_state = update m.waiter_state w s }

abbrev pub set_sig : ℕ → ButexPthreadSignal → Mem → Mem
set_sig w s m = record m { sig = update m.sig w s }

abbrev pub set_current_waiter : ℕ → Option ℕ → Mem → Mem
set_current_waiter task w m = record m { current_waiter = update m.current_waiter task w }

abbrev pub set_interrupted : ℕ → Bool → Mem → Mem
set_interrupted task flag m = record m { task_interrupted = update m.task_interrupted task flag }

abbrev pub tid_of : Mem → ℕ → ℕ
tid_of m w = (m.waiter w).tid

abbrev pub is_pthread : Mem → ℕ → Bool
is_pthread m w = tid_of m w == 0

unfoldable pub wakeup_pthread : ℕ → Mem → Mem
wakeup_pthread pw m = emit (futex_wake pw) (set_sig pw signalled m)

-- The answer is 0 for `true` and -1 for `false`.
unfoldable pub unsleep_if_necessary : Env → ℕ → Mem → Mem × Bool
unsleep_if_necessary env w m =
    if m.sleep_id w == 0 then (m, true) else elim (env.timer_unschedule (m.sleep_id w)) [
      | running ↦ (emit (unschedule (m.sleep_id w)) m, false)
      | _ ↦ (set_sleep_id w 0 (emit (unschedule (m.sleep_id w)) m), true)
    ]

unfoldable pub get_task_group : Env → ℕ
get_task_group env = elim env.tls_task_group [ some g ↦ g | none ↦ env.choose_one_group ]

-- Each waiter stands in the list of its container once, and in no other list.
abbrev pub IsLinked : Mem → Type 0
IsLinked m = (b w : ℕ) → count w (m.waiters b) ≡ (if same (m.container w) (some b) then 1 else 0)

-- The bthreads that the calls made runnable, and the pthreads that they woke, newest first.
abbrev pub resumed : List Call → List ℕ
resumed [] = []
resumed (exchange g t ∷ cs) = t ∷ resumed cs
resumed (ready_to_run g t ∷ cs) = t ∷ resumed cs
resumed (ready_to_run_remote g t ∷ cs) = t ∷ resumed cs
resumed (ready_to_run_general g t nosignal ∷ cs) = t ∷ resumed cs
resumed (futex_wake w ∷ cs) = resumed cs
resumed (unschedule id ∷ cs) = resumed cs
resumed (flush_nosignal_tasks_general g ∷ cs) = resumed cs

abbrev pub signalled_pthreads : List Call → List ℕ
signalled_pthreads [] = []
signalled_pthreads (futex_wake w ∷ cs) = w ∷ signalled_pthreads cs
signalled_pthreads (exchange g t ∷ cs) = signalled_pthreads cs
signalled_pthreads (ready_to_run g t ∷ cs) = signalled_pthreads cs
signalled_pthreads (ready_to_run_remote g t ∷ cs) = signalled_pthreads cs
signalled_pthreads (ready_to_run_general g t nosignal ∷ cs) = signalled_pthreads cs
signalled_pthreads (unschedule id ∷ cs) = signalled_pthreads cs
signalled_pthreads (flush_nosignal_tasks_general g ∷ cs) = signalled_pthreads cs
