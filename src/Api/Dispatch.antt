-- ===== src/Api/Dispatch.antt =====
-- dbrpc/bthread.cpp: which group a call of the C interface goes to.
--
-- Groups are numbers. `choose_one_group` of the control answers `chosen`; `has_control` says whether
-- `get_or_new_task_control` gave a control. The functions of the groups are calls that leave this
-- file.
use brpc_source_code_analysi.Prelude.{
  ℕ, ◌==◌, if◌then◌else◌, not, Bool, true, false, Option, none, some, List, [], ◌∷◌,
}
use brpc_source_code_analysi.Butex.State.{Unscheduled, removed, running, missing}
use brpc_source_code_analysi.Task.Meta.{TidCodec, Pool, set_stopped}
use brpc_source_code_analysi.Task.Interrupt.{Call, InterruptResult, interrupt}

-- The two thread-local groups of the caller.
pub record Thread : Type 0 where
  pub tls_task_group : Option ℕ
  pub tls_task_group_nosignal : Option ℕ

pub data GroupCall : Type 0 where
  start_foreground : (group : ℕ) → GroupCall
  start_background : (group : ℕ) → GroupCall
  start_background_remote : (group : ℕ) (nosignal : Bool) → GroupCall
  flush_nosignal_tasks : (group : ℕ) → GroupCall
  flush_nosignal_tasks_remote : (group : ℕ) → GroupCall

-- `nosignal` is the flag of the attributes given; no attributes count as without it. No call stands
-- for ENOMEM.
unfoldable pub start_from_non_worker :
    (has_control : Bool) (chosen : ℕ) (nosignal : Bool) → Thread → Thread × List GroupCall
start_from_non_worker has_control chosen nosignal t =
    if not has_control
    then (t, [])
    else if nosignal
    then elim t.tls_task_group_nosignal [
      | none ↦ (
        record t { tls_task_group_nosignal = some chosen },
        start_background_remote chosen true ∷ [],
      )
      | some g ↦ (t, start_background_remote g true ∷ [])
    ]
    else (t, start_background_remote chosen false ∷ [])

unfoldable pub bthread_start_urgent :
    (has_control : Bool) (chosen : ℕ) (nosignal : Bool) → Thread → Thread × List GroupCall
bthread_start_urgent has_control chosen nosignal t = elim t.tls_task_group [
  | some g ↦ (t, start_foreground g ∷ [])
  | none ↦ start_from_non_worker has_control chosen nosignal t
]

unfoldable pub bthread_start_background :
    (has_control : Bool) (chosen : ℕ) (nosignal : Bool) → Thread → Thread × List GroupCall
bthread_start_background has_control chosen nosignal t = elim t.tls_task_group [
  | some g ↦ (t, start_background g ∷ [])
  | none ↦ start_from_non_worker has_control chosen nosignal t
]

unfoldable pub bthread_flush : Thread → Thread × List GroupCall
bthread_flush t = elim t.tls_task_group [
  | some g ↦ (t, flush_nosignal_tasks g ∷ [])
  | none ↦ elim t.tls_task_group_nosignal [
    | some g ↦ (record t { tls_task_group_nosignal = none }, flush_nosignal_tasks_remote g ∷ [])
    | none ↦ (t, [])
  ]
]

-- `bthread_stop` on the pool of bthreads, from a thread with or without a group and a control.
unfoldable pub bthread_stop :
    (C : TidCodec) (timer_unschedule : ℕ → Unscheduled) (has_group has_control : Bool)
    → ℕ
    → Pool
    → Pool × List Call × InterruptResult
bthread_stop C timer_unschedule has_group has_control tid p =
    interrupt C timer_unschedule has_group has_control tid (set_stopped C tid p)

-- The task that runs in the caller's group, if it has one: its identifier, and that of the main
-- task. INVALID_BTHREAD is 0.
unfoldable pub bthread_self : Option (ℕ × ℕ) → ℕ
bthread_self none = 0
bthread_self (some (current_tid, main_tid)) = if current_tid == main_tid then 0 else current_tid

pub data TimerDel : Type 0 where
  deleted is_running timer_einval : TimerDel

unfoldable pub bthread_timer_del : (has_control : Bool) → Option (ℕ → Unscheduled) → ℕ → TimerDel
bthread_timer_del has_control timer_thread id =
    if has_control
    then elim timer_thread [
      | none ↦ timer_einval
      | some timer_unschedule ↦ elim (timer_unschedule id) [
        | removed ↦ deleted
        | running ↦ is_running
        | missing ↦ timer_einval
      ]
    ]
    else timer_einval
