-- ===== src/Task/Interrupt.antt =====
-- dbrpc/task_group.cpp: `interrupt` and the end of `usleep`, `_add_sleep_event`.
--
-- The timer thread is outside the repository: `timer_unschedule` gives its answers, and a task
-- id 0 means that it could not schedule.
use brpc_source_code_analysi.Prelude.{
  ℕ, ◌==◌, ◌&&◌, not, if◌then◌else◌, Bool, true, false, Option, none, some, List, [], ◌∷◌,
}
use brpc_source_code_analysi.Butex.State.{Unscheduled, removed}
use brpc_source_code_analysi.Task.Meta.{
  TaskMeta, TidCodec, Pool, set_meta, address_meta, is_current,
}

-- Calls that leave these functions, newest first.
pub data Call : Type 0 where
  erase_from_butex : (waiter : ℕ) → Call
  ready_to_run : (tid : ℕ) → Call
  ready_to_run_remote : (tid : ℕ) → Call
  unschedule : (sleep_id : ℕ) → Call

pub data InterruptResult : Type 0 where
  done einval : InterruptResult

pub data SleepResult : Type 0 where
  slept : SleepResult
  sleep_estop sleep_eintr : SleepResult

-- The end of `usleep`, when the bthread runs again.
unfoldable pub after_sleep : TaskMeta → TaskMeta × SleepResult
after_sleep m =
    if m.interrupted
    then (
      record m { current_sleep = 0; interrupted = false },
      if m.stop then sleep_estop else sleep_eintr,
    )
    else (record m { current_sleep = 0 }, slept)

module _ (C : TidCodec) where
  open C use {get_slot}

  -- The waiter and the sleep taken from the bthread; `none` stands for EINVAL.
  unfoldable pub interrupt_and_consume_waiters : ℕ → Pool → Option (Option ℕ × ℕ × Pool)
  interrupt_and_consume_waiters tid p = elim (address_meta C p tid) [
    | none ↦ none
    | some m ↦
        if is_current C m tid
        then some (
          m.current_waiter,
          m.current_sleep,
          set_meta (get_slot tid)
              (record m { current_waiter = none; current_sleep = 0; interrupted = true }) p,
        )
        else none
  ]

  unfoldable pub set_butex_waiter : ℕ → ℕ → Pool → Option Pool
  set_butex_waiter tid w p = elim (address_meta C p tid) [
    | none ↦ none
    | some m ↦
        if is_current C m tid
        then some (set_meta (get_slot tid) (record m { current_waiter = some w }) p)
        else none
  ]

  -- After the waiter and the sleep were taken. `has_group` and `has_control` say whether the caller
  -- has a `tls_task_group`, and whether a control was given.
  unfoldable pub wake_interrupted :
      (ℕ → Unscheduled)
      → (has_group has_control : Bool) → ℕ
      → Option ℕ
      → ℕ
      → Pool
      → Pool × List Call × InterruptResult
  wake_interrupted timer_unschedule has_group has_control tid (some w) sleep_id p =
      elim (set_butex_waiter tid w p) [
        | none ↦ (p, erase_from_butex w ∷ [], einval)
        | some p' ↦ (p', erase_from_butex w ∷ [], done)
      ]
  wake_interrupted timer_unschedule has_group has_control tid none sleep_id p =
      if sleep_id == 0 then (p, [], done) else elim (timer_unschedule sleep_id) [
        | removed ↦
            if has_group
            then (p, ready_to_run tid ∷ unschedule sleep_id ∷ [], done)
            else if has_control
            then (p, ready_to_run_remote tid ∷ unschedule sleep_id ∷ [], done)
            else (p, unschedule sleep_id ∷ [], einval)
        | _ ↦ (p, unschedule sleep_id ∷ [], done)
      ]

  unfoldable pub interrupt :
      (ℕ → Unscheduled)
      → (has_group has_control : Bool) → ℕ
      → Pool
      → Pool × List Call × InterruptResult
  interrupt timer_unschedule has_group has_control tid p =
      elim (interrupt_and_consume_waiters tid p) [
        | none ↦ (p, [], einval)
        | some (w, sleep_id, p') ↦
            wake_interrupted timer_unschedule has_group has_control tid w sleep_id p'
      ]

  -- `schedule` answers `sleep_id`.
  unfoldable pub add_sleep_event : (ℕ → Unscheduled) → (sleep_id : ℕ) → ℕ → Pool → Pool × List Call
  add_sleep_event timer_unschedule sleep_id tid p =
      if sleep_id == 0 then (p, ready_to_run tid ∷ []) else elim (address_meta C p tid) [
        | none ↦ (p, [])
        | some m ↦
            if is_current C m tid && not m.interrupted
            then (set_meta (get_slot tid) (record m { current_sleep = sleep_id }) p, [])
            else elim (timer_unschedule sleep_id) [
              | removed ↦ (p, ready_to_run tid ∷ unschedule sleep_id ∷ [])
              | _ ↦ (p, unschedule sleep_id ∷ [])
            ]
      ]
