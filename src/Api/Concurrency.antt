-- ===== src/Api/Concurrency.antt =====
-- dbrpc/bthread.cpp: the flags on the number of workers and the one `TaskControl` of the process.
--
-- An `int` below 0 is taken as 0: the flags and arguments are only compared with each other, with 0
-- and with BTHREAD_MIN_CONCURRENCY, which is above 0. The two bounds come from a file outside the
-- repository and are parameters. `creates`, `resizes` and `timer_ready` are those of `TaskControl`.
use brpc_source_code_analysi.Prelude.{
  ℕ, ◌+◌, ◌-◌, ◌==◌, ◌||◌, ltb, not, if◌then◌else◌, Bool, true, false, Option, none, some,
}
use brpc_source_code_analysi.Control.Workers.{Workers, add_workers, initialised, failed, init}

pub record Process : Type 0 where
  pub bthread_concurrency : ℕ
  pub bthread_min_concurrency : ℕ
  pub never_set_bthread_concurrency : Bool
  pub task_control : Option Workers

pub data Code : Type 0 where
  ok einval eperm : Code

-- A new `TaskControl` has no workers.
abbrev pub new_control : Workers
new_control = record { concurrency = 0; num_workers = 0 }

-- Under `g_task_control_mutex`. `allocated` says whether `new` returned memory. The answers: what the
-- caller gets, and the control that was deleted because its `init` failed.
unfoldable pub make_task_control :
    (creates : ℕ → Bool)
    → (timer_ready allocated : Bool) → Process
    → Process × Option Workers × Option Workers
make_task_control creates timer_ready allocated s = elim s.task_control [
  | some c ↦ (s, some c, none)
  | none ↦
      if not allocated
      then (s, none, none)
      else (let concurrency =
            if ltb 0 s.bthread_min_concurrency
            then s.bthread_min_concurrency
            else s.bthread_concurrency in
          let (c, result) = init creates timer_ready concurrency new_control in
          elim result [
            | failed ↦ (s, none, some c)
            | initialised ↦ (record s { task_control = some c }, some c, none)
          ])
]

-- `meanwhile` is what the other threads do before the mutex is taken.
unfoldable pub get_or_new_task_control :
    (creates : ℕ → Bool)
    → (timer_ready allocated : Bool) → (meanwhile : Process → Process) → Process
    → Process × Option Workers × Option Workers
get_or_new_task_control creates timer_ready allocated meanwhile s = elim s.task_control [
  | some c ↦ (s, some c, none)
  | none ↦ make_task_control creates timer_ready allocated (meanwhile s)
]

-- What `validate_bthread_min_concurrency` does with a control.
unfoldable pub grow_to :
    (creates : ℕ → Bool) → (resizes : Bool) → ℕ → Workers → Process → Process × Bool
grow_to creates resizes val c s =
    if ltb c.concurrency val
    then (let (c', added) = add_workers creates resizes (val - c.concurrency) c in
        (record s { task_control = some c' }, added == val - c.concurrency))
    else (s, true)

unfoldable pub validate_bthread_min_concurrency :
    (min : ℕ) (creates : ℕ → Bool) (resizes : Bool) → ℕ → Process → Process × Bool
validate_bthread_min_concurrency min creates resizes val s =
    if val == 0
    then (s, true)
    else if ltb val min || ltb s.bthread_concurrency val
    then (s, false)
    else elim s.task_control [ none ↦ (s, true) | some c ↦ grow_to creates resizes val c s ]

-- The flag is corrected when it differs from the number of workers.
unfoldable pub sync_flag : Workers → Process → Process
sync_flag c s =
    if s.bthread_concurrency == c.concurrency
    then s
    else record s { bthread_concurrency = c.concurrency }

unfoldable pub resize_synced :
    (creates : ℕ → Bool) → (resizes : Bool) → ℕ → Workers → Process → Process × Code
resize_synced creates resizes num c s =
    if ltb s.bthread_concurrency num
    then (let (c', added) = add_workers creates resizes (num - s.bthread_concurrency) c in
        (
          record s { bthread_concurrency = s.bthread_concurrency + added; task_control = some c' },
          ok,
        ))
    else (s, if num == s.bthread_concurrency then ok else eperm)

-- The part of `bthread_setconcurrency` that holds `g_task_control_mutex` and has a control.
unfoldable pub resize_locked :
    (creates : ℕ → Bool) → (resizes : Bool) → ℕ → Workers → Process → Process × Code
resize_locked creates resizes num c s = resize_synced creates resizes num c (sync_flag c s)

-- Under the mutex, without a control: the flag is set the first time, and only raised later.
unfoldable pub set_flag : ℕ → Process → Process
set_flag num s =
    if s.never_set_bthread_concurrency
    then record s { never_set_bthread_concurrency = false; bthread_concurrency = num }
    else if ltb s.bthread_concurrency num
    then record s { bthread_concurrency = num }
    else s

unfoldable pub set_locked : (creates : ℕ → Bool) → (resizes : Bool) → ℕ → Process → Process × Code
set_locked creates resizes num s = elim s.task_control [
  | none ↦ (set_flag num s, ok)
  | some c ↦ resize_locked creates resizes num c s
]

-- `meanwhile` is what the other threads do before the mutex is taken.
unfoldable pub bthread_setconcurrency :
    (min max : ℕ) (creates : ℕ → Bool) (resizes : Bool) (meanwhile : Process → Process)
    → ℕ
    → Process
    → Process × Code
bthread_setconcurrency min max creates resizes meanwhile num s =
    if ltb num min || ltb max num
    then (s, einval)
    else if ltb 0 s.bthread_min_concurrency
    then (if ltb num s.bthread_min_concurrency
        then (s, einval)
        else (record s { never_set_bthread_concurrency = false; bthread_concurrency = num }, ok))
    else elim s.task_control [
      | none ↦ set_locked creates resizes num (meanwhile s)
      | some c ↦
          if ltb num c.concurrency
          then (s, eperm)
          else if num == c.concurrency
          then (s, ok)
          else set_locked creates resizes num (meanwhile s)
    ]
