-- ===== src/Control/Workers.antt =====
-- dbrpc/task_control.cpp: `init` and `add_workers`.
--
-- `pthread_create` is a parameter: `creates i` says whether the call for `_workers[i]` succeeds.
use brpc_source_code_analysi.Prelude.{
  ℕ, zero, suc, ◌+◌, ◌-◌, ◌==◌, not, if◌then◌else◌, Bool, true, false,
}

-- `_concurrency` and the size of `_workers`.
pub record Workers : Type 0 where
  pub concurrency : ℕ
  pub num_workers : ℕ

-- The loop of `add_workers`: `left` rounds remain. `_concurrency` is raised before each worker is
-- created, and lowered again when the creation fails, which ends the loop.
unfoldable pub add_loop : (creates : ℕ → Bool) → ℕ → ℕ → Workers → Workers
add_loop creates zero i w = w
add_loop creates (suc left) i w =
    let raised = record w { concurrency = w.concurrency + 1 } in
    let more = add_loop creates left (suc i) raised in
    if creates i then more else record raised { concurrency = raised.concurrency - 1 }

-- `resizes` says whether the first `resize` returns; the answer is the number of workers added.
unfoldable pub add_workers : (creates : ℕ → Bool) → (resizes : Bool) → ℕ → Workers → Workers × ℕ
add_workers creates resizes num w =
    if num == 0
    then (w, 0)
    else if resizes
    then (let grown = record w { num_workers = w.concurrency + num } in
        let after = add_loop creates num w.concurrency grown in
        (record after { num_workers = after.concurrency }, after.concurrency - w.concurrency))
    else (w, 0)

pub data InitResult : Type 0 where
  initialised failed : InitResult

-- The loop of `init` over `_workers`.
unfoldable pub create_loop : (creates : ℕ → Bool) → ℕ → ℕ → Bool
create_loop creates zero i = true
create_loop creates (suc left) i =
    let more = create_loop creates left (suc i) in if creates i then more else false

-- `timer_ready` says whether `get_or_create_global_timer_thread` succeeds; `concurrency` is an int,
-- and a negative one counts as 0 here, which is refused like it. The wait for the first group is
-- not modelled.
unfoldable pub init :
    (creates : ℕ → Bool) → (timer_ready : Bool) → ℕ → Workers → Workers × InitResult
init creates timer_ready concurrency w =
    if not (w.concurrency == 0)
    then (w, failed)
    else if concurrency == 0
    then (w, failed)
    else (let started = record w { concurrency = concurrency } in
        if not timer_ready then (started, failed) else (
          record started { num_workers = concurrency },
          if create_loop creates concurrency 0 then initialised else failed,
        ))
