-- ===== src/Control/Signal.antt =====
-- dbrpc/task_control.cpp: `signal_task`.
--
-- The parking lots and `fmix64` are defined outside the repository: `woken i` is what `signal(1)` of
-- lot `i` answers, and the first lot is an argument.
use brpc_source_code_analysi.Prelude.{
  ℕ, zero, suc, ◌+◌, ◌-◌, ◌&&◌, ◌==◌, if◌then◌else◌, ltb, leb, Bool, false, List, [], ◌∷◌,
}

abbrev pub parking_lot_num : ℕ
parking_lot_num = 4

-- The lots that were signalled, in order, and the number of tasks that are still to be announced.
pub record Signalled : Type 0 where
  pub lots : List ℕ
  pub num_task : ℕ

abbrev pub next_lot : ℕ → ℕ
next_lot i = if leb parking_lot_num (i + 1) then 0 else i + 1

-- The loop over the other lots: `left` rounds remain.
unfoldable pub signal_rest : (woken : ℕ → ℕ) → ℕ → ℕ → ℕ → Signalled
signal_rest woken zero start num_task = record { lots = []; num_task = num_task }
signal_rest woken (suc left) start num_task =
    let i = next_lot start in
    let rest = signal_rest woken left i (num_task - woken i) in
    if ltb 0 num_task
    then record { lots = i ∷ rest.lots; num_task = rest.num_task }
    else record { lots = []; num_task = num_task }

unfoldable pub signal_lots : (woken : ℕ → ℕ) → ℕ → ℕ → Signalled
signal_lots woken start num_task =
    let rest = signal_rest woken (parking_lot_num - 1) start (num_task - woken start) in
    record { lots = start ∷ rest.lots; num_task = rest.num_task }

abbrev pub capped : ℕ → ℕ
capped n = if ltb 2 n then 2 else n

-- The flags that allow `signal_task` to add a worker.
pub record Flags : Type 0 where
  pub bthread_concurrency : ℕ
  pub bthread_min_concurrency : ℕ

-- The answer: the lots signalled, and whether `add_workers(1)` was called. `seen` and `locked` are
-- the values of `_concurrency` read before and under `g_task_control_mutex`.
unfoldable pub signal_task : (woken : ℕ → ℕ) → Flags → (seen locked start : ℕ) → ℕ → List ℕ × Bool
signal_task woken flags seen locked start num_task =
    if num_task == 0
    then ([], false)
    else let s = signal_lots woken start (capped num_task) in
      (
        s.lots,
        ltb 0 s.num_task
            && ltb 0 flags.bthread_min_concurrency
            && ltb seen flags.bthread_concurrency
            && ltb locked flags.bthread_concurrency,
      )
