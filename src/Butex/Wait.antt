-- ===== src/Butex/Wait.antt =====
-- dbrpc/butex.cpp: `butex_requeue`, `erase_from_butex` and the functions that wait.
--
-- Loops that another thread can keep going take what the other threads do as an argument, and
-- answer `none` while they have not ended.
use brpc_source_code_analysi.Prelude.{
  ℕ, zero, suc, ◌==◌, ◌&&◌, not, if◌then◌else◌, Bool, true, false, Option, none, some, [], ◌∷◌,
  ◌++◌, same, remove,
}
use brpc_source_code_analysi.Butex.State.{
  Mem, Env, WaiterState, ready, unmatched_value, ready_to_run, ready_to_run_general, emit,
  set_waiters, set_container, set_waiter_state, tid_of, is_pthread, wakeup_pthread,
  unsleep_if_necessary, get_task_group,
}
use brpc_source_code_analysi.Butex.Wake.{pop_head, run_front}

-- The loop that moves the waiters of `b` to `m`: it goes on until the list of `b` is empty.
unfoldable pub requeue_rest : ℕ → ℕ → ℕ → Mem → Option Mem
requeue_rest zero b m mem = none
requeue_rest (suc fuel) b m mem = elim (mem.waiters b) [
  | [] ↦ some mem
  | bw ∷ rest ↦
      let unlinked = set_waiters b rest mem in
      requeue_rest fuel b m
        (set_container bw (some m) (set_waiters m (unlinked.waiters m ++ bw ∷ []) unlinked))
]

abbrev pub requeue_to : Env → ℕ → ℕ → ℕ → Mem → Option (Mem × ℕ)
requeue_to env fuel b m mem = elim (mem.waiters b) [
  | [] ↦ some (mem, 0)
  | front ∷ rest ↦ elim (requeue_rest fuel b m (pop_head b front rest mem)) [
    | none ↦ none
    | some mem' ↦ some (run_front env front mem', 1)
  ]
]

-- `double_lock b m` says whether `butil::double_lock`, which is outside the repository, returns with the
-- locks of the two butexes.
unfoldable pub requeue_between :
    (double_lock : ℕ → ℕ → Bool) → Env → ℕ → ℕ → ℕ → Mem → Option (Mem × ℕ)
requeue_between double_lock env fuel b m mem =
    if double_lock b m then requeue_to env fuel b m mem else none

-- Both butexes are computed from `arg`.
unfoldable pub butex_requeue :
    (double_lock : ℕ → ℕ → Bool) → Env → ℕ → ℕ → ℕ → Mem → Option (Mem × ℕ)
butex_requeue double_lock env fuel arg arg2 mem = requeue_between double_lock env fuel arg arg mem

-- Under the lock of `b`: unlink the waiter if `b` is still its container.
abbrev pub unlink : ℕ → ℕ → WaiterState → Mem → Mem
unlink b bw state m =
    let m' = set_container bw none (set_waiters b (remove bw (m.waiters b)) m) in
    if is_pthread m bw then m' else set_waiter_state bw state m'

unfoldable pub wake_erased : Env → ℕ → Mem → Mem
wake_erased env bw m =
    if is_pthread m bw
    then wakeup_pthread bw m
    else emit (ready_to_run_general (get_task_group env) (tid_of m bw) false) m

-- `others i` is what other threads do between the load and the lock in round `i`. The answer is
-- the memory and whether this call erased the waiter.
unfoldable pub erase_loop :
    (others : ℕ → Mem → Mem) → ℕ → ℕ → ℕ → WaiterState → Mem → Option (Mem × Bool)
erase_loop others zero round bw state m = none
erase_loop others (suc fuel) round bw state m = elim (m.container bw) [
  | none ↦ some (m, false)
  | some b ↦
      let m' = others round m in
      let again = erase_loop others fuel (suc round) bw state m' in
      if same (some b) (m'.container bw) then some (unlink b bw state m', true) else again
]

unfoldable pub erase_from_butex :
    Env → (ℕ → Mem → Mem) → ℕ → ℕ → Bool → WaiterState → Mem → Option (Mem × Bool)
erase_from_butex env others fuel bw wakeup state m = elim (erase_loop others fuel 0 bw state m) [
  | none ↦ none
  | some (m', erased) ↦ some (if erased && wakeup then wake_erased env bw m' else m', erased)
]

-- `wait_for_butex`, run on the next bthread's stack: queue the waiter, or make it runnable again.
abbrev pub may_queue : ℕ → Mem → Bool
may_queue bw m = elim (m.waiter_state bw) [
  | ready ↦ not (m.task_interrupted (m.waiter bw).task_meta)
  | _ ↦ false
]

unfoldable pub back_to_run : Env → ℕ → ℕ → Mem → Mem
back_to_run env g bw m = emit (ready_to_run g (tid_of m bw)) (unsleep_if_necessary env bw m).0

unfoldable pub wait_for_butex : Env → ℕ → ℕ → Mem → Mem
wait_for_butex env g bw m =
    let b = (m.waiter bw).initial_butex in
    if not (m.value b == (m.waiter bw).expected_value)
    then back_to_run env g bw (set_waiter_state bw unmatched_value m)
    else if may_queue bw m
    then set_container bw (some b) (set_waiters b (m.waiters b ++ bw ∷ []) m)
    else back_to_run env g bw m
