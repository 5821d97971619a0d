-- ===== src/Butex/Wake.antt =====
-- dbrpc/butex.cpp: `butex_wake`, `butex_wake_all` and `butex_wake_except`.
use brpc_source_code_analysi.Prelude.{
  ℕ, ◌+◌, ◌==◌, ◌&&◌, if◌then◌else◌, Bool, true, Option, none, some, List, [], ◌∷◌, ◌++◌, reverse,
  same, not,
}
use brpc_source_code_analysi.Butex.State.{
  Mem, Env, exchange, ready_to_run_remote, ready_to_run_general, flush_nosignal_tasks_general, emit,
  set_waiters, set_container, tid_of, is_pthread, wakeup_pthread, unsleep_if_necessary,
  get_task_group,
}

-- The head of a queue is unlinked, and belongs to no butex from here on.
abbrev pub pop_head : ℕ → ℕ → List ℕ → Mem → Mem
pop_head b front rest m = set_container front none (set_waiters b rest m)

-- `butex_wake` and `butex_requeue` after the lock is released: run the waiter taken off the queue.
unfoldable pub run_front : Env → ℕ → Mem → Mem
run_front env front m =
    if is_pthread m front
    then wakeup_pthread front m
    else let woken = (unsleep_if_necessary env front m).0 in
      elim env.tls_task_group [
        | some g ↦ emit (exchange g (tid_of m front)) woken
        | none ↦ emit (ready_to_run_remote env.choose_one_group (tid_of m front)) woken
      ]

unfoldable pub butex_wake : Env → ℕ → Mem → Mem × ℕ
butex_wake env b m = elim (m.waiters b) [
  | [] ↦ (m, 0)
  | front ∷ rest ↦ (run_front env front (pop_head b front rest m), 1)
]

-- The local lists of `butex_wake_all` and `butex_wake_except`.
pub record Drained : Type 0 where
  pub mem : Mem
  pub bthread_waiters : List ℕ
  pub pthread_waiters : List ℕ
  pub excluded_waiter : Option ℕ

abbrev pub nothing_drained : Mem → Drained
nothing_drained m = record {
  mem = m;
  bthread_waiters = [];
  pthread_waiters = [];
  excluded_waiter = none;
}

-- One round of the loop under `waiter_lock`, for a waiter that is to be woken.
unfoldable pub drain_one : ℕ → ℕ → List ℕ → Drained → Drained
drain_one b bw rest d =
    let m = pop_head b bw rest d.mem in
    if is_pthread d.mem bw
    then record d { mem = m; pthread_waiters = d.pthread_waiters ++ bw ∷ [] }
    else record d { mem = m; bthread_waiters = d.bthread_waiters ++ bw ∷ [] }

unfoldable pub drain_all : ℕ → List ℕ → Drained → Drained
drain_all b [] d = d
drain_all b (bw ∷ rest) d = drain_all b rest (drain_one b bw rest d)

-- The excluded bthread is unlinked and keeps its container, until it is queued again.
unfoldable pub drain_except_one : ℕ → ℕ → ℕ → List ℕ → Drained → Drained
unfolding drain_one
drain_except_one b excluded bw rest d =
    if not (is_pthread d.mem bw) && (tid_of d.mem bw == excluded)
    then record d { mem = set_waiters b rest d.mem; excluded_waiter = some bw }
    else drain_one b bw rest d

unfoldable pub drain_except : ℕ → ℕ → List ℕ → Drained → Drained
drain_except b excluded [] d = d
drain_except b excluded (bw ∷ rest) d =
    drain_except b excluded rest (drain_except_one b excluded bw rest d)

unfoldable pub wake_pthreads : List ℕ → Mem × ℕ → Mem × ℕ
wake_pthreads [] (m, nwakeup) = (m, nwakeup)
wake_pthreads (bw ∷ rest) (m, nwakeup) = wake_pthreads rest (wakeup_pthread bw m, nwakeup + 1)

-- The list is given last waiter first: the loop pops at the tail.
unfoldable pub wake_bthreads : Env → ℕ → List ℕ → Mem × ℕ → Mem × ℕ
wake_bthreads env g [] (m, nwakeup) = (m, nwakeup)
wake_bthreads env g (w ∷ rest) (m, nwakeup) =
    wake_bthreads env g rest (
      emit (ready_to_run_general g (tid_of m w) true) (unsleep_if_necessary env w m).0,
      nwakeup + 1,
    )

abbrev pub flush_if : Bool → ℕ → Mem → Mem
flush_if woke g m = if woke then emit (flush_nosignal_tasks_general g) m else m

-- `g == tls_task_group`: the waiter goes to the caller's own worker or to a remote queue.
unfoldable pub run_next : Env → ℕ → ℕ → Mem → Mem
run_next env g tid m =
    if same (some g) env.tls_task_group
    then emit (exchange g tid) m
    else emit (ready_to_run_remote g tid) m

unfoldable pub wake_drained_all : Env → List ℕ → Mem × ℕ → Mem × ℕ
wake_drained_all env [] (m, nwakeup) = (m, nwakeup)
wake_drained_all env (next ∷ rest) (m, nwakeup) =
    let g = get_task_group env in
    let saved = nwakeup + 1 in
    let (m', n) = wake_bthreads env g (reverse rest) ((unsleep_if_necessary env next m).0, saved) in
    (run_next env g (tid_of m next) (flush_if (not (saved == n)) g m'), n)

unfoldable pub butex_wake_all : Env → ℕ → Mem → Mem × ℕ
butex_wake_all env b m =
    let d = drain_all b (m.waiters b) (nothing_drained m) in
    wake_drained_all env d.bthread_waiters (wake_pthreads d.pthread_waiters (d.mem, 0))

abbrev pub requeue_excluded : ℕ → Option ℕ → Mem → Mem
requeue_excluded b none m = m
requeue_excluded b (some w) m = set_waiters b (m.waiters b ++ w ∷ []) m

unfoldable pub wake_drained_except : Env → List ℕ → Mem × ℕ → Mem × ℕ
wake_drained_except env [] (m, nwakeup) = (m, nwakeup)
wake_drained_except env (front ∷ rest) (m, nwakeup) =
    let g = get_task_group env in
    let (m', n) = wake_bthreads env g (reverse (front ∷ rest)) (m, nwakeup) in
    (flush_if (not (nwakeup == n)) g m', n)

unfoldable pub butex_wake_except : Env → ℕ → ℕ → Mem → Mem × ℕ
butex_wake_except env b excluded m =
    let d = drain_except b excluded (m.waiters b) (nothing_drained m) in
    wake_drained_except env d.bthread_waiters
      (wake_pthreads d.pthread_waiters (requeue_excluded b d.excluded_waiter d.mem, 0))
