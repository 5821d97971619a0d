-- ===== src/Butex/Pthread.antt =====
-- dbrpc/butex.cpp: `wait_pthread` and `butex_wait_from_pthread`.
--
-- A pthread sleeps in the kernel: what the other threads do meanwhile, and what each system call
-- returns, are arguments. The answer is `none` while the wait has not ended.
use brpc_source_code_analysi.Prelude.{
  ℕ, ◌+◌, ◌==◌, ◌&&◌, not, if◌then◌else◌, Bool, true, false, Option, none, some, List, [], ◌∷◌,
  ◌++◌, ltb, update,
}
use brpc_source_code_analysi.Butex.State.{
  Mem, Env, timeout, not_signalled, signalled, set_waiters, set_container, set_current_waiter,
  set_interrupted,
}
use brpc_source_code_analysi.Butex.Wait.{erase_from_butex}

pub data Errno : Type 0 where
  etimedout ewouldblock eintr other : Errno

-- What `futex_wait_private` and the waiting functions return: 0, or -1 and an errno.
pub data WaitResult : Type 0 where
  woke : WaitResult
  failed : Errno → WaitResult

-- One call of `futex_wait_private`: what the other threads do until it returns, its result, and
-- what they do while, and after, this thread tries to take its waiter out.
pub record Sleep : Type 0 where
  pub meanwhile : Mem → Mem
  pub result : WaitResult
  pub erasing : ℕ → Mem → Mem
  pub erase_rounds : ℕ
  pub after_erasing : Mem → Mem

abbrev pub timed_out : WaitResult → Bool
timed_out (failed etimedout) = true
timed_out _ = false

abbrev pub is_signalled : Mem → ℕ → Bool
is_signalled m pw = elim (m.sig pw) [ not_signalled ↦ false | signalled ↦ true ]

unfoldable pub wait_pthread : Env → ℕ → List Sleep → Mem → Option (Mem × WaitResult)
wait_pthread env pw [] m = none
wait_pthread env pw (s ∷ rest) m =
    let m' = s.meanwhile m in
    let continued = wait_pthread env pw rest m' in
    if is_signalled m' pw
    then some (m', s.result)
    else if timed_out s.result
    then elim (erase_from_butex env s.erasing s.erase_rounds pw false timeout m') [
      | none ↦ none
      | some (m'', erased) ↦
          let seen = if erased then m'' else s.after_erasing m'' in
          let waiting = wait_pthread env pw rest seen in
          if not erased && not (is_signalled seen pw) then waiting else some (seen, s.result)
    ]
    else continued

-- `timeout_us < MIN_SLEEP_US`, for the deadline and the present in microseconds.
abbrev pub too_short : Option (ℕ × ℕ) → Bool
too_short none = false
too_short (some (abstime_us, now_us)) = ltb abstime_us (now_us + 2)

-- `ButexPthreadWaiter pw`, as it is set up on the stack.
abbrev pub new_pthread_waiter : ℕ → Mem → Mem
new_pthread_waiter pw m = record m {
  waiter =
      update m.waiter pw (record { tid = 0; task_meta = 0; expected_value = 0; initial_butex = 0 });
  sig = update m.sig pw not_signalled;
}

abbrev pub announce : Option ℕ → ℕ → Mem → Mem
announce none pw m = m
announce (some task) pw m = set_current_waiter task (some pw) m

abbrev pub interrupted_task : Option ℕ → Mem → Bool
interrupted_task none m = false
interrupted_task (some task) m = m.task_interrupted task

abbrev pub clear_interrupted : Option ℕ → Mem → Mem
clear_interrupted none m = m
clear_interrupted (some task) m = set_interrupted task false m

-- Under the lock: fail, or queue the waiter and sleep.
unfoldable pub queue_pthread :
    Env → Option ℕ → ℕ → ℕ → ℕ → List Sleep → Mem → Option (Mem × WaitResult)
queue_pthread env task b expected pw script m =
    let queued = set_container pw (some b) (set_waiters b (m.waiters b ++ pw ∷ []) m) in
    if not (m.value b == expected)
    then some (m, failed ewouldblock)
    else if interrupted_task task m
    then some (clear_interrupted task m, failed eintr)
    else wait_pthread env pw script queued

-- `BT_LOOP_WHEN(current_waiter.exchange(NULL) == NULL)`: the list is what the other threads do
-- before each exchange.
unfoldable pub spin_current_waiter : ℕ → List (Mem → Mem) → Mem → Option Mem
spin_current_waiter task [] m = none
spin_current_waiter task (others ∷ rest) m =
    let m' = others m in
    let again = spin_current_waiter task rest m' in
    elim (m'.current_waiter task) [ none ↦ again | some w ↦ some (set_current_waiter task none m') ]

-- An interruption turns success into EINTR, and is consumed.
unfoldable pub consume_interruption : ℕ → Mem × WaitResult → Mem × WaitResult
consume_interruption task (m, rc) =
    if m.task_interrupted task
    then (set_interrupted task false m, elim rc [ woke ↦ failed eintr | failed e ↦ failed e ])
    else (m, rc)

unfoldable pub finish_pthread :
    Option ℕ → List (Mem → Mem) → Mem × WaitResult → Option (Mem × WaitResult)
finish_pthread none spins (m, rc) = some (m, rc)
finish_pthread (some task) spins (m, rc) = elim (spin_current_waiter task spins m) [
  | none ↦ none
  | some m' ↦ some (consume_interruption task (m', rc))
]

unfoldable pub butex_wait_from_pthread :
    Env
    → Option ℕ
    → ℕ
    → ℕ
    → Option (ℕ × ℕ)
    → ℕ
    → List Sleep
    → List (Mem → Mem)
    → Mem
    → Option (Mem × WaitResult)
butex_wait_from_pthread env task b expected abstime pw script spins m =
    if too_short abstime
    then some (m, failed etimedout)
    else elim (queue_pthread env task b expected pw script
        (announce task pw (new_pthread_waiter pw m))) [
          | none ↦ none
          | some r ↦ finish_pthread task spins r
        ]
