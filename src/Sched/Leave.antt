-- ===== src/Sched/Leave.antt =====
-- dbrpc/task_group.cpp and dbrpc/task_group_inl.h: the ways a task leaves its worker, and where it
-- is queued again.
--
-- A remained function is set before the switch and runs after it, on the stack of the next task.
-- `is_current_pthread_task` is called and defined nowhere in the repository, so its answer is an
-- argument. Tasks have an identifier and the address of a meta; `slot_of` is `address_meta`. `chosen` is what
-- `choose_next` answers.
use brpc_source_code_analysi.Prelude.{
  ℕ, ◌==◌, ◌≡◌, refl, ap, ◌∙◌, arith, if◌then◌else◌, Bool, true, false, Option, none, some,
}
use brpc_source_code_analysi.Sched.Switch.{
  Remained, ready_to_run_in_worker, ready_to_run_in_worker_ignoresignal, add_sleep_event,
  release_last_context, wait_for_butex, State, Switched, account, exchange_storage, new_stack,
  ensure_stack, sched_to, sched_to_tid,
}

-- What a call ends with: a task made ready and no switch, or a switch.
pub data Left : Type 0 where
  made_ready : (tid : ℕ) (nosignal : Bool) → State → Left
  switched : State → Switched → Left

unfoldable pub set_remained : Remained → State → State
set_remained fn s = record s { group = record (s.group) { last_context_remained = some fn } }

abbrev pub to_left : State × Switched → Left
to_left (s, how) = switched s how

sched_to-leaves :
    (now next : ℕ) (s : State)
    → ((sched_to now next s).0.group.cur_meta ≡ next)
      × ((sched_to now next s).0.group.last_context_remained ≡ s.group.last_context_remained)
unfolding sched_to account exchange_storage
sched_to-leaves now next s = ground arith

ensure_stack-group :
    (pthread_type : ℕ) (get_stack : ℕ → Option ℕ) (next : ℕ) (s : State)
    → (ensure_stack pthread_type get_stack next s).group ≡ s.group
unfolding ensure_stack new_stack
ensure_stack-group pthread_type get_stack next s = ground arith

module _ (pthread_type : ℕ) (get_stack : ℕ → Option ℕ) (now : ℕ) (slot_of : ℕ → ℕ) where
  -- `fn(current_tid, nosignal)` remains, then the switch.
  unfoldable pub leave_for : Remained → ℕ → State → Left
  leave_for fn next_tid s =
      to_left (sched_to_tid pthread_type get_stack now (slot_of next_tid) (set_remained fn s))

  abbrev pub requeue : (about_to_quit : Bool) → ℕ → Bool → Remained
  requeue about_to_quit tid nosignal =
      if about_to_quit
      then ready_to_run_in_worker_ignoresignal tid nosignal
      else ready_to_run_in_worker tid nosignal

  -- `is_pthread` is `is_current_pthread_task()`.
  unfoldable pub exchange :
      (is_pthread about_to_quit : Bool) (current_tid next_tid : ℕ) → State → Left
  exchange is_pthread about_to_quit current_tid next_tid s =
      if is_pthread
      then made_ready next_tid false s
      else leave_for (requeue about_to_quit current_tid false) next_tid s

  -- The end of `start_foreground`, for a new task.
  unfoldable pub run_foreground :
      (is_pthread about_to_quit nosignal : Bool) (current_tid new_tid : ℕ) → State → Left
  run_foreground is_pthread about_to_quit nosignal current_tid new_tid s =
      if is_pthread
      then made_ready new_tid nosignal s
      else leave_for (requeue about_to_quit current_tid nosignal) new_tid s

  unfoldable pub yield : (current_tid chosen : ℕ) → State → Left
  yield current_tid chosen s = leave_for (ready_to_run_in_worker current_tid false) chosen s

  -- `usleep` up to the switch; the event of the timer is added after it.
  unfoldable pub usleep : (timeout_us sleep_args current_tid chosen : ℕ) → State → Left
  usleep timeout_us sleep_args current_tid chosen s =
      if timeout_us == 0
      then yield current_tid chosen s
      else leave_for (add_sleep_event sleep_args) chosen s

  -- The task that a remained function puts into a run queue.
  abbrev pub requeued : Option Remained → Option ℕ
  requeued (some (ready_to_run_in_worker tid nosignal)) = some tid
  requeued (some (ready_to_run_in_worker_ignoresignal tid nosignal)) = some tid
  requeued (some (add_sleep_event args)) = none
  requeued (some (release_last_context task)) = none
  requeued (some (wait_for_butex waiter)) = none
  requeued none = none

  -- Both tasks go on: the next one runs or is made ready, the current one runs or is requeued.
  abbrev pub KeepsBoth : (is_pthread : Bool) (current_tid next_tid : ℕ) → State → Left → Type 0
  KeepsBoth is_pthread current_tid next_tid s (made_ready tid nosignal s') =
      (is_pthread ≡ true) × (tid ≡ next_tid) × (s' ≡ s)
  KeepsBoth is_pthread current_tid next_tid s (switched s' how) =
      (is_pthread ≡ false)
      × (s'.group.cur_meta ≡ slot_of next_tid)
      × (requeued s'.group.last_context_remained ≡ some current_tid)

  leave_for-KeepsBoth :
      (fn : Remained) (current_tid next_tid : ℕ) (s : State)
      → requeued (some fn) ≡ some current_tid
      → KeepsBoth false current_tid next_tid s (leave_for fn next_tid s)
  unfolding leave_for sched_to_tid set_remained
  leave_for-KeepsBoth fn current_tid next_tid s e =
      let s1 = set_remained fn s in
      let s2 = ensure_stack pthread_type get_stack (slot_of next_tid) s1 in
      let (cur, remained) = sched_to-leaves now (slot_of next_tid) s2 in
      let kept =
        ap (λ g. g.last_context_remained)
          (ensure_stack-group pthread_type get_stack (slot_of next_tid) s1) in
      (refl, cur, ap requeued (remained ∙ kept) ∙ e)

  requeue-requeued :
      (about_to_quit : Bool) (tid : ℕ) (nosignal : Bool)
      → requeued (some (requeue about_to_quit tid nosignal)) ≡ some tid
  requeue-requeued true tid nosignal = refl
  requeue-requeued false tid nosignal = refl

  -- `exchange` and the end of `start_foreground` lose neither of their two tasks: from a pthread task
  -- the next one is made ready and nothing else changes, otherwise the next one runs and the function
  -- that remains puts the current one into a run queue. `yield` and `usleep` of 0 do the latter.
  pub exchange-KeepsBoth :
      (is_pthread about_to_quit nosignal : Bool) (current_tid next_tid sleep_args : ℕ) (s : State)
      → KeepsBoth is_pthread current_tid next_tid s
          (exchange is_pthread about_to_quit current_tid next_tid s)
        × KeepsBoth is_pthread current_tid next_tid s
            (run_foreground is_pthread about_to_quit nosignal current_tid next_tid s)
        × KeepsBoth false current_tid next_tid s (yield current_tid next_tid s)
        × KeepsBoth false current_tid next_tid s (usleep 0 sleep_args current_tid next_tid s)
  unfolding exchange run_foreground yield usleep
  exchange-KeepsBoth true about_to_quit nosignal current_tid next_tid sleep_args s =
      let left =
        leave_for-KeepsBoth (ready_to_run_in_worker current_tid false) current_tid next_tid s
          refl in
      ((refl, refl, refl), (refl, refl, refl), left, left)
  exchange-KeepsBoth false about_to_quit nosignal current_tid next_tid sleep_args s =
      let left =
        leave_for-KeepsBoth (ready_to_run_in_worker current_tid false) current_tid next_tid s
          refl in
      (
        leave_for-KeepsBoth (requeue about_to_quit current_tid false) current_tid next_tid s
            (requeue-requeued about_to_quit current_tid false),
        leave_for-KeepsBoth (requeue about_to_quit current_tid nosignal) current_tid next_tid s
            (requeue-requeued about_to_quit current_tid nosignal),
        left,
        left,
      )
