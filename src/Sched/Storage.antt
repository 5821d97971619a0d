-- ===== src/Sched/Storage.antt =====
-- dbrpc/task_group.cpp: what `sched_to` keeps for each task, and its counters.
use brpc_source_code_analysi.Prelude.{
  ℕ, zero, suc, ◌+◌, ◌-◌, ◌≡◌, ◌≢◌, ◌≤◌, refl, arith, none, some, ◌==◌, if◌then◌else◌,
}
use brpc_source_code_analysi.Sched.Switch.{
  Remained, State, itself, account, exchange_storage, sched_to, run_remained, after_jump,
}

-- A task finds its bthread-local storage as it left it: after a switch to another task, whatever that
-- one does to its own storage and for how long, the switch back restores it.
pub sched_to-restores_storage :
    (now now' next theirs : ℕ) (s : State)
    → next ≢ s.group.cur_meta
    → let away = (sched_to now next s).0 in
      let back = (sched_to now' s.group.cur_meta (record away { tls_bls = theirs })).0 in
      (away.group.cur_meta ≡ next)
      × (away.tls_bls ≡ (s.tasks next).local_storage)
      × (back.group.cur_meta ≡ s.group.cur_meta)
      × (back.tls_bls ≡ s.tls_bls)
      × ((back.tasks next).local_storage ≡ theirs)
unfolding sched_to account exchange_storage
sched_to-restores_storage now now' next theirs s other = ground (arith, other)

-- Each `sched_to` charges the time since the last one to the task that ran, and to the sum of the
-- group unless that was the main task; nothing else is charged. Time does not go backwards.
pub sched_to-charges :
    (now next a : ℕ) (s : State)
    → s.group.last_run_ns ≤ now
    → let s' = (sched_to now next s).0 in
      let before = s.group.last_run_ns in
      ((s'.tasks a).cputime_ns + before
        ≡ (s.tasks a).cputime_ns + (if s.group.cur_meta == a then now else before))
      × (s'.group.cumulated_cputime_ns + before
          ≡ s.group.cumulated_cputime_ns
            + (if s.group.cur_meta == s.group.main_task then before else now))
      × (s'.group.last_run_ns ≡ now)
      × (s'.group.nswitch ≡ s.group.nswitch + 1)
unfolding sched_to account exchange_storage
sched_to-charges now next a s forward = ground (arith, forward)

-- A switch to the task that runs already leaves the guard against recursion raised, and the function
-- that was set to run after the switch unrun.
pub sched_to-itself :
    (now : ℕ) (s : State)
    → ((sched_to now s.group.cur_meta s).1 ≡ itself)
      × ((sched_to now s.group.cur_meta s).0.group.sched_recursive_guard
          ≡ s.group.sched_recursive_guard + 1)
      × ((sched_to now s.group.cur_meta s).0.group.last_context_remained
          ≡ s.group.last_context_remained)
unfolding sched_to account
sched_to-itself now s = ground arith

-- The remained functions from a state, as many as there are: each is taken out before it is called.
pub data Remains (run : Remained → State → State) : State → ℕ → Type 0 where
  none_left : (s : State) → s.group.last_context_remained ≡ none → Remains run s 0
  one_more :
      (s : State) (fn : Remained) (n : ℕ)
      → s.group.last_context_remained ≡ some fn
      → Remains run
          (run fn (record s { group = record (s.group) { last_context_remained = none } }))
          n
      → Remains run s (suc n)

run_remained-ends :
    (run : Remained → State → State) (n fuel : ℕ) (s : State)
    → Remains run s n
    → n ≤ fuel
    → (s' : State) × (run_remained run fuel s ≡ some s') × (s'.group.last_context_remained ≡ none)
unfolding run_remained
run_remained-ends run n zero s (none_left _ e) enough = (s, ground (arith, e), e)
run_remained-ends run n zero s (one_more _ fn k e more) enough = absurd (omega (arith, enough))
run_remained-ends run n (suc fuel) s (none_left _ e) enough = (s, ground (arith, e), e)
run_remained-ends run n (suc fuel) s (one_more _ fn k e more) enough =
    let (s', done, left) =
      run_remained-ends run k fuel
        (run fn (record s { group = record (s.group) { last_context_remained = none } })) more
        (omega (arith, enough)) in
    (s', rw (e, run_remained) done, left)

abbrev lowered : State → State
lowered s = record s {
  group = record (s.group) { sched_recursive_guard = s.group.sched_recursive_guard - 1 };
}

-- When the remained functions come to an end, `sched_to` returns, with none left and the guard
-- lowered from where the functions left it.
pub after_jump-returns :
    (run : Remained → State → State) (n fuel : ℕ) (s : State)
    → Remains run s n
    → n ≤ fuel
    → (s' s'' : State) × (run_remained run fuel s ≡ some s')
      × (after_jump run fuel s ≡ some s'')
      × (s''.group.last_context_remained ≡ none)
      × (s''.group.sched_recursive_guard ≡ s'.group.sched_recursive_guard - 1)
unfolding after_jump
after_jump-returns run n fuel s remains enough =
    let (s', done, left) = run_remained-ends run n fuel s remains enough in
    (s', lowered s', done, rw (done, after_jump) refl, left, refl)
