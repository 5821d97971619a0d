-- ===== src/Sched/Runner.antt =====
-- dbrpc/task_group.cpp: `task_runner` and its loop.
--
-- When `ending_sched` jumps to another stack the context of the loop is given up. The functions that
-- remain after a switch are `remained` in the loop, and `run` before the first round.
use mathlib.Core.Path.{subst}
use brpc_source_code_analysi.Prelude.{
  ℕ, zero, suc, ◌+◌, ◌∙◌, refl, sym, Option-cases, ◌≤◌, ◌==◌, ◌≡◌, ◌≢◌, ◌<◌, arith, if◌then◌else◌,
  Bool, true, false, Option, none, some, inl, inr, Bool-cases,
}
use brpc_source_code_analysi.Task.Meta.{Pool}
use brpc_source_code_analysi.Sched.Switch.{
  State, Remained, Switched, jumps, same_stack, fatal, itself, after_jump,
}
use brpc_source_code_analysi.Sched.Storage.{Remains, after_jump-returns}
use brpc_source_code_analysi.Sched.Ending.{
  LocalStorage, World, Rounds, run_task, run_task-Rounds, run_task-current,
}

-- How the loop ends: at the main task, by a jump away, or not within the rounds given.
pub data Ended : Type 0 where
  quits left unfinished : Ended

abbrev pub next_round : World → World × Ended → World × Ended
next_round w again = if w.sched.group.cur_meta == w.sched.group.main_task then (w, quits) else again

-- `do … while (g->_cur_meta->tid != g->_main_tid)`, for how the switch went, the world before and
-- after the remained functions, and what more rounds would give.
unfoldable pub go_on : Switched → World → World → World × Ended → World × Ended
go_on (jumps from to) w' w'' again = (w', left)
go_on same_stack w' w'' again = next_round w'' again
go_on fatal w' w'' again = next_round w'' again
go_on itself w' w'' again = next_round w'' again

next_round-Rounds :
    (w : World) (again : World × Ended)
    → Rounds w.calls
    → Rounds again.0.calls
    → Rounds (next_round w again).0.calls
next_round-Rounds w again here more =
    elim (Bool-cases (w.sched.group.cur_meta == w.sched.group.main_task)) [
      | inl at_main ↦ rw at_main here
      | inr other ↦ rw other more
    ]

go_on-Rounds :
    (how : Switched) (w' w'' : World) (again : World × Ended)
    → Rounds w'.calls
    → Rounds w''.calls
    → Rounds again.0.calls
    → Rounds (go_on how w' w'' again).0.calls
unfolding go_on
go_on-Rounds (jumps from to) w' w'' again before here more = before
go_on-Rounds same_stack w' w'' again before here more = next_round-Rounds w'' again here more
go_on-Rounds fatal w' w'' again before here more = next_round-Rounds w'' again here more
go_on-Rounds itself w' w'' again before here more = next_round-Rounds w'' again here more

-- `remained round` is what the remained functions do after a switch without a jump.
abbrev pub after_switch : (remained : ℕ → World → World) → ℕ → World → World
after_switch remained round w = record w {
  pool = (remained round w).pool;
  sched = (remained round w).sched;
}

-- `if (!skip_remained){ … }`: the functions that remain, and the guard.
unfoldable pub entered :
    (run : Remained → State → State) (fuel : ℕ) (skip_remained : Bool) → World → Option World
entered run fuel true w = some w
entered run fuel false w = elim (after_jump run fuel w.sched) [
  | none ↦ none
  | some s ↦ some (record w { sched = s })
]

entered-calls :
    (run : Remained → State → State) (fuel : ℕ) (skip_remained : Bool) (w w0 : World)
    → entered run fuel skip_remained w ≡ some w0
    → w0.calls ≡ w.calls
unfolding entered
entered-calls run fuel true w w0 e = ground (arith, e)
entered-calls run fuel false w w0 e = elim (Option-cases (after_jump run fuel w.sched)) [
  | inl nothing ↦ absurd (ground (arith, e, nothing))
  | inr (s, got) ↦ ground (arith, e, got)
]

-- As many functions as remain are enough for the first part of `task_runner` to end.
pub entered-some :
    (run : Remained → State → State) (n fuel : ℕ) (skip_remained : Bool) (w : World)
    → Remains run w.sched n
    → n ≤ fuel
    → (w0 : World) × (entered run fuel skip_remained w ≡ some w0)
unfolding entered
entered-some run n fuel true w remains enough = (w, refl)
entered-some run n fuel false w remains enough =
    let (s', s, _, got, _, _) = after_jump-returns run n fuel w.sched remains enough in
    (record w { sched = s }, rw (got, entered) refl)

module _ (K : LocalStorage) (destructors user : ℕ → Pool × State → Pool × State)
    (next : ℕ → State → ℕ) (now : ℕ → ℕ) (pthread_type : ℕ) (get_stack : ℕ → ℕ → Option ℕ) where
  abbrev round_of : (round : ℕ) → World → World × Switched
  round_of round w = run_task K destructors user next now pthread_type get_stack round w

  unfoldable pub runner_loop :
      (remained : ℕ → World → World) → (fuel round : ℕ) → World → World × Ended
  runner_loop remained zero round w = (w, unfinished)
  runner_loop remained (suc fuel) round w =
      let (w', how) = round_of round w in
      let w'' = after_switch remained round w' in
      let again = runner_loop remained fuel (suc round) w'' in go_on how w' w'' again

  unfoldable pub task_runner :
      (run : Remained → State → State) (remained_fuel : ℕ) (skip_remained : Bool)
      → (remained : ℕ → World → World) → (fuel : ℕ) → World
      → World × Ended
  task_runner run remained_fuel skip_remained remained fuel w =
      elim (entered run remained_fuel skip_remained w) [
        | none ↦ (w, unfinished)
        | some w0 ↦ runner_loop remained fuel 0 w0
      ]

  runner_loop-Rounds :
      (remained : ℕ → World → World) (fuel round : ℕ) (w : World)
      → Rounds w.calls
      → Rounds (runner_loop remained fuel round w).0.calls
  unfolding runner_loop
  runner_loop-Rounds remained zero round w so_far = so_far
  runner_loop-Rounds remained (suc fuel) round w so_far =
      let (w', how) = round_of round w in
      let w'' = after_switch remained round w' in
      let before =
        run_task-Rounds K destructors user next now pthread_type get_stack round w so_far in
      go_on-Rounds how w' w'' (runner_loop remained fuel (suc round) w'') before before
        (runner_loop-Rounds remained fuel (suc round) w'' before)

  -- The world after some rounds, if no switch jumps.
  abbrev pub after_rounds : (remained : ℕ → World → World) → ℕ → ℕ → World → World
  after_rounds remained zero round w = w
  after_rounds remained (suc k) round w =
      after_rounds remained k (suc round) (after_switch remained round (round_of round w).0)

  abbrev pub at_main : World → Bool
  at_main w = w.sched.group.cur_meta == w.sched.group.main_task

  next_round-ends :
      (w : World) (again : World × Ended)
      → (at_main w ≡ false → again.1 ≢ unfinished)
      → (next_round w again).1 ≢ unfinished
  next_round-ends w again more = elim (Bool-cases (at_main w)) [
    | inl here ↦ λ e. ground (arith, here, e)
    | inr other ↦ λ e. more other (rw other at e)
  ]

  go_on-ends :
      (how : Switched) (w' w'' : World) (again : World × Ended)
      → (at_main w'' ≡ false → again.1 ≢ unfinished)
      → (go_on how w' w'' again).1 ≢ unfinished
  unfolding go_on
  go_on-ends (jumps from to) w' w'' again more e = ground (arith, e)
  go_on-ends same_stack w' w'' again more e = next_round-ends w'' again more e
  go_on-ends fatal w' w'' again more e = next_round-ends w'' again more e
  go_on-ends itself w' w'' again more e = next_round-ends w'' again more e

  ends_within :
      (remained : ℕ → World → World) (k fuel round : ℕ) (w : World)
      → at_main (after_rounds remained (suc k) round w) ≡ true
      → k < fuel
      → (runner_loop remained fuel round w).1 ≢ unfinished
  unfolding runner_loop
  ends_within remained k zero round w reached lt = absurd (omega (arith, lt))
  ends_within remained zero (suc fuel) round w reached lt =
      let (w', how) = round_of round w in
      let w'' = after_switch remained round w' in
      go_on-ends how w' w'' (runner_loop remained fuel (suc round) w'')
        (λ other. absurd (ground (arith, reached, other)))
  ends_within remained (suc k) (suc fuel) round w reached lt =
      let (w', how) = round_of round w in
      let w'' = after_switch remained round w' in
      go_on-ends how w' w'' (runner_loop remained fuel (suc round) w'')
        (λ other. ends_within remained k fuel (suc round) w'' reached (omega (arith, lt)))

  -- In round `k` the scheduler finds nothing but the main task, and no function that remains then
  -- changes which task is current.
  pub record FindsMain (remained : ℕ → World → World) (k : ℕ) : Type 0 where
    pub picks_main : (s : State) → next k s ≡ s.group.main_task
    pub same_current : (w : World) → (remained k w).sched.group.cur_meta ≡ w.sched.group.cur_meta
    pub same_main : (w : World) → (remained k w).sched.group.main_task ≡ w.sched.group.main_task

  reaches_main :
      (remained : ℕ → World → World) (k round last : ℕ) (w : World)
      → FindsMain remained last
      → last ≡ round + k
      → at_main (after_rounds remained (suc k) round w) ≡ true
  reaches_main remained zero round last w f e =
      let here : last ≡ round = omega (arith, e) in
      let f' : FindsMain remained round = subst (FindsMain remained) here f in
      let w' = (round_of round w).0 in
      let (cur, main) =
        run_task-current K destructors user next now pthread_type get_stack round w in
      let same_task : (after_switch remained round w').sched.group.cur_meta
          ≡ (after_switch remained round w').sched.group.main_task =
        f'.same_current w' ∙ cur ∙ f'.picks_main _ ∙ sym main ∙ sym (f'.same_main w') in
      ground (arith, same_task)
  reaches_main remained (suc k) round last w f e =
      reaches_main remained k (suc round) last (after_switch remained round (round_of round w).0) f
        (omega (arith, e))

  -- After the functions that remain before the first round, `task_runner` ends: within `k + 1` rounds,
  -- or by a jump before, when in round `k` the scheduler finds nothing but the main task and the
  -- functions that remain then do not change the current task. Each task that it ran it has served in
  -- this order: if its function left a key table, this table was returned; then its joiners were
  -- woken once, and find a version that is not 0; then it was taken out of the count.
  pub task_runner-ends :
      (run : Remained → State → State) (remained_fuel : ℕ) (skip_remained : Bool)
      (remained : ℕ → World → World) (k fuel : ℕ) (w w0 : World)
      → entered run remained_fuel skip_remained w ≡ some w0
      → FindsMain remained k
      → k < fuel
      → Rounds w.calls
      → Rounds (task_runner run remained_fuel skip_remained remained fuel w).0.calls
        × ((task_runner run remained_fuel skip_remained remained fuel w).1 ≢ unfinished)
  unfolding task_runner
  task_runner-ends run remained_fuel skip_remained remained k fuel w w0 begun finds lt so_far =
      rw (begun, task_runner)
        (
          runner_loop-Rounds remained fuel 0 w0 (
              subst Rounds (sym (entered-calls run remained_fuel skip_remained w w0 begun)) so_far),
          ends_within remained k fuel 0 w0 (reaches_main remained k 0 k w0 finds (omega arith)) lt,
        )
