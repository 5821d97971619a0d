-- ===== src/Tests/SchedRuns.antt =====
-- dbrpc/task_group.cpp: switching between a main task and two bthreads of the same stack type.
use brpc_source_code_analysi.Prelude.{
  ltb, ◌≢◌, ℕ, ◌≡◌, refl, true, false, ◌%◌, ◌/◌, ◌-◌, ◌==◌, if◌then◌else◌, Option, none, some, [],
  arith,
}
use brpc_source_code_analysi.Sched.Switch.{
  release_last_context, Remained, Group, State, fatal, after_jump, run_remained, hand_over,
  ending_sched, sched_to,
}
use brpc_source_code_analysi.Sched.Stacks.{HasOwnStacks, GivesFresh, IsReady}
use brpc_source_code_analysi.Sched.Handover.{hand_over-IsReady, ending_sched_handover_fatal}
use brpc_source_code_analysi.Sched.Leave.{
  KeepsBoth, exchange, run_foreground, yield, usleep, exchange-KeepsBoth,
}
use brpc_source_code_analysi.Task.Meta.{Pool}
use brpc_source_code_analysi.Sched.Runner.{
  Ended, unfinished, entered, task_runner, FindsMain, task_runner-ends,
}
use brpc_source_code_analysi.Sched.Ending.{
  LocalStorage, World, Rounds, no_round, clean_tls, cleaned, run_task, run_task-NoKeytable,
}
use brpc_source_code_analysi.Sched.Release.{
  run_release_last_context, Released, ending_sched-Released,
}
use brpc_source_code_analysi.Sched.Storage.{sched_to-restores_storage}

-- Task 1 is the main task with the main stack 100; task 2 runs on stack 200; task 3 has none yet.
abbrev pub the_group : Group
the_group = record {
  cur_meta = 2;
  main_task = 1;
  main_stack = 100;
  sched_recursive_guard = 1;
  last_run_ns = 40;
  cumulated_cputime_ns = 10;
  nswitch = 5;
  last_context_remained = some (release_last_context 2);
}

abbrev pub state : State
state = record {
  tasks = λ a. record {
    stack = if a == 1 then some 100 else if a == 2 then some 200 else none;
    stack_type = 3;
    local_storage = a;
    cputime_ns = 0;
    nswitch = 0;
  };
  group = the_group;
  tls_bls = 77;
}

abbrev pub get_stack : ℕ → Option ℕ
get_stack type = if type == 3 then some 300 else none

state-HasOwnStacks : HasOwnStacks state
state-HasOwnStacks a b x other ha hb = ground arith

get_stack-GivesFresh : GivesFresh get_stack state
get_stack-GivesFresh type x got = (λ e. ground arith, λ a e. ground arith)

hand_over-IsReady_example : IsReady 3 (hand_over 1 get_stack 3 state)
hand_over-IsReady_example =
    hand_over-IsReady 1 get_stack 3 200 state state-HasOwnStacks get_stack-GivesFresh refl

ending_sched_handover_fatal_example : (ending_sched 1 get_stack 50 3 state).1 ≡ fatal
ending_sched_handover_fatal_example =
    ending_sched_handover_fatal 1 get_stack 50 3 state (λ e. omega (arith, e)) refl refl

sched_to-restores_storage_example :
    let away = (sched_to 50 1 state).0 in
    let back = (sched_to 60 2 (record away { tls_bls = 88 })).0 in
    (away.group.cur_meta ≡ 1)
    × (away.tls_bls ≡ 1)
    × (back.group.cur_meta ≡ 2)
    × (back.tls_bls ≡ 77)
    × ((back.tasks 1).local_storage ≡ 88)
sched_to-restores_storage_example =
    sched_to-restores_storage 50 60 1 88 state (λ e. omega (arith, e))

abbrev slot_of : ℕ → ℕ
slot_of tid = tid % 8

-- Task 2 has the identifier 10, task 3 the identifier 11.
exchange-KeepsBoth_example :
    KeepsBoth 1 get_stack 50 slot_of false 10 11 state
      (exchange 1 get_stack 50 slot_of false true 10 11 state)
    × KeepsBoth 1 get_stack 50 slot_of false 10 11 state
        (run_foreground 1 get_stack 50 slot_of false true true 10 11 state)
    × KeepsBoth 1 get_stack 50 slot_of false 10 11 state (yield 1 get_stack 50 slot_of 10 11 state)
    × KeepsBoth 1 get_stack 50 slot_of false 10 11 state
        (usleep 1 get_stack 50 slot_of 0 9 10 11 state)
exchange-KeepsBoth_example = exchange-KeepsBoth 1 get_stack 50 slot_of false true true 10 11 9 state

-- Task 2 runs and ends on the main stack, and the main task is next.
abbrev on_main_stack : State
on_main_stack = record state {
  tasks = λ a. record {
    stack = if ltb a 3 then some 100 else none;
    stack_type = 3;
    local_storage = a;
    cputime_ns = 0;
    nswitch = 0;
  };
}

abbrev world : World
world = record { pool = λ _. none; sched = on_main_stack; calls = [] }

abbrev returns : ℕ → Pool × State → Pool × State
returns task r = r

abbrev next_is_main : ℕ → State → ℕ
next_is_main round s = 1

abbrev main_next : ℕ → State → ℕ
main_next round s = s.group.main_task

abbrev nothing_remained : ℕ → World → World
nothing_remained round w = w

pub even-has_none : (x : ℕ) → (if (x - x % 2) % 2 == 0 then none else some ((x - x % 2) / 2)) ≡ none
even-has_none x = ground arith

-- The storage with the number 2 n + 1 has the key table n, and 2 n has none.
abbrev pub numbered_tables : LocalStorage
numbered_tables = record {
  keytable = λ x. if x % 2 == 0 then none else some (x / 2);
  without_keytable = λ x. x - x % 2;
  keytable-without = even-has_none;
}

abbrev nothing_destroyed : ℕ → Pool × State → Pool × State
nothing_destroyed kt r = r

-- The function that remains is dropped.
abbrev drop : Remained → State → State
drop fn s = s

abbrev entered_world : World
entered_world = record world {
  sched = record on_main_stack {
    group = record the_group { sched_recursive_guard = 0; last_context_remained = none };
  };
}

abbrev ended : World × Ended
ended =
    task_runner numbered_tables nothing_destroyed returns main_next (λ _. 50) 1 (λ _. get_stack)
      drop 2 false nothing_remained 3 world

enters : entered drop 2 false world ≡ some entered_world
unfolding entered after_jump run_remained
enters = refl

finds_main :
    FindsMain numbered_tables nothing_destroyed returns main_next
      (λ _. 50)
      1
      (λ _. get_stack)
      nothing_remained
      0
finds_main = record { picks_main = λ s. refl; same_current = λ w. refl; same_main = λ w. refl }

task_runner-ends_example : Rounds ended.0.calls × (ended.1 ≢ unfinished)
task_runner-ends_example =
    task_runner-ends numbered_tables nothing_destroyed returns main_next (λ _. 50) 1
      (λ _. get_stack) drop 2 false nothing_remained 0 3 world entered_world enters finds_main
      (omega arith) no_round

stays_current :
    (cleaned numbered_tables nothing_destroyed returns next_is_main
      (λ _. 50)
      1
      (λ _. get_stack)
      world).0.1.group.cur_meta
    ≡ 2
unfolding clean_tls
stays_current = refl

run_task-NoKeytable_example :
    numbered_tables.keytable
      ((run_task numbered_tables nothing_destroyed returns next_is_main
          (λ _. 50)
          1
          (λ _. get_stack)
          0
          world).0.sched.tasks
        2).local_storage
    ≡ none
run_task-NoKeytable_example =
    run_task-NoKeytable numbered_tables nothing_destroyed returns next_is_main (λ _. 50) 1
      (λ _. get_stack) 0 world stays_current (λ e. omega (arith, e))

ending_sched-Released_example :
    let s' = (ending_sched 1 get_stack 50 3 state).0 in
    let (end, calls) = run_release_last_context 1 slot_of 2 (s', []) in
    Released slot_of 2 3 200 end calls
ending_sched-Released_example =
    ending_sched-Released 1 get_stack slot_of 50 3 200 state state-HasOwnStacks get_stack-GivesFresh
      (λ e. omega (arith, e)) refl (λ e. omega (arith, e)) refl
