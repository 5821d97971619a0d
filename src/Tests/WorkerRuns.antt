-- ===== src/Tests/WorkerRuns.antt =====
-- dbrpc/task_control.cpp and dbrpc/task_group.cpp: a worker, from the creation of its group to the end.
use brpc_source_code_analysi.Prelude.{
  ℕ, ◌≡◌, refl, ◌==◌, if◌then◌else◌, true, false, none, some, [], ◌∷◌, arith,
}
use brpc_source_code_analysi.Queues.{WorkStealingQueue, RemoteTaskQueue, list_wsq, list_remote}
use brpc_source_code_analysi.Control.Groups.{Groups}
use brpc_source_code_analysi.Control.Steal.{steal_task, steal_loop, try_group}
use brpc_source_code_analysi.Worker.Lot.{counting, counting_signal}
use brpc_source_code_analysi.Worker.Wait.{Shared, asleep, group_steal_task, wait_task}
use brpc_source_code_analysi.Worker.Asleep.{IsSignalledBy, Slept, wait_task-Slept}
use brpc_source_code_analysi.Task.Meta.{TaskMeta}
use brpc_source_code_analysi.Task.Tid.{tid_codec}
use brpc_source_code_analysi.Worker.Construct.{
  GroupObject, Store, Answers, takes, group_object, stack, slot,
}
use brpc_source_code_analysi.Worker.Create.{create_group, destroy_self}
use brpc_source_code_analysi.Worker.Ledger.{IsInitialised}
use brpc_source_code_analysi.Worker.Created.{Created, create_group-Created}
use brpc_source_code_analysi.Worker.Life.{Destruction, destroy_self-Ends}

abbrev rq_of : WorkStealingQueue
rq_of = list_wsq 4

abbrev remote_of : RemoteTaskQueue
remote_of = list_remote 4

abbrev Seen : Type 0
Seen = Shared rq_of remote_of counting

abbrev one_group : Groups
one_group = record { ngroup = 1; groups = λ i. if i == 0 then some 21 else none; stop = false }

abbrev idle : Seen
idle = record {
  lot = 0;
  last_pl_state = 0;
  table = one_group;
  queues = record { rq = λ _. []; remote_rq = λ _. [] };
  steal_seed = 5;
}

-- One task is announced while the worker waits for the first time, and somebody else takes it.
abbrev waking : ℕ → ℕ
waking r = if r == 0 then 1 else 0

abbrev saving : ℕ → ℕ
saving r = 0

abbrev announced : ℕ → Seen → Seen
announced r s = record s { lot = counting_signal (waking r) s.lot }

abbrev undisturbed : ℕ → Seen → Seen
undisturbed r s = s

signalled :
    IsSignalledBy rq_of remote_of counting announced undisturbed waking saving 21 1 8 (λ n. 1)
signalled = record {
  wakes = λ r s. refl;
  wait_keeps = λ r s. refl;
  wait_bound = λ r s le. le;
  saves = λ r s. ground arith;
  steal_keeps = λ r s. refl;
  steal_bound = λ r s le. le;
  few = λ r. ground arith;
  inverse = λ n pos le. omega arith;
}

abbrev sleeping : Seen
sleeping = record idle { lot = 2; last_pl_state = 2; steal_seed = 6 }

falls_asleep :
    wait_task rq_of remote_of counting announced undisturbed 21 1 2 0 idle ≡ (sleeping, asleep)
unfolding wait_task group_steal_task steal_task steal_loop try_group
falls_asleep = refl

wait_task-Slept_example :
    Slept rq_of remote_of counting announced undisturbed waking saving 21 1 8
      (λ n. 1)
      sleeping
      0
      idle
wait_task-Slept_example =
    wait_task-Slept rq_of remote_of counting announced undisturbed waking saving 21 1 8 (λ n. 1) 2 0
      idle sleeping signalled (omega arith) falls_asleep

abbrev no_meta : TaskMeta
no_meta = record {
  version_butex = 1;
  tid = 0;
  stop = false;
  interrupted = false;
  about_to_quit = false;
  fn = 0;
  arg = 0;
  attr = record { stack_type = 0; flags = 0 };
  current_waiter = none;
  current_sleep = 0;
  cpuwide_start_ns = 0;
  cputime_ns = 0;
  nswitch = 0;
}

-- The memory of the object happens to hold this control, 70.
abbrev raw : GroupObject
raw = record {
  cur_meta = none;
  control = some 70;
  num_nosignal = 9;
  nsignaled = 9;
  last_run_ns = 9;
  cumulated_cputime_ns = 9;
  nswitch = 9;
  last_context_remained = none;
  pl = none;
  steal_seed = 9;
  steal_offset = 9;
  main_stack = none;
  main_tid = 9;
  remote_num_nosignal = 9;
  remote_nsignaled = 9;
}

abbrev store : Store
store = record {
  objects = λ _. raw;
  pool = λ _. none;
  stacks = λ _. none;
  table = one_group;
  asked = [];
  calls = [];
}

-- Everything can be got but the slot.
abbrev answers : Answers
answers = record {
  new_group = some 22;
  rq_init = true;
  remote_rq_init = true;
  get_stack = some 300;
  get_resource = none;
  fast_rand = 5;
  thread_hash = 6;
  now = 100;
}

create_group-Created_example :
    Created tid_codec
      (λ i. 1)
      4
      0
      8
      no_meta
      answers
      store
      (create_group tid_codec (λ i. 1) 4 0 8 no_meta answers store)
create_group-Created_example =
    create_group-Created tid_codec (λ i. 1) 4 0 8 no_meta answers store
      (λ n got. absurd (ground (arith, got)))

-- Group 21, in the table, with its main task in slot 6 on stack 300.
abbrev working : Store
working = record store {
  objects = λ _. record raw { main_tid = 4294967302; main_stack = some 300 };
  stacks = λ n. if n == 6 then some 300 else none;
  calls = takes (slot 6) ∷ takes (stack 300) ∷ takes (group_object 21) ∷ [];
}

working-IsInitialised : IsInitialised tid_codec 21 300 6 working
working-IsInitialised = record { has_tid = refl; has_slot = refl; has_stack = refl; is_main = refl }

destroy_self-Ends_example :
    Destruction tid_codec 70 21 300 6 [] working (destroy_self 70 21 working)
destroy_self-Ends_example =
    destroy_self-Ends tid_codec 70 21 300 6 [] working working-IsInitialised (λ r. ground arith)
