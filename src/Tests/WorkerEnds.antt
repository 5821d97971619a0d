-- ===== src/Tests/WorkerEnds.antt =====
-- dbrpc/task_control.cpp and dbrpc/task_group.cpp: a worker after `stop_and_join`.
use brpc_source_code_analysi.Prelude.{
  ℕ, ◌≡◌, refl, ◌==◌, if◌then◌else◌, ltb, Bool, true, false, none, some, List, [], ◌∷◌, arith,
}
use brpc_source_code_analysi.Queues.{WorkStealingQueue, RemoteTaskQueue, list_wsq, list_remote}
use brpc_source_code_analysi.Sched.Switch.{State}
use brpc_source_code_analysi.Tests.SchedRuns.{numbered_tables}
use brpc_source_code_analysi.Worker.Lot.{counting}
use brpc_source_code_analysi.Control.Workers.{failed, init}
use brpc_source_code_analysi.Api.Concurrency.{new_control}
use brpc_source_code_analysi.Worker.Destroy.{IsJoined, destroy_control, failed_init-IsJoined}
use brpc_source_code_analysi.Worker.Wait.{Shared, wait_task}
use brpc_source_code_analysi.Worker.Stop.{Stopping, stop_and_join}
use brpc_source_code_analysi.Worker.Stopped.{StaysStopped, Drains, stop_and_join-Drains}
use brpc_source_code_analysi.Worker.Main.{Main, Outside, main_ended, run_main_task}
use brpc_source_code_analysi.Worker.MainLoop.{run_main_task-stops}

abbrev rq_of : WorkStealingQueue
rq_of = list_wsq 4

abbrev remote_of : RemoteTaskQueue
remote_of = list_remote 4

abbrev Seen : Type 0
Seen = Shared rq_of remote_of counting

abbrev going : Stopping counting
going = record {
  table = record { ngroup = 1; groups = λ i. if i == 0 then some 21 else none; stop = false };
  lots = λ i. 8;
  calls = [];
}

-- Group 21 sleeps at lot 2 with the state 8; `tasks` are in its remote queue.
abbrev stopped_with : List ℕ → Seen
stopped_with tasks = record {
  lot = (stop_and_join counting 3 going).lots 2;
  last_pl_state = 8;
  table = (stop_and_join counting 3 going).table;
  queues = record { rq = λ _. []; remote_rq = λ g. if g == 21 then tasks else [] };
  steal_seed = 5;
}

abbrev undisturbed : ℕ → Seen → Seen
undisturbed r s = s

stays : StaysStopped rq_of remote_of counting undisturbed undisturbed 21 1
stays = record {
  wait_table = λ r s e. e;
  wait_lot = λ r s e. e;
  wait_keeps = λ r s. refl;
  steal_table = λ r s e. e;
  steal_keeps = λ r s. refl;
}

stop_and_join-Drains_example :
    Drains rq_of remote_of counting undisturbed undisturbed 21 1
      (stopped_with (4 ∷ []))
      (wait_task rq_of remote_of counting undisturbed undisturbed 21 1 2 0 (stopped_with (4 ∷ [])))
stop_and_join-Drains_example =
    stop_and_join-Drains rq_of remote_of counting undisturbed undisturbed 21 1 3 2 0 0 going
      (stopped_with (4 ∷ [])) stays (omega arith) refl refl

abbrev main_only : State
main_only = record {
  tasks = λ a. record {
    stack = some 100;
    stack_type = 3;
    local_storage = a;
    cputime_ns = 0;
    nswitch = 0;
  };
  group = record {
    cur_meta = 1;
    main_task = 1;
    main_stack = 100;
    sched_recursive_guard = 0;
    last_run_ns = 40;
    cumulated_cputime_ns = 10;
    nswitch = 5;
    last_context_remained = none;
  };
  tls_bls = 77;
}

abbrev outside : Outside rq_of remote_of counting
outside = record {
  until_wait_ends = λ i. undisturbed;
  meanwhile = λ i. undisturbed;
  wait_rounds = 2;
  until_back = λ i m. m;
  slot_of = λ tid. tid;
  now = λ i. 90;
  pthread_type = 1;
  get_stack = λ i type. none;
  storage = numbered_tables;
  destructors = λ kt r. r;
  user = λ task r. r;
  next = λ i s. 1;
  remained = λ i w. w;
  runner_rounds = 2;
}

abbrev main : Main rq_of remote_of counting
main = record {
  world = record { pool = λ _. none; sched = main_only; calls = [] };
  shared = stopped_with [];
}

run_main_task-stops_example :
    (m' : Main rq_of remote_of counting) × (run_main_task rq_of remote_of counting outside 21 1 1 0
        main
      ≡ (m', main_ended))
run_main_task-stops_example =
    run_main_task-stops rq_of remote_of counting outside 21 1 0 0 3 2 0 going main stays refl
      (omega arith) refl refl refl

-- The third of four threads cannot be created; the fourth is joined all the same.
abbrev first_two : ℕ → Bool
first_two i = ltb i 2

failed_init-IsJoined_example :
    ((init first_two true 4 new_control).1 ≡ failed)
    × IsJoined counting 3
        (destroy_control counting (init first_two true 4 new_control).0.num_workers (some 70) going)
failed_init-IsJoined_example =
    failed_init-IsJoined counting first_two 2 4 3 (some 70) going refl (omega arith) (omega arith)
      refl
