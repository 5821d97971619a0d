-- ===== src/Tests/GroupRuns.antt =====
-- dbrpc/task_group.cpp on a group whose run queue is full at first.
use brpc_source_code_analysi.Prelude.{ℕ, ◌≡◌, refl, true, false, some, [], ◌∷◌, arith}
use brpc_source_code_analysi.Queues.{WorkStealingQueue, RemoteTaskQueue, list_wsq, list_remote}
use brpc_source_code_analysi.Group.Ready.{
  TaskGroup, push_rq, announce, ready_to_run, flush_nosignal_tasks,
}
use brpc_source_code_analysi.Group.Ledger.{OnlyTakes, Counted}
use brpc_source_code_analysi.Group.History.{start, ready, flush, History-Counted}
use brpc_source_code_analysi.Prelude.{none, ◌+◌, ◌==◌, ◌<◌}
use brpc_source_code_analysi.Control.Groups.{Groups, add_group}
use brpc_source_code_analysi.Control.History.{TableHistory, at_start, one_more}
use brpc_source_code_analysi.Control.History as TableSteps
use brpc_source_code_analysi.Group.Timer.{Woken, ready_to_run_from_timer_thread, timer_thread-Woken}
use brpc_source_code_analysi.Task.Meta.{Attr, TaskMeta, is_stopped}
use brpc_source_code_analysi.Task.Tid.{tid_codec}
use brpc_source_code_analysi.Task.Identity.{IsRunning}
use brpc_source_code_analysi.Group.Start.{Starting, start_ok, start_background}
use brpc_source_code_analysi.Group.Starts.{IsQueued, start_background-starts}

abbrev rq_of : WorkStealingQueue
rq_of = list_wsq 2

abbrev remote_of : RemoteTaskQueue
remote_of = list_remote 1

abbrev full : TaskGroup rq_of remote_of
full = record {
  rq = 3 ∷ 4 ∷ [];
  remote_rq = [];
  num_nosignal = 2;
  nsignaled = 0;
  remote_num_nosignal = 0;
  remote_nsignaled = 0;
  signals = [];
}

-- The other workers empty the queue while this one sleeps.
abbrev thieves : ℕ → TaskGroup rq_of remote_of → TaskGroup rq_of remote_of
thieves round g = record g { rq = [] }

thieves-OnlyTakes : OnlyTakes rq_of remote_of thieves
thieves-OnlyTakes = record {
  same_num = λ i g. refl;
  same_nsignaled = λ i g. refl;
  same_remote_num = λ i g. refl;
  same_remote_nsignaled = λ i g. refl;
  same_signals = λ i g. refl;
}

-- The group after task 9 was pushed in the second round.
abbrev after_push : TaskGroup rq_of remote_of
after_push = record full { rq = 9 ∷ []; num_nosignal = 0; nsignaled = 3; signals = 1 ∷ 2 ∷ [] }

runs : ready_to_run rq_of remote_of thieves 2 9 false full ≡ some after_push
unfolding ready_to_run push_rq announce flush_nosignal_tasks
runs = refl

History-Counted_example :
    Counted rq_of remote_of 1 0 full (flush_nosignal_tasks rq_of remote_of after_push)
History-Counted_example =
    History-Counted rq_of remote_of (flush (ready thieves 2 9 false thieves-OnlyTakes runs start))

abbrev pub normal : Attr
normal = record { stack_type = 3; flags = 1 }

abbrev pub unused_meta : TaskMeta
unused_meta = record {
  version_butex = 1;
  tid = 0;
  stop = true;
  interrupted = false;
  about_to_quit = false;
  fn = 0;
  arg = 0;
  attr = normal;
  current_waiter = none;
  current_sleep = 0;
  cpuwide_start_ns = 0;
  cputime_ns = 0;
  nswitch = 0;
}

abbrev starting : Starting rq_of remote_of
starting = record { pool = λ _. none; group = full; nbthreads = 4 }

-- A worker starts a bthread in slot 6 while its run queue is full.
start_background-starts_example :
    (tid : ℕ) × (s' : Starting rq_of remote_of) × (start_background rq_of remote_of tid_codec
        (λ flags. flags == 1)
        false
        thieves
        2
        (some 6)
        unused_meta
        50
        0
        100
        none
        normal
        starting
      ≡ some (s', start_ok tid))
    × (tid_codec.get_slot tid ≡ 6)
    × IsRunning tid_codec tid s'.pool
    × (is_stopped tid_codec tid s'.pool ≡ false)
    × IsQueued rq_of remote_of false tid s'.group
    × (s'.nbthreads ≡ 4 + 1)
start_background-starts_example =
    start_background-starts rq_of remote_of tid_codec (λ flags. flags == 1) false thieves 1 2 6
      unused_meta 50 0 100 none normal starting (omega arith) (omega arith) (omega arith)
      (λ e. omega (arith, e)) (omega arith) (omega arith)

abbrev table : Groups
table = record { ngroup = 0; groups = λ _. none; stop = false }

abbrev one_group : Groups
one_group = (add_group 4 (some 24) table).0

zeroth : (n : ℕ) → 0 < n → 0 < n
zeroth n some_group = some_group

-- Group 24 is the only one, and bthread 9 has slept.
timer_thread-Woken_example :
    Woken rq_of remote_of 9 one_group
      (λ _. full)
      (ready_to_run_from_timer_thread rq_of remote_of (λ n. 0) thieves 2 9 one_group (λ _. full))
timer_thread-Woken_example =
    timer_thread-Woken rq_of remote_of 4 (λ n. 0) thieves 0 2 9 {t = table} {t' = one_group}
      (λ _. full) zeroth (refl, refl) (one_more at_start (TableSteps.adds 24 refl refl))
      (λ g. omega arith) (omega arith)
