-- ===== src/Tests/ApiRuns.antt =====
-- dbrpc/bthread.cpp on a process with eight workers asked for.
use brpc_source_code_analysi.Prelude.{
  ℕ, ◌≡◌, ◌⊎◌, refl, ◌+◌, ◌-◌, ◌<◌, ◌≤◌, ltb, Bool, true, false, none, some, List, [], ◌∷◌, arith,
}
use brpc_source_code_analysi.Control.Workers.{Workers}
use brpc_source_code_analysi.Control.Growth.{successes}
use brpc_source_code_analysi.Api.Concurrency.{
  Process, ok, eperm, bthread_setconcurrency, get_or_new_task_control,
  validate_bthread_min_concurrency,
}
use brpc_source_code_analysi.Api.Resize.{IsConsistent, bthread_setconcurrency-effect}
use brpc_source_code_analysi.Worker.Lot.{counting}
use brpc_source_code_analysi.Worker.Stop.{Stopping}
use brpc_source_code_analysi.Api.Control.{Obtained, get_or_new_task_control-once}
use brpc_source_code_analysi.Api.Bound.{Validated, validate_bthread_min_concurrency-effect}
use brpc_source_code_analysi.Api.Batch.{
  Op, background, flush, perform_all, unflushed, outsider, bthread_flush_complete,
}
use brpc_source_code_analysi.Prelude.{◌==◌, if◌then◌else◌, count}
use brpc_source_code_analysi.Butex.State.{removed}
use brpc_source_code_analysi.Task.Meta.{TaskMeta, Pool, is_stopped}
use brpc_source_code_analysi.Task.Tid.{tid_codec}
use brpc_source_code_analysi.Api.Lists.{
  TidList, BthreadList, list_ok, list_einval, bthread_list_stop, bthread_list_stop-stops,
}

abbrev eight : Workers
eight = record { concurrency = 8; num_workers = 8 }

abbrev process : Process
process = record {
  bthread_concurrency = 8;
  bthread_min_concurrency = 0;
  never_set_bthread_concurrency = true;
  task_control = some eight;
}

abbrev young : Process
young = record process { task_control = none }

-- The tenth thread cannot be created.
abbrev creates : ℕ → Bool
creates i = ltb i 9

abbrev wanted : ℕ
wanted = 12

bthread_setconcurrency-effect_example :
    let (s', code) = bthread_setconcurrency 4 1024 creates true (λ q. q) 12 process in
    ((12 < 8) × (s' ≡ process) × (code ≡ eperm))
    ⊎ ((wanted ≡ 8) × (s' ≡ process) × (code ≡ ok))
    ⊎ ((8 < 12)
        × (code ≡ ok)
        × (c' : Workers) × (s'.task_control ≡ some c')
        × (c'.concurrency ≡ 8 + successes creates (12 - 8) 8)
        × (c'.num_workers ≡ c'.concurrency)
        × (s'.bthread_concurrency ≡ c'.concurrency)
        × (c'.concurrency ≤ 12))
bthread_setconcurrency-effect_example =
    bthread_setconcurrency-effect 4 1024 creates 12 eight process (omega arith) (omega arith) refl
      refl refl

-- A control that nobody has seen yet.
abbrev unseen : Stopping counting
unseen = record {
  table = record { ngroup = 0; groups = λ _. none; stop = false };
  lots = λ _. 8;
  calls = [];
}

abbrev four : ℕ → Bool
four i = ltb i 4

-- The fifth of eight threads cannot be created.
get_or_new_task_control-once_example :
    let r = get_or_new_task_control four true true (λ q. q) young in
    Obtained counting unseen 6 true true young young r
    × ((r.1 ≡ none)
        ⊎ ((c : Workers) × (r.1 ≡ some c)
            × (get_or_new_task_control creates true true (λ q. q) r.0 ≡ (r.0, some c, none))))
get_or_new_task_control-once_example =
    get_or_new_task_control-once counting unseen 6 four creates true true true true (λ q. q)
      (λ q. q) young refl

abbrev roomy : Process
roomy = record process { bthread_concurrency = 16 }

roomy-IsConsistent : IsConsistent roomy
roomy-IsConsistent c has = ground (arith, has)

validate_bthread_min_concurrency-effect_example :
    Validated 4 creates 9 roomy (validate_bthread_min_concurrency 4 creates true 9 roomy)
validate_bthread_min_concurrency-effect_example =
    validate_bthread_min_concurrency-effect 4 creates 9 roomy roomy-IsConsistent

abbrev ops : List Op
ops = background true 2 true ∷ flush ∷ background true 1 true ∷ background true 1 false ∷ []

bthread_flush_complete_example :
    (((perform_all ops (outsider none)).0.tls_task_group_nosignal ≡ some 2)
      ⊎ (unflushed 2 (perform_all ops (outsider none)).1 ≡ 0))
    × (unflushed 2 (perform_all (flush ∷ ops) (outsider none)).1 ≡ 0)
bthread_flush_complete_example = bthread_flush_complete ops 2

-- Lists of identifiers as they are.
abbrev plain_list : TidList
plain_list = record {
  Impl = List ℕ;
  empty = [];
  add = λ id ids. (id ∷ ids, 0);
  ids = λ ids. ids;
  store = λ written ids. written;
  ids-store = λ written ids. refl;
}

abbrev two_bthreads : BthreadList plain_list
two_bthreads = record {
  impl = some (4294967300 ∷ 4294967301 ∷ []);
  head = 0;
  size = 0;
  conflict_head = 0;
  conflict_size = 0;
}

abbrev bthread_5 : TaskMeta
bthread_5 = record {
  version_butex = 1;
  tid = 4294967301;
  stop = false;
  interrupted = false;
  about_to_quit = false;
  fn = 50;
  arg = 0;
  attr = record { stack_type = 3; flags = 0 };
  current_waiter = none;
  current_sleep = 0;
  cpuwide_start_ns = 0;
  cputime_ns = 0;
  nswitch = 0;
}

abbrev pool : Pool
pool slot = if slot == 5 then some bthread_5 else none

bthread_list_stop-stops_example :
    let (p', calls, answer) =
      bthread_list_stop tid_codec (λ _. removed) true true plain_list two_bthreads pool in
    ((ids : List ℕ) × (two_bthreads.impl ≡ some ids)
      × (answer ≡ list_ok)
      × ((count 4294967301 ids ≡ 0) ⊎ (is_stopped tid_codec 4294967301 p' ≡ true))
      × ((is_stopped tid_codec 4294967301 pool ≡ false)
          ⊎ (is_stopped tid_codec 4294967301 p' ≡ true)))
    ⊎ ((two_bthreads.impl ≡ none) × (p' ≡ pool) × (calls ≡ []) × (answer ≡ list_einval))
bthread_list_stop-stops_example =
    bthread_list_stop-stops tid_codec (λ _. removed) true true plain_list two_bthreads 4294967301
      pool
