-- ===== src/Tests/ForegroundRuns.antt =====
-- dbrpc/task_group.cpp: a bthread starts another one and gives it its worker.
use brpc_source_code_analysi.Prelude.{◌==◌, ◌+◌, ◌^◌, false, none, some, arith}
use brpc_source_code_analysi.Task.Tid.{tid_codec}
use brpc_source_code_analysi.Sched.Foreground.{
  Worker, Foreground, start_foreground, start_foreground-starts,
}
use brpc_source_code_analysi.Tests.SchedRuns.{state, get_stack}
use brpc_source_code_analysi.Tests.GroupRuns.{normal, unused_meta}

abbrev worker : Worker
worker = record { pool = λ _. none; sched = state; nbthreads = 4 }

-- The caller has the version 1 and runs in slot 2; the new bthread gets slot 5.
start_foreground-starts_example :
    Foreground tid_codec
      (λ flags. flags == 1)
      0
      1
      get_stack
      60
      false
      (2 ^ 32 + 2)
      5
      normal
      worker
      (start_foreground tid_codec
        (λ flags. flags == 1)
        0
        1
        get_stack
        60
        false
        (2 ^ 32 + 2)
        (some 5)
        unused_meta
        50
        0
        55
        none
        normal
        worker)
start_foreground-starts_example =
    start_foreground-starts tid_codec (λ flags. flags == 1) 0 1 get_stack 60 false (2 ^ 32 + 2) 5
      unused_meta 50 0 55 none normal worker (omega arith) (omega arith) (omega arith)
      (λ e. omega (arith, e)) (λ e. omega (arith, e))
