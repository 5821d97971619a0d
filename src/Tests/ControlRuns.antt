-- ===== src/Tests/ControlRuns.antt =====
-- dbrpc/task_control.cpp on a table of three groups.
use brpc_source_code_analysi.Prelude.{
  ℕ, ◌≡◌, ◌⊎◌, refl, ◌+◌, ◌==◌, ◌<◌, ◌≤◌, if◌then◌else◌, ltb, false, none, some, [], ◌∷◌, arith,
}
use brpc_source_code_analysi.Queues.{list_wsq, list_remote}
use brpc_source_code_analysi.Control.Groups.{Groups, add_group}
use brpc_source_code_analysi.Control.Steal.{RunQueues, steal_loop, steal_task, try_group}
use brpc_source_code_analysi.Control.Signal.{Flags, signal_task as signal_workers}
use brpc_source_code_analysi.Control.WellFormed.{IsTable}
use brpc_source_code_analysi.Control.Idle.{IsIdle, steal_task-none}
use brpc_source_code_analysi.Control.Took.{Source, steal_task-Source}
use brpc_source_code_analysi.Control.Announce.{total_woken, signal_task-effect}
use brpc_source_code_analysi.Prelude.{List, count}
use brpc_source_code_analysi.Control.Groups.{choose_one_group}
use brpc_source_code_analysi.Control.Registry.{Operation, adds, deletes, stops, all_specified}
use brpc_source_code_analysi.Control.Refines.{
  Control, IsFilled, registry, perform_all, perform_all-specified,
}
use brpc_source_code_analysi.Control.History
use brpc_source_code_analysi.Control.History.{at_start, one_more, TableHistory-IsTable}

-- Groups 21, 22 and 23 in the first slots.
abbrev table : Groups
table = record { ngroup = 3; groups = λ i. if ltb i 3 then some (21 + i) else none; stop = false }

-- Group 22 has a task of its own, group 23 a remote one.
abbrev queues : RunQueues (list_wsq 4) (list_remote 2)
queues = record {
  rq = λ g. if g == 22 then 5 ∷ 6 ∷ [] else [];
  remote_rq = λ g. if g == 23 then 7 ∷ [] else [];
}

abbrev empty_queues : RunQueues (list_wsq 4) (list_remote 2)
empty_queues = record { rq = λ _. []; remote_rq = λ _. [] }

steal_task-Source_example :
    Source
      (list_wsq 4)
      (list_remote 2)
      table
      queues
      7
      (steal_task (list_wsq 4) (list_remote 2) 2 5 table queues).queues
unfolding steal_task steal_loop try_group
steal_task-Source_example = steal_task-Source (list_wsq 4) (list_remote 2) 2 5 7 table queues refl

steal_task-none_example : IsIdle (list_wsq 4) (list_remote 2) 22 empty_queues
unfolding steal_task steal_loop try_group
steal_task-none_example =
    steal_task-none (list_wsq 4) (list_remote 2) 2 5 2 table empty_queues refl (omega arith) refl 1
      22 (omega arith) refl

abbrev flags : Flags
flags = record { bthread_concurrency = 9; bthread_min_concurrency = 4 }

-- Only the lots 1 and 2 have a sleeping worker.
abbrev woken : ℕ → ℕ
woken i = if ltb 0 i then if ltb i 3 then 1 else 0 else 0

signal_task-effect_example :
    let (lots, added) = signal_workers woken flags 4 4 3 5 in
    (total_woken woken lots ≤ 2)
    × (total_woken woken lots ≤ 5)
    × (count 0 lots ≤ 1)
    × ((total_woken woken lots ≡ 2) ⊎ (total_woken woken lots ≡ 5) ⊎ (count 0 lots ≡ 1))
    × ((added ≡ false)
        ⊎ ((total_woken woken lots < 2)
            × (total_woken woken lots < 5)
            × (count 0 lots ≡ 1)
            × (0 < 4)
            × (4 < 9)))
signal_task-effect_example =
    signal_task-effect woken flags 4 4 3 5 0 (λ i. ground arith) (omega arith) (omega arith)
      (omega arith)

-- The control that has this table.
abbrev control : Control
control = record { table = table; asked = [] }

abbrev operations : List Operation
operations = adds 24 ∷ adds 25 ∷ deletes 22 ∷ deletes 99 ∷ stops ∷ []

table-IsFilled : IsFilled table
table-IsFilled i lt = (21 + i, ground (arith, lt))

perform_all-specified_example :
    registry (perform_all 4 operations control) ≡ all_specified 4 operations (registry control)
perform_all-specified_example = perform_all-specified 4 operations control table-IsFilled

abbrev new_table : Groups
new_table = record { ngroup = 0; groups = λ _. none; stop = false }

abbrev one_group : Groups
one_group = (add_group 4 (some 24) new_table).0

zeroth : (n : ℕ) → 0 < n → 0 < n
zeroth n some_group = some_group

TableHistory-IsTable_example :
    IsTable 4 one_group
    × ((one_group.ngroup ≡ 0) ⊎ ((g : ℕ) × (choose_one_group (λ n. 0) one_group ≡ some g)))
TableHistory-IsTable_example =
    TableHistory-IsTable 4 (λ n. 0) {t = new_table} {t' = one_group} zeroth (refl, refl)
      (one_more at_start (History.adds 24 refl refl))
