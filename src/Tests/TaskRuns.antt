-- ===== src/Tests/TaskRuns.antt =====
-- dbrpc/task_group.cpp on a pool with one bthread, in slot 6 with version 2.
use brpc_source_code_analysi.Prelude.{
  inl, inr, ℕ, ◌≡◌, refl, ◌+◌, ◌*◌, ◌^◌, ◌<◌, ◌==◌, if◌then◌else◌, true, false, none, some, List,
  [], ◌∷◌, arith,
}
use brpc_source_code_analysi.Butex.State.{Unscheduled, removed}
use brpc_source_code_analysi.Task.Tid.{tid_codec, make_tid, get_slot, tid_roundtrip}
use brpc_source_code_analysi.Task.Meta.{
  TaskMeta, Attr, Pool, set_stopped, is_stopped, exists, get_version,
}
use brpc_source_code_analysi.Task.Life.{end_task, join, joined, Waited}
use brpc_source_code_analysi.Task.Interrupt.{interrupt, einval, add_sleep_event}
use brpc_source_code_analysi.Task.Identity.{IsRunning, IsOver, over_rejected}
use brpc_source_code_analysi.Task.History.{begin, ended_here, History-IsOver}
use brpc_source_code_analysi.Task.Join.{Course, goes_over, IsAnswer, join_returns}
use brpc_source_code_analysi.Task.Sleep.{GoesToSleep, wakeups, timer_wakeups, sleep_wakes_once}

abbrev normal : Attr
normal = record { stack_type = 3; flags = 0 }

abbrev the_meta : TaskMeta
the_meta = record {
  version_butex = 2;
  tid = 2 * 2 ^ 32 + 6;
  stop = false;
  interrupted = false;
  about_to_quit = false;
  fn = 50;
  arg = 0;
  attr = normal;
  current_waiter = none;
  current_sleep = 0;
  cpuwide_start_ns = 0;
  cputime_ns = 0;
  nswitch = 0;
}

abbrev pool : Pool
pool slot = if slot == 6 then some the_meta else none

abbrev the_tid : ℕ
the_tid = 2 * 2 ^ 32 + 6

-- The pool after the run.
abbrev ended : Pool
ended slot = if slot == 6 then some (record the_meta { version_butex = 3 }) else none

runs : IsRunning tid_codec the_tid pool
unfolding get_version
runs = (the_meta, refl, refl, λ e. omega (arith, e))

over : IsOver tid_codec the_tid ended
unfolding get_version
over = (record the_meta { version_butex = 3 }, refl, λ e. omega (arith, e))

abbrev no_timer : ℕ → Unscheduled
no_timer _ = removed

over_rejected_example :
    (exists tid_codec the_tid ended ≡ false)
    × (is_stopped tid_codec the_tid ended ≡ true)
    × (set_stopped tid_codec the_tid ended ≡ ended)
    × (interrupt tid_codec no_timer true true the_tid ended ≡ (ended, [], einval))
over_rejected_example = over_rejected tid_codec no_timer true true the_tid ended over

History-IsOver_example : IsOver tid_codec the_tid (end_task 6 pool)
unfolding get_version
History-IsOver_example =
    History-IsOver tid_codec the_tid 0 pool (end_task 6 pool) (ended_here 0 pool pool (begin pool))
      (omega arith) runs (omega arith)

-- A signal interrupts the first wait; the run is over after the second.
abbrev waits : List (Pool × Waited)
waits =
    (pool, record { failed = true; errno = 4 }) ∷ (ended, record { failed = false; errno = 0 }) ∷ []

waits-Course : Course 6 (get_version the_tid) pool waits joined
unfolding end_task
waits-Course =
    goes_over waits the_meta refl
      (inr (inr refl), (the_meta, refl), (inl refl, (over.0, over.1), tt)) over

join_returns_example :
    (p' : Pool) × (join tid_codec waits (some 17) the_tid pool ≡ some (p', joined))
    × IsAnswer tid_codec the_tid p' joined
join_returns_example =
    join_returns tid_codec waits (some 17) the_tid pool joined (λ e. omega (arith, e)) refl
      waits-Course

sleeper : GoesToSleep tid_codec the_tid pool
unfolding get_version
sleeper = record {
  meta = the_meta;
  found = refl;
  current = refl;
  no_waiter = refl;
  no_sleep = refl;
  not_interrupted = refl;
}

sleep_wakes_once_example :
    let slept_first = add_sleep_event tid_codec no_timer 8 the_tid pool in
    let then_interrupted = interrupt tid_codec no_timer true true the_tid slept_first.0 in
    let interrupted_first = interrupt tid_codec no_timer true true the_tid pool in
    let then_slept = add_sleep_event tid_codec no_timer 8 the_tid interrupted_first.0 in
    (wakeups the_tid slept_first.1 + wakeups the_tid then_interrupted.1 + timer_wakeups (no_timer 8)
      ≡ 1)
    × (wakeups the_tid interrupted_first.1
          + wakeups the_tid then_slept.1
          + timer_wakeups (no_timer 8)
        ≡ 1)
    × (wakeups the_tid (add_sleep_event tid_codec no_timer 0 the_tid pool).1 ≡ 1)
sleep_wakes_once_example =
    sleep_wakes_once tid_codec no_timer true true 8 the_tid pool sleeper (λ e. omega (arith, e))
      refl

tid_roundtrip_example :
    (get_version (make_tid 7 9) ≡ 7)
    × (get_slot (make_tid 7 9) ≡ 9)
    × (make_tid 7 9 < 2 ^ 64)
    × (make_tid (get_version the_tid) (get_slot the_tid) ≡ the_tid)
tid_roundtrip_example = tid_roundtrip 7 9 the_tid (omega arith) (omega arith) (omega arith)
